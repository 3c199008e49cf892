-- ===== src/Config/Origins.antt =====
-- The origins that Load (internal/config/config.go) reads from ALLOWED_ORIGIN.
use crypticquest_backend.Base.{
  ℕ, String, ◌==◌, string_key, eq_iff, ◌≡◌, ◌≢◌, refl, ◌∙◌, ap, Bool-cases, inl, inr, true, false,
  not, Option, none, some, List, [], ◌∷◌, map, nat_eq, arith, All, rows_where,
}
use Prim.Native.Char.{code}
use crypticquest_backend.Text.{is_space}
use crypticquest_backend.Text.Parts.{cons, append, trim_space, split_on}
use crypticquest_backend.Text.Parts.Trim.{
  only_spaces, IsTrimmed, trim_space-append, trim_space-IsTrimmed, trim_space_empty,
}
use crypticquest_backend.Text.Parts.Split.{
  lacks, lacks-append, split_on-append, split_on_lacking, split_on-lacks,
}
use crypticquest_backend.Text.Parts.Lacking.{trim_space-lacks}
use crypticquest_backend.Config.{Env, load, kept_parts, list_or, parse_list, get_env_list}

-- One entry of the list, with the spaces around it.
pub record Entry : Type 0 where
  pub left : String
  pub origin : String
  pub right : String

abbrev pub text : Entry → String
text e = append e.left (append e.origin e.right)

-- An origin without commas, and without spaces at its ends; it may be empty.
pub record IsEntry (e : Entry) : Type 0 where
  pub left : only_spaces e.left ≡ true
  pub right : only_spaces e.right ≡ true
  pub trimmed : IsTrimmed e.origin
  pub one : lacks b',' e.origin ≡ true

-- The value of the variable.
abbrev pub join : List String → String
join [] = ""
join (p ∷ []) = p
join (p ∷ q ∷ ps) = append p (cons "," (join (q ∷ ps)))

space_is_no_comma : (c : ℕ) → is_space c ≡ true → nat_eq c b',' ≡ false
unfolding is_space
space_is_no_comma c h = ground arith

spaces_lack : (s : String) → only_spaces s ≡ true → lacks b',' s ≡ true
spaces_lack String.[] h = refl
spaces_lack (String.◌∷◌ c s) h = ground (arith, space_is_no_comma (code c), spaces_lack s)

text_lacks : (e : Entry) → IsEntry e → lacks b',' (text e) ≡ true
text_lacks e h =
    lacks-append b',' e.left (append e.origin e.right) (spaces_lack e.left h.left)
      (lacks-append b',' e.origin e.right h.one (spaces_lack e.right h.right))

split-join :
    (e : Entry) (es : List Entry)
    → All IsEntry (e ∷ es)
    → split_on b',' (join (map text (e ∷ es))) ≡ map text (e ∷ es)
split-join e [] (p, h) = split_on_lacking b',' (text e) (text_lacks e p)
split-join e (f ∷ es) (p, h) =
    split_on-append b',' (text e) (join (map text (f ∷ es))) "," (text_lacks e p) refl
    ∙ ap (text e ∷◌) (split-join f es h)

abbrev pub named : List Entry → List String
named es = rows_where (λ o. not (o == "")) (map (λ e. e.origin) es)

kept_parts-text : (es : List Entry) → All IsEntry es → kept_parts (map text es) ≡ named es
unfolding kept_parts
kept_parts-text [] h = refl
kept_parts-text (e ∷ es) (p, h) =
    rw (trim_space-append e.left e.origin e.right p.left p.right p.trimmed) (
      rw (kept_parts-text es h)
        (elim (Bool-cases (e.origin == "")) [ inl q ↦ rw q refl | inr q ↦ rw q refl ]))

-- The early test for a blank value changes nothing.
parse_list-some :
    (v : String) (fallback : List String)
    → parse_list (some v) fallback ≡ list_or (kept_parts (split_on b',' v)) fallback
unfolding parse_list
parse_list-some v fallback = elim (Bool-cases (trim_space v == "")) [
  | inr e ↦ rw e refl
  | inl e ↦
      let blank : trim_space v ≡ "" = (eq_iff (trim_space v) "").0 e in
      rw e (
        rw (split_on_lacking b',' v (spaces_lack v (trim_space_empty v blank)))
          (unfold kept_parts in rw e (unfold list_or in refl)))
]

abbrev pub default_origins : List String
default_origins = "http://localhost:5173" ∷ []

-- If ALLOWED_ORIGIN is a list of entries parted by commas, with any spaces around them, Load allows
-- the origins of the entries that are not empty, in their order, or the one of local development if
-- there is none.
pub allowed_origins-join :
    (env : Env) (e : Entry) (es : List Entry)
    → All IsEntry (e ∷ es)
    → env "ALLOWED_ORIGIN" ≡ some (join (map text (e ∷ es)))
    → (load env).allowed_origins ≡ list_or (named (e ∷ es)) default_origins
unfolding load get_env_list
allowed_origins-join env e es h set = rw set (
    parse_list-some (join (map text (e ∷ es))) default_origins
    ∙ rw (split-join e es h) (rw (kept_parts-text (e ∷ es) h) refl))

-- What an origin of the list is: a text that a request can name.
abbrev pub IsOrigin : String → Type 0
IsOrigin o = (o ≢ "") × IsTrimmed o × (lacks b',' o ≡ true)

not_empty : (s : String) → (s == "") ≡ false → s ≢ ""
not_empty s h e = cc (h, (eq_iff s "").1 e)

kept_parts-origins :
    (parts : List String) → All (λ p. lacks b',' p ≡ true) parts → All IsOrigin (kept_parts parts)
unfolding kept_parts
kept_parts-origins [] h = tt
kept_parts-origins (p ∷ parts) (q, h) = elim (Bool-cases (trim_space p == "")) [
  | inl e ↦ rw e (kept_parts-origins parts h)
  | inr e ↦ rw e (
    (not_empty (trim_space p) e, trim_space-IsTrimmed p, trim_space-lacks b',' p q),
    kept_parts-origins parts h,
  )
]

default-origins : All IsOrigin default_origins
unfolding is_space
default-origins = (((λ e. cc), (refl, refl), refl), tt)

list_or-origins :
    (out : List String)
    → All IsOrigin out
    → All IsOrigin (list_or out default_origins) × (list_or out default_origins ≢ [])
unfolding list_or
list_or-origins [] h = (default-origins, (λ e. cc))
list_or-origins (o ∷ out) h = (h, (λ e. cc))

value-origins :
    (v : Option String)
    → All IsOrigin (parse_list v default_origins) × (parse_list v default_origins ≢ [])
value-origins none = unfold parse_list in (default-origins, (λ e. cc))
value-origins (some v) =
    rw (parse_list-some v default_origins)
      (list_or-origins _ (kept_parts-origins (split_on b',' v) (split_on-lacks b',' v)))

-- Whatever the environment, Load allows some origin, and each origin that it allows is not empty,
-- has no space at its ends and no comma.
load-origins :
    (env : Env) → All IsOrigin (load env).allowed_origins × ((load env).allowed_origins ≢ [])
unfolding load get_env_list
load-origins env = value-origins (env "ALLOWED_ORIGIN")
