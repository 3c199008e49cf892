-- ===== src/Files/Tree/Named.antt =====
-- Which names files.List (internal/files/files.go) collects.
use crypticquest_backend.Base.{
  ℕ, String, ◌≡◌, refl, sym, ◌∙◌, ap, Bool, Bool-cases, inl, inr, true, false, not, ◌&&◌, ◌||◌,
  Option, some, List, [], ◌∷◌, ◌++◌, has, nat_eq, All, all, arith,
}
use mathlib.Core.List.{append_assoc, append-nil}
use crypticquest_backend.Text.{codes, codes_eq, codes_eq_refl, codes_eq_sound}
use crypticquest_backend.Files.{split_path}
use crypticquest_backend.Files.Tree.{
  Node, file, special, folder, locked, gone, Entries, end, entry, is_hidden, join_path, node_at,
  node_in,
}
use crypticquest_backend.Files.Tree.Walked.{names_of, names_in}
use crypticquest_backend.Files.Tree.Found.{
  is_listed, IsName, IsTree, AreEntries, parts_of, parts-join, split_path-cons,
}

abbrev pub is_visible : List ℕ → Bool
is_visible [] = true
is_visible (c ∷ cs) = not (nat_eq c b'.')

all-append : (p : List ℕ → Bool) (xs ys : List (List ℕ)) → all p (xs ++ ys) ≡ (all p xs && all p ys)
all-append p [] ys = refl
all-append p (x ∷ xs) ys = ground (arith, all-append p xs ys)

has-append : (p : String → Bool) (xs ys : List String) → has p (xs ++ ys) ≡ (has p xs || has p ys)
has-append p [] ys = refl
has-append p (x ∷ xs) ys = ground (arith, has-append p xs ys)

All-append : (P : String → Type 0) (xs ys : List String) → All P xs → All P ys → All P (xs ++ ys)
All-append P [] ys h k = k
All-append P (x ∷ xs) ys (h, hs) k = (h, All-append P xs ys hs k)

is_visible-codes : (name : String) → is_visible (codes name) ≡ not (is_hidden name)
unfolding is_hidden
is_visible-codes String.[] = refl
is_visible-codes (String.◌∷◌ c s) = refl

-- No element of the path is hidden.
abbrev pub Visible : String → Type 0
Visible path = all is_visible (split_path (codes path)) ≡ true

Visible-join_path :
    (parent : Option String) (name : String)
    → IsName name
    → is_hidden name ≡ false
    → all is_visible (parts_of parent) ≡ true
    → Visible (join_path parent name)
Visible-join_path parent name n f h =
    rw
      (
        parts-join parent name n,
        all-append is_visible (parts_of parent) (codes name ∷ []),
        h,
        is_visible-codes name,
        f,
      )
      refl

mutual
  names_of-Visible :
      (name path : String) (node : Node)
      → IsTree node
      → (is_hidden name ≡ false → Visible path)
      → All Visible (names_of name path node)
  names_of-Visible name path file t h = elim (Bool-cases (is_hidden name)) [
    | inl e ↦ rw e tt
    | inr e ↦ rw e (h e, tt)
  ]
  names_of-Visible name path (special o) t h = elim (Bool-cases (is_hidden name)) [
    | inl e ↦ rw e tt
    | inr e ↦ rw e (h e, tt)
  ]
  names_of-Visible name path (folder es) t h = elim (Bool-cases (is_hidden name)) [
    | inl e ↦ rw e tt
    | inr e ↦ rw e (names_in-Visible (some path) es t (h e))
  ]
  names_of-Visible name path locked t h = tt
  names_of-Visible name path gone t h = tt

  pub names_in-Visible :
      (parent : Option String) (es : Entries)
      → AreEntries es
      → all is_visible (parts_of parent) ≡ true
      → All Visible (names_in parent es)
  names_in-Visible parent end t h = tt
  names_in-Visible parent (entry name node es) (n, new, t, ts) h =
      All-append Visible (names_of name (join_path parent name) node) (names_in parent es)
        (names_of-Visible name (join_path parent name) node t
          (λ f. Visible-join_path parent name n f h))
        (names_in-Visible parent es ts h)

-- The elements give the path back.
rejoin : List (List ℕ) → List ℕ
rejoin [] = []
rejoin (p ∷ []) = p
rejoin (p ∷ q ∷ ps) = p ++ b'/' ∷ rejoin (q ∷ ps)

rejoin-start :
    (x : ℕ) (p : List ℕ) (ps : List (List ℕ)) → rejoin ((x ∷ p) ∷ ps) ≡ x ∷ rejoin (p ∷ ps)
unfolding rejoin
rejoin-start x p [] = refl
rejoin-start x p (q ∷ ps) = refl

rejoin-split_path : (xs : List ℕ) → rejoin (split_path xs) ≡ xs
unfolding rejoin split_path
rejoin-split_path [] = refl
rejoin-split_path (x ∷ xs) =
    let (p, ps, e) = split_path-cons xs in
    let back : rejoin (p ∷ ps) ≡ xs = ap rejoin (sym e) ∙ rejoin-split_path xs in
    elim (Bool-cases (nat_eq x b'/')) [
      | inl s ↦ let slash : x ≡ b'/' = ground arith in rw (s, e, back, slash) refl
      | inr s ↦ rw (s, e, rejoin-start x p ps, back) refl
    ]

split_path_injective : (xs ys : List ℕ) → split_path xs ≡ split_path ys → xs ≡ ys
split_path_injective xs ys e = sym (rejoin-split_path xs) ∙ ap rejoin e ∙ rejoin-split_path ys

module _ (path : List ℕ) where
  abbrev pub named : String → Bool
  named name = codes_eq (codes name) path

  named_here : (q : String) → split_path path ≡ split_path (codes q) ++ [] → named q ≡ true
  named_here q e =
      let same : path ≡ codes q =
        split_path_injective path (codes q) (e ∙ append-nil (split_path (codes q))) in
      rw same (codes_eq_refl (codes q))

  mutual
    unfolding node_at

    names_of_complete :
        (name q : String) (node : Node) (parts : List (List ℕ))
        → IsTree node
        → is_hidden name ≡ false
        → split_path path ≡ split_path (codes q) ++ parts
        → all is_visible parts ≡ true
        → is_listed (node_at parts node) ≡ true
        → has named (names_of name q node) ≡ true
    names_of_complete name q file [] t f e v r = rw (f, named_here q e) refl
    names_of_complete name q (special o) [] t f e v r = rw (f, named_here q e) refl
    names_of_complete name q (folder es) [] t f e v r = absurd (cc r)
    names_of_complete name q locked [] t f e v r = absurd (cc r)
    names_of_complete name q gone [] t f e v r = absurd (cc r)
    names_of_complete name q file (p ∷ ps) t f e v r = absurd (cc r)
    names_of_complete name q (special o) (p ∷ ps) t f e v r = absurd (cc r)
    names_of_complete name q locked (p ∷ ps) t f e v r = absurd (cc r)
    names_of_complete name q gone (p ∷ ps) t f e v r = absurd (cc r)
    names_of_complete name q (folder es) (p ∷ ps) t f e v r =
        rw f (names_in_complete (some q) es p ps t e v r)

    pub names_in_complete :
        (parent : Option String) (es : Entries) (part : List ℕ) (parts : List (List ℕ))
        → AreEntries es
        → split_path path ≡ parts_of parent ++ part ∷ parts
        → all is_visible (part ∷ parts) ≡ true
        → is_listed (node_in part parts es) ≡ true
        → has named (names_in parent es) ≡ true
    names_in_complete parent end part parts t e v r = absurd (cc r)
    names_in_complete parent (entry name node es) part parts (n, new, t, ts) e v r =
        let q = join_path parent name in
        rw (has-append named (names_of name q node) (names_in parent es))
          (elim (Bool-cases (codes_eq (codes name) part)) [
            | inr other ↦
                let rest : has named (names_in parent es) ≡ true =
                  names_in_complete parent es part parts ts e v (ground arith) in
                ground arith
            | inl here ↦
                let same : codes name ≡ part = codes_eq_sound (codes name) part here in
                let shown : is_hidden name ≡ false =
                  ground (arith, is_visible-codes name, ap is_visible same) in
                let below : is_listed (node_at parts node) ≡ true = ground arith in
                let elements : split_path path ≡ split_path (codes q) ++ parts =
                  rw
                    (
                      parts-join parent name n,
                      append_assoc (parts_of parent) (codes name ∷ []) parts,
                      same,
                    )
                    e in
                let found : has named (names_of name q node) ≡ true =
                  names_of_complete name q node parts t shown elements (ground arith) below in
                rw found refl
          ])
