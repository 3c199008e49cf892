-- ===== src/Files/Tree/Found.antt =====
-- The trees of files that files.List (internal/files/files.go) walks, and how a path leads to a node.
use crypticquest_backend.Base.{
  ℕ, String, ◌≡◌, refl, ◌∙◌, ap, Bool, Bool-cases, inl, inr, true, false, ◌||◌, Option, none, some,
  List, [], ◌∷◌, ◌++◌, nat_eq, arith, string_key,
}
use Prim.Native.Char.{code}
use crypticquest_backend.Text.{codes, codes_eq, codes_eq_refl}
use crypticquest_backend.Text.Parts.{cons, append}
use crypticquest_backend.Files.{split_path, is_element}
use crypticquest_backend.Files.Tree.{
  Node, file, special, folder, locked, gone, Entries, end, entry, join_path, node_at, node_in,
}

-- The name of a file: a text that is a whole element of a path.
abbrev pub IsName : String → Type 0
IsName s = (split_path (codes s) ≡ codes s ∷ []) × (is_element (codes s) ≡ true)

abbrev pub has_name : String → Entries → Bool
has_name s end = false
has_name s (entry name node es) = codes_eq (codes name) (codes s) || has_name s es

-- A tree as file systems have them: in every directory the names are names, and differ.
abbrev mutual
  pub IsTree : Node → Type 0
  IsTree file = Unit
  IsTree (special o) = Unit
  IsTree (folder es) = AreEntries es
  IsTree locked = Unit
  IsTree gone = Unit

  pub AreEntries : Entries → Type 0
  AreEntries end = Unit
  AreEntries (entry name node es) =
      IsName name × (has_name name es ≡ false) × IsTree node × AreEntries es

-- What List names: all that is there and no directory.
abbrev pub is_listed : Option Node → Bool
is_listed (some file) = true
is_listed (some (special o)) = true
is_listed _ = false

-- The elements of a path from the base.
abbrev pub parts_of : Option String → List (List ℕ)
parts_of none = []
parts_of (some path) = split_path (codes path)

codes-append : (s t : String) → codes (append s t) ≡ codes s ++ codes t
codes-append String.[] t = refl
codes-append (String.◌∷◌ c s) t = ap (code c ∷◌) (codes-append s t)

pub split_path-cons : (xs : List ℕ) → (p : List ℕ) × (ps : List (List ℕ)) × (split_path xs ≡ p ∷ ps)
unfolding split_path
split_path-cons [] = ([], [], refl)
split_path-cons (x ∷ xs) =
    let (p, ps, e) = split_path-cons xs in
    elim (Bool-cases (nat_eq x b'/')) [
      | inl s ↦ ([], p ∷ ps, rw (s, e) refl)
      | inr s ↦ (x ∷ p, ps, rw (s, e) refl)
    ]

split_path-append : (xs ys : List ℕ) → split_path (xs ++ b'/' ∷ ys) ≡ split_path xs ++ split_path ys
unfolding split_path
split_path-append [] ys = refl
split_path-append (x ∷ xs) ys =
    let (p, ps, e) = split_path-cons xs in
    let ih : split_path (xs ++ b'/' ∷ ys) ≡ (p ∷ ps) ++ split_path ys =
      split_path-append xs ys ∙ ap (λ l. l ++ split_path ys) e in
    elim (Bool-cases (nat_eq x b'/')) [ inl s ↦ rw (s, ih, e) refl | inr s ↦ rw (s, ih, e) refl ]

pub parts-join :
    (parent : Option String) (name : String)
    → IsName name
    → split_path (codes (join_path parent name)) ≡ parts_of parent ++ codes name ∷ []
unfolding join_path
parts-join none name h = h.0
parts-join (some path) name h =
    rw (codes-append path (cons "/" name))
      (split_path-append (codes path) (codes name) ∙ ap (λ x. split_path (codes path) ++ x) h.0)

codes_eq_symm : (cs ds : List ℕ) → codes_eq cs ds ≡ codes_eq ds cs
unfolding codes_eq
codes_eq_symm [] [] = refl
codes_eq_symm [] (d ∷ ds) = refl
codes_eq_symm (c ∷ cs) [] = refl
codes_eq_symm (c ∷ cs) (d ∷ ds) = ground (arith, codes_eq_symm cs ds)

abbrev pub ForEntries : (String → Node → Type 0) → Entries → Type 0
ForEntries P end = Unit
ForEntries P (entry name node es) = P name node × ForEntries P es

others :
    (head : String) (es : Entries)
    → has_name head es ≡ false
    → ForEntries (λ name _. codes_eq (codes head) (codes name) ≡ false) es
others head end h = tt
others head (entry name node es) h =
    (ground (arith, codes_eq_symm (codes head) (codes name)), others head es (ground arith))

behind :
    (head : String) (hnode : Node) (es fs : Entries)
    → ForEntries (λ name _. codes_eq (codes head) (codes name) ≡ false) es
    → ForEntries
        (λ name node. (rest : List (List ℕ)) → node_in (codes name) rest fs ≡ node_at rest node)
        es
    → ForEntries
        (λ name node.
          (rest : List (List ℕ))
          → node_in (codes name) rest (entry head hnode fs) ≡ node_at rest node)
        es
unfolding node_at
behind head hnode end fs h k = tt
behind head hnode (entry name node es) fs (q, h) (p, k) =
    ((λ rest. rw q (p rest)), behind head hnode es fs h k)

-- Each entry is found by its name.
pub entries_found :
    (es : Entries)
    → AreEntries es
    → ForEntries
        (λ name node. (rest : List (List ℕ)) → node_in (codes name) rest es ≡ node_at rest node)
        es
unfolding node_at
entries_found end h = tt
entries_found (entry name node es) (n, new, t, h) = (
  (λ rest. rw (codes_eq_refl (codes name)) refl),
  behind name node es es (others name es new) (entries_found es h),
)
