-- ===== src/Files/Tree/Walked.antt =====
-- The walk of files.List (internal/files/files.go) as the names that it meets, in its order.
use crypticquest_backend.Base.{
  String, ◌≡◌, refl, ◌∙◌, ap, Bool, Bool-cases, inl, inr, true, false, ◌&&◌, ◌||◌, Option, some,
  List, [], ◌∷◌, ◌++◌, if◌then◌else◌, arith,
}
use mathlib.Core.List.{append_assoc, append-nil}
use crypticquest_backend.Files.Tree.{
  Node, file, special, folder, locked, gone, Entries, end, entry, going, is_hidden, join_path,
  go_on, walk, walk_entries,
}

-- What is not hidden can be read.
abbrev mutual
  pub readable : Node → Bool
  readable file = true
  readable (special o) = true
  readable (folder es) = are_readable es
  readable locked = false
  readable gone = false

  pub are_readable : Entries → Bool
  are_readable end = true
  are_readable (entry name node es) = (is_hidden name || readable node) && are_readable es

-- The names in the order of the walk.
abbrev mutual
  pub names_of : String → String → Node → List String
  names_of name path file = if is_hidden name then [] else path ∷ []
  names_of name path (special o) = if is_hidden name then [] else path ∷ []
  names_of name path (folder es) =
      let inside = names_in (some path) es in if is_hidden name then [] else inside
  names_of name path locked = []
  names_of name path gone = []

  pub names_in : Option String → Entries → List String
  names_in parent end = []
  names_in parent (entry name node es) =
      names_of name (join_path parent name) node ++ names_in parent es

one_more :
    (b : Bool) (names : List String) (path : String)
    → going (if b then names else names ++ path ∷ [])
      ≡ going (names ++ (if b then [] else path ∷ []))
one_more true names path = rw (append-nil names) refl
one_more false names path = refl

mutual
  unfolding walk go_on

  walk-names_of :
      (name path : String) (node : Node) (names : List String)
      → (is_hidden name || readable node) ≡ true
      → walk name path node names ≡ going (names ++ names_of name path node)
  walk-names_of name path file names h = one_more (is_hidden name) names path
  walk-names_of name path (special o) names h = one_more (is_hidden name) names path
  walk-names_of name path (folder es) names h = elim (Bool-cases (is_hidden name)) [
    | inl t ↦ rw (t, append-nil names) refl
    | inr f ↦ rw f (walk_entries-names_in (some path) es names (ground arith))
  ]
  walk-names_of name path locked names h =
      let hidden : is_hidden name ≡ true = ground arith in rw (hidden, append-nil names) refl
  walk-names_of name path gone names h =
      let hidden : is_hidden name ≡ true = ground arith in rw (hidden, append-nil names) refl

  pub walk_entries-names_in :
      (parent : Option String) (es : Entries) (names : List String)
      → are_readable es ≡ true
      → walk_entries parent es names ≡ going (names ++ names_in parent es)
  walk_entries-names_in parent end names h = rw (append-nil names) refl
  walk_entries-names_in parent (entry name node es) names h =
      let path = join_path parent name in
      rw (walk-names_of name path node names (ground arith)) (
        walk_entries-names_in parent es (names ++ names_of name path node) (ground arith)
        ∙ ap going (append_assoc names (names_of name path node) (names_in parent es)))
