-- ===== src/Files/Tree/Exact.antt =====
-- files.List (internal/files/files.go) names all that it is to name.
use crypticquest_backend.Base.{
  ℕ, String, ◌≡◌, refl, sym, ◌∙◌, subst, Bool, Bool-cases, inl, inr, true, ◌&&◌, none, some, List,
  [], ◌∷◌, has, All, all, arith,
}
use crypticquest_backend.Text.{codes, codes_eq, codes_eq_sound}
use crypticquest_backend.Files.{split_path}
use crypticquest_backend.Files.Tree.Found.{is_listed}
use crypticquest_backend.Files.Tree.{
  folder, Entries, there, walk_base, sort_names, listed, list_files, node_at,
}
use crypticquest_backend.Files.Tree.Served.{Opens, list_files-Opens}
use crypticquest_backend.Files.Tree.Found.{AreEntries, split_path-cons}
use crypticquest_backend.Files.Tree.Walked.{are_readable, names_in, walk_entries-names_in}
use crypticquest_backend.Files.Tree.Named.{
  is_visible, Visible, named, names_in-Visible, names_in_complete,
}
use crypticquest_backend.Files.Tree.Sorted.{
  All-sort_names, IsSorted, IsSorted-sort_names, has-sort_names,
}

-- A path to something that is no directory, of which no element is hidden.
abbrev pub shows : Entries → List ℕ → Bool
shows es path =
    all is_visible (split_path path) && is_listed (node_at (split_path path) (folder es))

has-All :
    (P : String → Type 0) (p : String → Bool) (ns : List String)
    → All P ns
    → has p ns ≡ true
    → (n : String) × P n × (p n ≡ true)
has-All P p [] h e = absurd (cc e)
has-All P p (n ∷ ns) (h, hs) e = elim (Bool-cases (p n)) [
  | inl t ↦ (n, h, t)
  | inr f ↦ has-All P p ns hs (ground arith)
]

list_files-names :
    (es : Entries)
    → are_readable es ≡ true
    → list_files (there es) ≡ some (sort_names (names_in none es))
unfolding list_files walk_base listed
list_files-names es h = rw (walk_entries-names_in none es [] h) refl

shows_of_listed :
    (es : Entries) (path : List ℕ)
    → AreEntries es
    → are_readable es ≡ true
    → has (named path) (sort_names (names_in none es)) ≡ true
    → shows es path ≡ true
shows_of_listed es path t r h =
    let names = sort_names (names_in none es) in
    let (n, (visible, (elements, found)), e) =
      has-All (λ n. Visible n × Opens es n) (named path) names
        (All-zip Visible (Opens es) names
          (All-sort_names Visible (names_in none es) (names_in-Visible none es t refl))
          (list_files-Opens es names t (list_files-names es r)))
        h in
    subst (λ p. shows es p ≡ true) (codes_eq_sound (codes n) path e) (rw (visible, found) refl)
  where
    All-zip :
        (P Q : String → Type 0) (ns : List String) → All P ns → All Q ns → All (λ n. P n × Q n) ns
    All-zip P Q [] h k = tt
    All-zip P Q (n ∷ ns) (h, hs) (k, ks) = ((h, k), All-zip P Q ns hs ks)

listed_of_shows :
    (es : Entries) (path : List ℕ)
    → AreEntries es
    → shows es path ≡ true
    → has (named path) (names_in none es) ≡ true
unfolding node_at
listed_of_shows es path t h =
    let (p, ps, e) = split_path-cons path in
    let visible : all is_visible (split_path path) ≡ true = ground arith in
    let file_there : is_listed (node_at (split_path path) (folder es)) ≡ true = ground arith in
    names_in_complete path none es p ps t e (subst (λ x. all is_visible x ≡ true) e visible)
      (subst (λ x. is_listed (node_at x (folder es)) ≡ true) e file_there)

-- On a file system in whose directories the names are names and differ, and if everything that is not
-- hidden can be read, List succeeds; its names are sorted, and a path is among them exactly if none of
-- its elements starts with a dot and it leads, without following a link on the way, to something that
-- is no directory: a regular file, a symbolic link whatever it leads to, or a device.
pub list_exact :
    (es : Entries)
    → AreEntries es
    → are_readable es ≡ true
    → (names : List String) × (list_files (there es) ≡ some names)
      × IsSorted names
      × ((path : List ℕ) → has (λ n. codes_eq (codes n) path) names ≡ shows es path)
list_exact es t r =
    let names = sort_names (names_in none es) in
    (
      names,
      list_files-names es r,
      IsSorted-sort_names (names_in none es),
      (λ path. elim (Bool-cases (shows es path)) [
        | inl s ↦
            has-sort_names (named path) (names_in none es) ∙ listed_of_shows es path t s ∙ sym s
        | inr s ↦ elim (Bool-cases (has (named path) names)) [
          | inl h ↦ absurd (cc (sym (shows_of_listed es path t r h) ∙ s))
          | inr h ↦ h ∙ sym s
        ]
      ]),
    )
