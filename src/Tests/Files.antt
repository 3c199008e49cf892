-- ===== src/Tests/Files.antt =====
-- The theorem on the listing of files at a small tree, and runs of List and Open there.
use crypticquest_backend.Base.{◌≡◌, refl, String, pos, some, none, List, [], ◌∷◌, ℕ, has}
use crypticquest_backend.Engine.{err}
use crypticquest_backend.Text.{codes, codes_eq}
use crypticquest_backend.Files.{
  Directory, level_files, tool_files, regular, directory, not_found, split_path, is_element,
  open_path,
}
use crypticquest_backend.Files.Tree.{
  file, special, folder, locked, gone, Entries, end, entry, Base, there, missing, is_hidden,
  join_path, walk, sort_names, string_leb, list_files, node_at, disk_of,
}
use crypticquest_backend.Files.Tree.Sorted.{IsSorted}
use crypticquest_backend.Files.Tree.Exact.{shows, list_exact}
use crypticquest_backend.Files.Tree.Found.{AreEntries}

abbrev pictures : Entries
pictures = entry "b.png" file (entry ".raw" file end)

abbrev level_tree : Entries
level_tree = entry ".git" locked (
    entry ".gitkeep" file (
      entry "pictures" (folder pictures)
        (entry "note.txt" (special (some regular)) (entry "up" (special (some directory)) end))))

abbrev bases : Directory → Base
bases (level_files id) = there level_tree
bases tool_files = missing

abbrev names : List String
names = "note.txt" ∷ "pictures/b.png" ∷ "up" ∷ []

list_runs :
    (list_files (bases (level_files (pos 1))) ≡ some names)
    × (list_files (bases tool_files) ≡ some [])
    × (list_files (there (entry "secret" locked end)) ≡ none)
    × (open_path (disk_of bases) (level_files (pos 1)) "pictures" ≡ err not_found)
    × (open_path (disk_of bases) (level_files (pos 1)) "../pictures/b.png" ≡ err not_found)
unfolding list_files walk is_hidden join_path sort_names string_leb open_path disk_of node_at
    split_path is_element codes_eq
list_runs = (refl, refl, refl, refl, refl)

-- A directory that goes while List reads it hides what comes after it, and a link to a directory is
-- listed though Open refuses it.
list_surprises :
    (list_files (there (entry "a" gone (entry "b" file end))) ≡ some [])
    × (list_files (there (entry "up" (special (some directory)) end)) ≡ some ("up" ∷ []))
    × (open_path (disk_of (λ _. there (entry "up" (special (some directory)) end))) tool_files "up"
        ≡ err not_found)
unfolding list_files walk is_hidden join_path sort_names string_leb open_path disk_of node_at
    split_path is_element codes_eq
list_surprises = (refl, refl, refl)

level_tree-AreEntries : AreEntries level_tree
unfolding split_path is_element codes_eq
level_tree-AreEntries = (
  (refl, refl),
  refl,
  tt,
  (
    (refl, refl),
    refl,
    tt,
    (
      (refl, refl),
      refl,
      ((refl, refl), refl, tt, ((refl, refl), refl, tt, tt)),
      ((refl, refl), refl, tt, ((refl, refl), refl, tt, tt)),
    ),
  ),
)

list_exact_example :
    (found : List String) × (list_files (there level_tree) ≡ some found)
    × IsSorted found
    × ((path : List ℕ) → has (λ n. codes_eq (codes n) path) found ≡ shows level_tree path)
unfolding is_hidden
list_exact_example = list_exact level_tree level_tree-AreEntries refl
