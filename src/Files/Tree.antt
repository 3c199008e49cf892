-- ===== src/Files/Tree.antt =====
-- internal/files/files.go: List, over a tree of files; and the disk that files.Open meets there.
pub mod Found
pub mod Walked
pub mod Named
pub mod Sorted
pub mod Exact
pub mod Served
use Prim.Native.Char.{code}
use crypticquest_backend.Base.{
  ℕ, String, Bool, true, false, Option, none, some, List, [], ◌∷◌, ◌++◌, leb, nat_eq, ltb,
  if◌then◌else◌,
}
use crypticquest_backend.Text.{codes, codes_eq}
use crypticquest_backend.Text.Parts.{cons, append}
use crypticquest_backend.Files.{
  Directory, Root, opened, absent, unreadable, Stat, regular, directory, Disk, split_path,
}

-- What stands at a path. `special` is any file but a regular one, such as a symbolic link or a device,
-- with what root.Open and Stat make of it; the entries of a `locked` directory cannot be read, and a
-- `gone` one is not there any more when its entries are read.
mutual
  pub data Node : Type 0 where
    file : Node
    special : Option Stat → Node
    folder : Entries → Node
    locked gone : Node

  -- In the order of os.ReadDir.
  pub data Entries : Type 0 where
    end : Entries
    entry : String → Node → Entries → Entries

-- A base directory: Lstat says that it is missing, or fails; or its entries cannot be read or are
-- gone, as above; or they are there. A base that is no directory is not modelled.
pub data Base : Type 0 where
  missing broken unlisted vanished : Base
  there : Entries → Base

-- How a walk goes on: to the next entry, not at all (fs.SkipAll), or with an error.
pub data Walk : Type 0 where
  going skipped : List String → Walk
  failed : Walk

-- `strings.HasPrefix(d.Name(), ".")`
unfoldable pub is_hidden : String → Bool
is_hidden String.[] = false
is_hidden (String.◌∷◌ c s) = nat_eq (code c) b'.'

-- The path of an entry from the base on.
unfoldable pub join_path : Option String → String → String
join_path none name = name
join_path (some path) name = append path (cons "/" name)

go_on : Walk → (List String → Walk) → Walk
go_on (going names) next = next names
go_on (skipped names) next = skipped names
go_on failed next = failed

-- filepath.WalkDir below the base, with the function of List.
unfoldable mutual
  unfolding go_on

  pub walk : String → String → Node → List String → Walk
  walk name path file names = going (if is_hidden name then names else names ++ path ∷ [])
  walk name path (special o) names = going (if is_hidden name then names else names ++ path ∷ [])
  walk name path (folder es) names =
      let inside = walk_entries (some path) es names in
      if is_hidden name then going names else inside
  walk name path locked names = if is_hidden name then going names else failed
  walk name path gone names = if is_hidden name then going names else skipped names

  pub walk_entries : Option String → Entries → List String → Walk
  walk_entries parent end names = going names
  walk_entries parent (entry name node es) names =
      go_on (walk name (join_path parent name) node names) (walk_entries parent es)

-- The base directory is never hidden.
unfoldable pub walk_base : Base → Walk
walk_base missing = skipped []
walk_base broken = failed
walk_base unlisted = failed
walk_base vanished = skipped []
walk_base (there es) = walk_entries none es []

-- The order of strings by their bytes, which is that of the code points.
unfoldable pub string_leb : String → String → Bool
string_leb String.[] t = true
string_leb (String.◌∷◌ c s) String.[] = false
string_leb (String.◌∷◌ c s) (String.◌∷◌ d t) =
    let rest = string_leb s t in
    if ltb (code c) (code d) then true else if nat_eq (code c) (code d) then rest else false

insert_name : String → List String → List String
insert_name name [] = name ∷ []
insert_name name (n ∷ ns) =
    let rest = insert_name name ns in if string_leb name n then name ∷ n ∷ ns else n ∷ rest

-- `sort.Strings`
unfoldable pub sort_names : List String → List String
unfolding insert_name
sort_names [] = []
sort_names (n ∷ ns) = insert_name n (sort_names ns)

listed : Walk → Option (List String)
listed (going names) = some (sort_names names)
listed (skipped names) = some (sort_names names)
listed failed = none

-- none is an error.
unfoldable pub list_files : Base → Option (List String)
unfolding listed walk_base
list_files base = listed (walk_base base)

-- What Stat says of a node.
unfoldable pub stat_of : Node → Option Stat
stat_of file = some regular
stat_of (special o) = o
stat_of _ = some directory

-- The node at the elements of a path. No link is followed on the way.
unfoldable mutual
  pub node_at : List (List ℕ) → Node → Option Node
  node_at [] node = some node
  node_at (part ∷ parts) (folder es) = node_in part parts es
  node_at (part ∷ parts) _ = none

  node_in : List ℕ → List (List ℕ) → Entries → Option Node
  node_in part parts end = none
  node_in part parts (entry name node es) =
      let rest = node_in part parts es in
      let here = node_at parts node in if codes_eq (codes name) part then here else rest

-- root.Open and Stat of what is there.
stat_at : Option Node → Option Stat
unfolding stat_of
stat_at none = none
stat_at (some node) = stat_of node

root_of : Base → Root
root_of missing = absent
root_of broken = unreadable
root_of unlisted = opened
root_of vanished = absent
root_of (there es) = opened

find_below : Base → List (List ℕ) → Option Stat
unfolding stat_at
find_below (there es) parts = stat_at (node_at parts (folder es))
find_below _ parts = none

-- The disk with these base directories.
unfoldable pub disk_of : (Directory → Base) → Disk
unfolding root_of find_below
disk_of bases = record {
  root = λ d. root_of (bases d);
  file = λ d path. find_below (bases d) (split_path (codes path));
}
