-- ===== src/Files.antt =====
-- internal/files/files.go: Open, over a disk that is given.
pub mod Confined
pub mod Tree
use crypticquest_backend.Base.{
  ℕ, String, ℤ, Bool, true, false, not, ◌&&◌, ◌||◌, Option, none, some, List, [], ◌∷◌, nat_eq, all,
  if◌then◌else◌, ◌==◌, string_key,
}
use crypticquest_backend.Engine.{Result, ok, err}
use crypticquest_backend.Text.{codes, codes_eq}

-- The base directories that the handlers join from FILES_DIR: levels/{id} and tools.
pub data Directory : Type 0 where
  level_files : ℤ → Directory
  tool_files : Directory

-- os.OpenRoot of a base directory.
pub data Root : Type 0 where
  opened absent unreadable : Root

-- What Stat says of a file that root.Open has opened. A `device` is all that is neither a regular file
-- nor a directory.
pub data Stat : Type 0 where
  regular device directory stat_failed : Stat

-- `file` is none where root.Open fails: a missing file, or a symlink that leaves the root.
pub record Disk : Type 0 where
  pub root : Directory → Root
  pub file : Directory → String → Option Stat

pub data OpenError : Type 0 where
  not_found io_error : OpenError

-- The parts of a path between its slashes.
abbrev start_part : ℕ → List (List ℕ) → List (List ℕ)
start_part c [] = (c ∷ []) ∷ []
start_part c (part ∷ parts) = (c ∷ part) ∷ parts

unfoldable pub split_path : List ℕ → List (List ℕ)
split_path [] = [] ∷ []
split_path (c ∷ cs) =
    let rest = split_path cs in if nat_eq c b'/' then [] ∷ rest else start_part c rest

unfoldable pub is_element : List ℕ → Bool
is_element part = not (codes_eq part [] || codes_eq part (codes ".") || codes_eq part (codes ".."))

-- fs.ValidPath: "." aside, no element is empty, "." or "..". The paths here are valid UTF-8; of a URL
-- that decodes to another path, which fs.ValidPath refuses too, nothing is said.
unfoldable pub valid_path : String → Bool
unfolding split_path is_element
valid_path path = (path == ".") || all is_element (split_path (codes path))

stat_result : Stat → Result OpenError (Unit {0})
stat_result regular = ok tt
stat_result device = ok tt
stat_result directory = err not_found
stat_result stat_failed = err io_error

open_file : Option Stat → Result OpenError (Unit {0})
unfolding stat_result
open_file none = err not_found
open_file (some stat) = stat_result stat

open_root : Root → Option Stat → Result OpenError (Unit {0})
unfolding open_file
open_root opened file = open_file file
open_root absent file = err not_found
open_root unreadable file = err io_error

unfoldable pub open_path : Disk → Directory → String → Result OpenError (Unit {0})
unfolding open_root open_file stat_result valid_path
open_path disk base path =
    if not (valid_path path) || (path == ".")
    then err not_found
    else open_root (disk.root base) (disk.file base path)
