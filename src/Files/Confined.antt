-- ===== src/Files/Confined.antt =====
-- The confinement of files.Open (internal/files/files.go) to its base directory.
use crypticquest_backend.Base.{
  ℕ, zero, suc, ◌≡◌, refl, sym, ◌∙◌, String, Bool, true, false, not, ◌&&◌, ◌||◌, Option, none, some,
  List, [], ◌∷◌, nat_eq, all, if◌then◌else◌, string_key, inl, inr, ◌⊎◌, Bool-cases, arith,
}
use crypticquest_backend.Engine.{err}
use crypticquest_backend.Text.{codes, codes_eq}
use crypticquest_backend.Files.{
  Directory, Disk, not_found, valid_path, is_element, split_path, open_path,
}

-- How deep below a directory an operating system stands after one more element; none is above it.
abbrev up : ℕ → Option ℕ
up zero = none
up (suc depth) = some depth

abbrev enter : Option ℕ → List ℕ → Option ℕ
enter none part = none
enter (some depth) part =
    if codes_eq part [] || codes_eq part (codes ".")
    then some depth
    else if codes_eq part (codes "..")
    then up depth
    else some (suc depth)

abbrev follow : Option ℕ → List (List ℕ) → Option ℕ
follow place [] = place
follow place (part ∷ parts) = follow (enter place part) parts

abbrev is_below : Option ℕ → Bool
is_below none = false
is_below (some depth) = true

abbrev is_absolute : List ℕ → Bool
is_absolute [] = false
is_absolute (c ∷ cs) = nat_eq c b'/'

-- A relative path that never climbs above the directory where it starts.
abbrev pub stays_below : String → Bool
stays_below path =
    not (is_absolute (codes path)) && is_below (follow (some 0) (split_path (codes path)))

enter_name :
    (depth : ℕ) (part : List ℕ)
    → is_element part ≡ true
    → enter (some depth) part ≡ some (suc depth)
unfolding is_element
enter_name depth part h = ground arith

follow_names :
    (depth : ℕ) (parts : List (List ℕ))
    → all is_element parts ≡ true
    → is_below (follow (some depth) parts) ≡ true
follow_names depth [] h = refl
follow_names depth (part ∷ parts) h =
    rw (enter_name depth part (ground arith)) (follow_names (suc depth) parts (ground arith))

not_absolute : (cs : List ℕ) → all is_element (split_path cs) ≡ true → is_absolute cs ≡ false
unfolding split_path is_element codes_eq
not_absolute [] h = refl
not_absolute (c ∷ cs) h = ground arith

stays_of_elements :
    (path : String) → all is_element (split_path (codes path)) ≡ true → stays_below path ≡ true
stays_of_elements path h =
    rw (not_absolute (codes path) h, follow_names 0 (split_path (codes path)) h) refl

refused :
    (disk : Disk) (base : Directory) (path : String)
    → stays_below path ≡ false
    → open_path disk base path ≡ err not_found
unfolding open_path valid_path
refused disk base path out = elim (Bool-cases (all is_element (split_path (codes path)))) [
  | inl h ↦ absurd (cc (sym (stays_of_elements path h) ∙ out))
  | inr h ↦ ground arith
]

-- Open is confined to its base directory, whatever path a client sends and whatever is on the disk: a
-- path that is absolute or climbs above the base on its way gets "not found", and no answer depends on
-- what stands at such paths, so that two disks that agree below the base get the same answers.
pub open_path_confined :
    (disk disk' : Disk) (base : Directory) (path : String)
    → disk.root base ≡ disk'.root base
    → ((p : String) → stays_below p ≡ true → disk.file base p ≡ disk'.file base p)
    → (open_path disk base path ≡ open_path disk' base path)
      × ((stays_below path ≡ true) ⊎ (open_path disk base path ≡ err not_found))
open_path_confined disk disk' base path root same = elim (Bool-cases (stays_below path)) [
  | inr out ↦ rw (refused disk base path out, refused disk' base path out) (refl, inr refl)
  | inl below ↦ (unfold open_path in rw (root, same path below) refl, inl below)
]
