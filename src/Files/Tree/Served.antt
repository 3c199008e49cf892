-- ===== src/Files/Tree/Served.antt =====
-- What files.List (internal/files/files.go) names, files.Open opens.
use crypticquest_backend.Base.{
  ap, ◌⊎◌, ℕ, String, ◌≡◌, refl, sym, ◌∙◌, subst, Bool, true, false, Option, none, some, List, [],
  ◌∷◌, ◌++◌, if◌then◌else◌, All, All-append_one, all, arith, string_key,
}
use mathlib.Core.List.{append_assoc, append-nil}
use crypticquest_backend.Engine.{Result, ok, err}
use crypticquest_backend.Text.{codes}
use crypticquest_backend.Files.{
  device, directory, stat_failed, Stat, OpenError, not_found, io_error, Directory, regular,
  split_path, is_element, open_path,
}
use crypticquest_backend.Files.Tree.Sorted.{All-sort_names}
use crypticquest_backend.Files.Tree.Found.{
  is_listed, IsTree, AreEntries, parts_of, parts-join, ForEntries, entries_found,
}
use crypticquest_backend.Files.Tree.{
  Node, file, special, folder, locked, gone, Entries, end, entry, Base, there, Walk, going, skipped,
  failed, is_hidden, join_path, go_on, walk, walk_entries, walk_base, sort_names, listed,
  list_files, node_at, node_in, disk_of,
}

all-append :
    (p : List ℕ → Bool) (xs : List (List ℕ)) (x : List ℕ)
    → all p xs ≡ true
    → p x ≡ true
    → all p (xs ++ x ∷ []) ≡ true
all-append p [] x h k = rw k refl
all-append p (y ∷ xs) x h k = ground (arith, all-append p xs x)

module _ (root : Entries) where
  -- The path leads to a file of some kind, by elements that are names.
  abbrev pub Opens : String → Type 0
  Opens path =
      (all is_element (split_path (codes path)) ≡ true)
      × (is_listed (node_at (split_path (codes path)) (folder root)) ≡ true)

  -- All that a walk has found.
  abbrev AllFound : Walk → Type 0
  AllFound (going names) = All Opens names
  AllFound (skipped names) = All Opens names
  AllFound failed = Unit

  -- The node stands at these elements.
  abbrev IsAt : List (List ℕ) → Node → Type 0
  IsAt parts node =
      (rest : List (List ℕ)) → node_at (parts ++ rest) (folder root) ≡ node_at rest node

  abbrev AreAt : List (List ℕ) → Entries → Type 0
  AreAt parts = ForEntries (λ name node. IsAt (parts ++ codes name ∷ []) node)

  add :
      (b : Bool) (names : List String) (path : String)
      → All Opens names
      → Opens path
      → All Opens (if b then names else names ++ path ∷ [])
  add true names path h p = h
  add false names path h p = All-append_one Opens names h p

  keep :
      (b : Bool) (names : List String) (w : Walk)
      → All Opens names
      → AllFound w
      → AllFound (if b then going names else w)
  keep true names w h k = h
  keep false names w h k = k

  found_here :
      (path : String) (node : Node)
      → all is_element (split_path (codes path)) ≡ true
      → IsAt (split_path (codes path)) node
      → is_listed (some node) ≡ true
      → Opens path
  unfolding node_at
  found_here path node h at r =
      (h, rw (← append-nil (split_path (codes path))) (ap is_listed (at []) ∙ r))

  below :
      (parts : List (List ℕ)) (es fs : Entries)
      → IsAt parts (folder fs)
      → ForEntries
          (λ name node. (rest : List (List ℕ)) → node_in (codes name) rest fs ≡ node_at rest node)
          es
      → AreAt parts es
  unfolding node_at
  below parts end fs at h = tt
  below parts (entry name node es) fs at (p, h) = (
    (λ rest. rw (append_assoc parts (codes name ∷ []) rest) (at (codes name ∷ rest) ∙ p rest)),
    below parts es fs at h,
  )

  go_on-AllFound :
      (w : Walk) (next : List String → Walk)
      → AllFound w
      → ((names : List String) → All Opens names → AllFound (next names))
      → AllFound (go_on w next)
  unfolding go_on
  go_on-AllFound (going names) next h k = k names h
  go_on-AllFound (skipped names) next h k = h
  go_on-AllFound failed next h k = tt

  mutual
    unfolding walk node_at

    walk-AllFound :
        (name path : String) (node : Node) (names : List String)
        → IsTree node
        → all is_element (split_path (codes path)) ≡ true
        → IsAt (split_path (codes path)) node
        → All Opens names
        → AllFound (walk name path node names)
    walk-AllFound name path file names t h at k =
        add (is_hidden name) names path k (found_here path file h at refl)
    walk-AllFound name path (special o) names t h at k =
        add (is_hidden name) names path k (found_here path (special o) h at refl)
    walk-AllFound name path (folder es) names t h at k = keep (is_hidden name) names _ k (
        walk_entries-AllFound (some path) es names t h
          (below (split_path (codes path)) es es at (entries_found es t)) k)
    walk-AllFound name path locked names t h at k = keep (is_hidden name) names failed k tt
    walk-AllFound name path gone names t h at k = keep (is_hidden name) names (skipped names) k k

    walk_entries-AllFound :
        (parent : Option String) (es : Entries) (names : List String)
        → AreEntries es
        → all is_element (parts_of parent) ≡ true
        → AreAt (parts_of parent) es
        → All Opens names
        → AllFound (walk_entries parent es names)
    walk_entries-AllFound parent end names t h at k = k
    walk_entries-AllFound parent (entry name node es) names (n, new, t, ts) h (a, at) k =
        let path = join_path parent name in
        let parts = parts-join parent name n in
        go_on-AllFound _ _
          (walk-AllFound name path node names t
            (rw parts (all-append is_element (parts_of parent) (codes name) h n.1))
            (subst (λ ps. IsAt ps node) (sym parts) a) k)
          (λ ns k'. walk_entries-AllFound parent es ns ts h at k')

listed_found :
    (es : Entries) (w : Walk) (names : List String)
    → AllFound es w
    → listed w ≡ some names
    → All (Opens es) names
unfolding listed
listed_found es (going ns) names h e =
    let same : sort_names ns ≡ names = cc in
    subst (All (Opens es)) same (All-sort_names (Opens es) ns h)
listed_found es (skipped ns) names h e =
    let same : sort_names ns ≡ names = cc in
    subst (All (Opens es)) same (All-sort_names (Opens es) ns h)
listed_found es failed names h e = absurd (cc)

-- What Open answers for a special file, by what root.Open and Stat make of it.
abbrev pub special_answer : Option Stat → Result OpenError (Unit {0})
special_answer (some regular) = ok tt
special_answer (some device) = ok tt
special_answer (some directory) = err not_found
special_answer (some stat_failed) = err io_error
special_answer none = err not_found

module _ (bases : Directory → Base) (base : Directory) (es : Entries) where
  -- A regular file that opens, or a special file with its own answer.
  abbrev pub IsServed : String → Type 0
  IsServed path =
      let node = node_at (split_path (codes path)) (folder es) in
      let answer = open_path (disk_of bases) base path in
      ((node ≡ some file) × (answer ≡ ok tt))
      ⊎ ((o : Option Stat) × (node ≡ some (special o)) × (answer ≡ special_answer o))

-- What List gives is found.
pub list_files-Opens :
    (es : Entries) (names : List String)
    → AreEntries es
    → list_files (there es) ≡ some names
    → All (Opens es) names
unfolding list_files walk_base
list_files-Opens es names t = listed_found es (walk_entries none es []) names (
    walk_entries-AllFound es none es [] t refl
      (below es [] es es (λ rest. refl) (entries_found es t)) tt)
