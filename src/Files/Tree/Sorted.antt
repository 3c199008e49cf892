-- ===== src/Files/Tree/Sorted.antt =====
-- sort.Strings in files.List (internal/files/files.go).
use crypticquest_backend.Base.{
  All, String, ◌≡◌, refl, Bool, Bool-cases, inl, inr, true, false, ◌||◌, List, [], ◌∷◌, has, arith,
}
use crypticquest_backend.Files.Tree.{sort_names, insert_name, string_leb}

-- In the order of the bytes.
abbrev pub IsSorted : List String → Type 0
IsSorted [] = Unit
IsSorted (n ∷ []) = Unit
IsSorted (n ∷ m ∷ ns) = (string_leb n m ≡ true) × IsSorted (m ∷ ns)

string_leb-total : (s t : String) → string_leb s t ≡ false → string_leb t s ≡ true
unfolding string_leb
string_leb-total String.[] t h = absurd (cc h)
string_leb-total (String.◌∷◌ c s) String.[] h = refl
string_leb-total (String.◌∷◌ c s) (String.◌∷◌ d t) h = ground (arith, string_leb-total s t)

IsSorted-insert_name : (n : String) (ns : List String) → IsSorted ns → IsSorted (insert_name n ns)
unfolding insert_name
IsSorted-insert_name n [] h = tt
IsSorted-insert_name n (m ∷ []) h = elim (Bool-cases (string_leb n m)) [
  | inl e ↦ rw e (e, tt)
  | inr e ↦ rw e (string_leb-total n m e, tt)
]
IsSorted-insert_name n (m ∷ k ∷ ns) (q, h) =
    let inside = IsSorted-insert_name n (k ∷ ns) h in
    elim (Bool-cases (string_leb n m)) [
      | inl e ↦ rw e (e, (q, h))
      | inr e ↦ elim (Bool-cases (string_leb n k)) [
        | inl f ↦ rw (e, f) (string_leb-total n m e, (f, h))
        | inr f ↦ rw (e, f) (q, (rw f at inside))
      ]
    ]

pub IsSorted-sort_names : (ns : List String) → IsSorted (sort_names ns)
unfolding sort_names
IsSorted-sort_names [] = tt
IsSorted-sort_names (n ∷ ns) = IsSorted-insert_name n (sort_names ns) (IsSorted-sort_names ns)

has-insert_name :
    (p : String → Bool) (n : String) (ns : List String)
    → has p (insert_name n ns) ≡ (p n || has p ns)
unfolding insert_name
has-insert_name p n [] = refl
has-insert_name p n (m ∷ ns) = ground (arith, has-insert_name p n ns)

pub has-sort_names : (p : String → Bool) (ns : List String) → has p (sort_names ns) ≡ has p ns
unfolding sort_names
has-sort_names p [] = refl
has-sort_names p (n ∷ ns) = ground (arith, has-insert_name p n (sort_names ns), has-sort_names p ns)

All-insert_name :
    (P : String → Type 0) (n : String) (ns : List String)
    → P n
    → All P ns
    → All P (insert_name n ns)
unfolding insert_name
All-insert_name P n [] p h = (p, tt)
All-insert_name P n (m ∷ ns) p (q, h) = elim (Bool-cases (string_leb n m)) [
  | inl e ↦ rw e (p, (q, h))
  | inr e ↦ rw e (q, All-insert_name P n ns p h)
]

pub All-sort_names : (P : String → Type 0) (ns : List String) → All P ns → All P (sort_names ns)
unfolding sort_names
All-sort_names P [] h = tt
All-sort_names P (n ∷ ns) (p, h) = All-insert_name P n (sort_names ns) p (All-sort_names P ns h)
