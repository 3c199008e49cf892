-- ===== src/Base/Lookup.antt =====
-- Lookups of one row after the statements.
use mathlib.Core.Path.{◌≡◌, refl}
use mathlib.Core.Bool.{Bool, true, false}
use mathlib.Core.Option.{Option, none, some}
use mathlib.Core.List.{List, [], ◌∷◌, ◌++◌}
use mathlib.Core.Logic.{inl, inr}
use native.Mathlib.Omega.{arith}
use crypticquest_backend.Base.Tests.{Bool-cases, if◌then◌else◌}
use crypticquest_backend.Base.Uniqueness.{IsUnique, has_of_first_where}
use crypticquest_backend.Base.Rows.{has, rows_where, rows_without, update_where, first_where}

abbrev pub map_option {ℓ κ} : {A : Type ℓ} {B : Type κ} → (A → B) → Option A → Option B
map_option f none = none
map_option f (some a) = some (f a)

module _ {ℓ} {A : Type ℓ} where
  pub first_where-rows_without :
      (p : A → Bool) (xs : List A) → first_where p (rows_without p xs) ≡ none
  first_where-rows_without p [] = refl
  first_where-rows_without p (x ∷ xs) = ground (arith, first_where-rows_without p xs)

  pub first_where-append_one :
      (p : A → Bool) (xs : List A) (x : A)
      → has p xs ≡ false
      → p x ≡ true
      → first_where p (xs ++ x ∷ []) ≡ some x
  first_where-append_one p [] x n h = ground arith
  first_where-append_one p (y ∷ xs) x n h = ground (arith, first_where-append_one p xs x)

  -- The update keeps the tested column.
  pub first_where-update_where :
      (p q : A → Bool) (f : A → A) (xs : List A)
      → ((x : A) → p (f x) ≡ p x)
      → first_where p (update_where q f xs)
        ≡ map_option (λ x. if q x then f x else x) (first_where p xs)
  first_where-update_where p q f [] k = refl
  first_where-update_where p q f (x ∷ xs) k =
      ground (arith, k x, first_where-update_where p q f xs k)

  -- Deleting rows other than the one found.
  pub first_where-rows_where :
      (p q : A → Bool) (xs : List A) {x : A}
      → first_where p xs ≡ some x
      → q x ≡ true
      → first_where p (rows_where q xs) ≡ some x
  first_where-rows_where p q [] e h = absurd (cc)
  first_where-rows_where p q (y ∷ xs) {x} e h =
      ground (arith, first_where-rows_where p q xs {x = x})

  pub first_where-none_of_has :
      (p : A → Bool) (xs : List A) → has p xs ≡ false → first_where p xs ≡ none
  first_where-none_of_has p [] h = refl
  first_where-none_of_has p (x ∷ xs) h = ground (arith, first_where-none_of_has p xs)

-- A row found by one key is found by another of its own.
pub first_where_self {ℓ} :
    {A : Type ℓ} (p q : A → Bool) (xs : List A) (x : A)
    → first_where p xs ≡ some x
    → q x ≡ true
    → IsUnique q xs
    → first_where q xs ≡ some x
first_where_self p q [] x e h u = absurd (cc)
first_where_self p q (y ∷ xs) x e h (u, us) = elim (Bool-cases (p y)) [
  | inl t ↦ ground arith
  | inr f ↦
      let later : first_where p xs ≡ some x = ground arith in
      let found = first_where_self p q xs x later h us in
      ground (arith, u, has_of_first_where q xs {x = x} found)
]
