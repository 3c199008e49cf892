-- ===== src/Base/Maps.antt =====
-- The statements on the rows of a view, a function of each row.
use Prim.Native.Nat.{ℕ, zero, suc, ◌+◌}
use mathlib.Core.Path.{◌≡◌, refl, ap, ◌∙◌}
use mathlib.Core.Bool.{Bool}
use mathlib.Core.List.{List, [], ◌∷◌, map}
use mathlib.Core.Logic.{inl, inr}
use native.Mathlib.Omega.{arith}
use crypticquest_backend.Base.Tests.{Bool-cases, if◌then◌else◌}
use crypticquest_backend.Base.Int.{ℤ, int_leb}
use crypticquest_backend.Base.Rows.{take, count_where, first_where, insert_by, order_by}
use crypticquest_backend.Base.Lookup.{map_option}

module _ {ℓ κ} {A : Type ℓ} {B : Type κ} (f : A → B) where
  pub map-take : (n : ℕ) (xs : List A) → take n (map f xs) ≡ map f (take n xs)
  map-take zero xs = refl
  map-take (suc n) [] = refl
  map-take (suc n) (x ∷ xs) = ap (f x ∷◌) (map-take n xs)

  map-insert_by :
      (key : B → ℤ) (x : A) (xs : List A)
      → insert_by key (f x) (map f xs) ≡ map f (insert_by (λ a. key (f a)) x xs)
  map-insert_by key x [] = refl
  map-insert_by key x (y ∷ ys) = elim (Bool-cases (int_leb (key (f x)) (key (f y)))) [
    | inl t ↦ rw t
    | inr t ↦ rw t (ap (f y ∷◌) (map-insert_by key x ys))
  ]

  pub map-order_by :
      (key : B → ℤ) (xs : List A) → order_by key (map f xs) ≡ map f (order_by (λ a. key (f a)) xs)
  map-order_by key [] = refl
  map-order_by key (x ∷ xs) =
      ap (insert_by key (f x)) (map-order_by key xs)
      ∙ map-insert_by key x (order_by (λ a. key (f a)) xs)

  pub map-first_where :
      (p : B → Bool) (xs : List A)
      → first_where p (map f xs) ≡ map_option f (first_where (λ a. p (f a)) xs)
  map-first_where p [] = refl
  map-first_where p (x ∷ xs) = ground (arith, map-first_where p xs)

  pub map-count_where :
      (p : B → Bool) (xs : List A) → count_where p (map f xs) ≡ count_where (λ a. p (f a)) xs
  map-count_where p [] = refl
  map-count_where p (x ∷ xs) = ap ((if p (f x) then 1 else 0) +◌) (map-count_where p xs)

  pub map-map {μ} :
      {C : Type μ} (g : B → C) (xs : List A) → map g (map f xs) ≡ map (λ a. g (f a)) xs
  map-map g [] = refl
  map-map g (x ∷ xs) = ap (g (f x) ∷◌) (map-map g xs)
