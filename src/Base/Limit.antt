-- ===== src/Base/Limit.antt =====
-- ORDER BY and LIMIT keep what holds of every row, and distinct keys.
use Prim.Native.Nat.{ℕ, zero, suc}
use mathlib.Core.Path.{◌≡◌, refl, ◌∙◌}
use mathlib.Core.Bool.{Bool, false}
use mathlib.Core.List.{List, [], ◌∷◌}
use mathlib.Core.Logic.{inl, inr}
use native.Mathlib.Omega.{arith}
use crypticquest_backend.Base.Tests.{Bool-cases, ◌==◌}
use crypticquest_backend.Base.Int.{ℤ, int_leb, int_key}
use crypticquest_backend.Base.Rows.{take, has, insert_by, order_by}
use crypticquest_backend.Base.Keys.{All}
use crypticquest_backend.Base.Uniqueness.{Distinct, same_symm}
use crypticquest_backend.Base.Order.{has-insert_by, has-order_by}

module _ {ℓ κ} {A : Type ℓ} (key : A → ℤ) (P : A → Type κ) where
  pub All-insert_by : (x : A) (ys : List A) → P x → All P ys → All P (insert_by key x ys)
  All-insert_by x [] p h = (p, tt)
  All-insert_by x (y ∷ ys) p (q, h) = elim (Bool-cases (int_leb (key x) (key y))) [
    | inl t ↦ rw t (p, (q, h))
    | inr t ↦ rw t (q, All-insert_by x ys p h)
  ]

  pub All-order_by : (xs : List A) → All P xs → All P (order_by key xs)
  All-order_by [] h = tt
  All-order_by (x ∷ xs) (p, h) = All-insert_by x (order_by key xs) p (All-order_by xs h)

module _ {ℓ κ} {A : Type ℓ} (P : A → Type κ) where
  pub All-take : (n : ℕ) (xs : List A) → All P xs → All P (take n xs)
  All-take zero xs h = tt
  All-take (suc n) [] h = tt
  All-take (suc n) (x ∷ xs) (p, h) = (p, All-take n xs h)

module _ {ℓ} {A : Type ℓ} (key : A → ℤ) where
  has-take_none :
      (p : A → Bool) (n : ℕ) (xs : List A) → has p xs ≡ false → has p (take n xs) ≡ false
  has-take_none p zero xs h = refl
  has-take_none p (suc n) [] h = refl
  has-take_none p (suc n) (x ∷ xs) h = ground (arith, has-take_none p n xs)

  pub Distinct-take : (n : ℕ) (xs : List A) → Distinct key xs → Distinct key (take n xs)
  Distinct-take zero xs h = tt
  Distinct-take (suc n) [] h = tt
  Distinct-take (suc n) (x ∷ xs) (q, h) = (has-take_none _ n xs q, Distinct-take n xs h)

  Distinct-insert_by :
      (order : A → ℤ) (x : A) (ys : List A)
      → has (λ y. key y == key x) ys ≡ false
      → Distinct key ys
      → Distinct key (insert_by order x ys)
  Distinct-insert_by order x [] q h = (q, h)
  Distinct-insert_by order x (y ∷ ys) q (r, h) = elim (Bool-cases (int_leb (order x) (order y))) [
    | inl t ↦ rw t (q, (r, h))
    | inr t ↦ rw t (
      has-insert_by order (λ z. key z == key y) x ys ∙ ground (arith, same_symm (key x) (key y)),
      Distinct-insert_by order x ys (ground arith) h,
    )
  ]

  pub Distinct-order_by :
      (order : A → ℤ) (xs : List A) → Distinct key xs → Distinct key (order_by order xs)
  Distinct-order_by order [] h = tt
  Distinct-order_by order (x ∷ xs) (q, h) =
      Distinct-insert_by order x (order_by order xs) (has-order_by order _ xs ∙ q)
        (Distinct-order_by order xs h)
