-- ===== src/Base/Order.antt =====
-- ORDER BY: the same rows, in the order of their keys; and a LIMIT of them.
use Prim.Native.Nat.{ℕ, zero, suc}
use mathlib.Core.Path.{◌≡◌, refl, ap, ◌∙◌, subst}
use mathlib.Core.Bool.{Bool, true, false, ◌||◌}
use mathlib.Core.Option.{some}
use mathlib.Core.List.{List, [], ◌∷◌}
use mathlib.Core.Logic.{inl, inr}
use native.Mathlib.Omega.{arith}
use crypticquest_backend.Base.Tests.{leb, Bool-cases, if◌then◌else◌, ◌==◌}
use crypticquest_backend.Base.Int.{
  ℤ, int_leb, int_leb_total, int_leb_trans, int_leb_antisym, int_leb_refl, int_eq_iff, int_key,
}
use crypticquest_backend.Base.Rows.{take, has, count_where, first_where, insert_by, order_by}
use crypticquest_backend.Base.Keys.{All, All-mono, All-first_where}
use crypticquest_backend.Base.Uniqueness.{IsUnique, Distinct}

module _ {ℓ} {A : Type ℓ} (key : A → ℤ) where
  pub has-insert_by :
      (p : A → Bool) (x : A) (ys : List A) → has p (insert_by key x ys) ≡ (p x || has p ys)
  has-insert_by p x [] = refl
  has-insert_by p x (y ∷ ys) = ground (arith, has-insert_by p x ys)

  pub has-order_by : (p : A → Bool) (xs : List A) → has p (order_by key xs) ≡ has p xs
  has-order_by p [] = refl
  has-order_by p (x ∷ xs) = ground (arith, has-insert_by p x (order_by key xs), has-order_by p xs)

  pub count_where-insert_by :
      (p : A → Bool) (x : A) (ys : List A)
      → count_where p (insert_by key x ys) ≡ count_where p (x ∷ ys)
  count_where-insert_by p x [] = refl
  count_where-insert_by p x (y ∷ ys) = ground (arith, count_where-insert_by p x ys)

  pub count_where-order_by :
      (p : A → Bool) (xs : List A) → count_where p (order_by key xs) ≡ count_where p xs
  count_where-order_by p [] = refl
  count_where-order_by p (x ∷ xs) =
      ground (arith, count_where-insert_by p x (order_by key xs), count_where-order_by p xs)

  -- Each key is below the keys that follow.
  abbrev pub IsIncreasing : List A → Type 0
  IsIncreasing [] = Unit
  IsIncreasing (x ∷ xs) = All (λ y. int_leb (key y) (key x) ≡ false) xs × IsIncreasing xs

  below_rest :
      (x y : A) (ys : List A)
      → int_leb (key y) (key x) ≡ false
      → All (λ z. int_leb (key z) (key y) ≡ false) ys
      → All (λ z. int_leb (key z) (key x) ≡ false) ys
  below_rest x y ys h k =
      All-mono _ _ ys
        (λ z q. elim (Bool-cases (int_leb (key z) (key x))) [
          | inr r ↦ r
          | inl r ↦
              ground
                (arith, int_leb_total (key y) (key x) h, int_leb_trans (key z) (key x) (key y) r)
        ])
        k

  above_insert_by :
      (x y : A) (ys : List A)
      → int_leb (key x) (key y) ≡ false
      → All (λ z. int_leb (key z) (key y) ≡ false) ys
      → All (λ z. int_leb (key z) (key y) ≡ false) (insert_by key x ys)
  above_insert_by x y [] h k = (h, tt)
  above_insert_by x y (z ∷ zs) h (q, k) = elim (Bool-cases (int_leb (key x) (key z))) [
    | inl t ↦ rw t (h, (q, k))
    | inr t ↦ rw t (q, above_insert_by x y zs h k)
  ]

  IsIncreasing-insert_by :
      (x : A) (ys : List A)
      → has (λ y. key y == key x) ys ≡ false
      → IsIncreasing ys
      → IsIncreasing (insert_by key x ys)
  IsIncreasing-insert_by x [] n h = (tt, tt)
  IsIncreasing-insert_by x (y ∷ ys) n (q, h) = elim (Bool-cases (int_leb (key x) (key y))) [
    | inl t ↦
        let above : int_leb (key y) (key x) ≡ false =
          ground (arith, int_leb_antisym (key y) (key x), int_eq_iff (key y) (key x)) in
        rw t ((above, below_rest x y ys above q), (q, h))
    | inr t ↦ rw t (above_insert_by x y ys t q, IsIncreasing-insert_by x ys (ground arith) h)
  ]

  pub IsIncreasing-order_by : (xs : List A) → Distinct key xs → IsIncreasing (order_by key xs)
  IsIncreasing-order_by [] h = tt
  IsIncreasing-order_by (x ∷ xs) (q, h) =
      IsIncreasing-insert_by x (order_by key xs) (has-order_by _ xs ∙ q)
        (IsIncreasing-order_by xs h)

  -- With at most one row that passes, the order does not matter to a lookup.
  first_where-insert_by :
      (p : A → Bool) (x : A) (ys : List A)
      → (p x ≡ true → has p ys ≡ false)
      → first_where p (insert_by key x ys) ≡ first_where p (x ∷ ys)
  first_where-insert_by p x [] u = refl
  first_where-insert_by p x (y ∷ ys) u = ground (arith, first_where-insert_by p x ys)

  pub first_where-order_by :
      (p : A → Bool) (xs : List A)
      → IsUnique p xs
      → first_where p (order_by key xs) ≡ first_where p xs
  first_where-order_by p [] u = refl
  first_where-order_by p (x ∷ xs) (u, us) =
      first_where-insert_by p x (order_by key xs) (λ t. has-order_by p xs ∙ u t)
      ∙ ap (λ rest. if p x then some x else rest) (first_where-order_by p xs us)

  count_above :
      (k : ℤ) (xs : List A)
      → All (λ y. int_leb (key y) k ≡ false) xs
      → count_where (λ y. int_leb (key y) k) xs ≡ 0
  count_above k [] h = refl
  count_above k (x ∷ xs) (q, h) = ground (arith, count_above k xs h)

  abbrev position : A → List A → ℕ
  position l xs = count_where (λ y. int_leb (key y) (key l)) xs

  has-take_head :
      (p : A → Bool) (c : ℕ) (x : A) (xs : List A)
      → All (λ y. int_leb (key y) (key x) ≡ false) xs
      → p x ≡ true
      → has p (take c (x ∷ xs)) ≡ leb (position x (x ∷ xs)) c
  has-take_head p zero x xs above t =
      ground (arith, int_leb_refl (key x), count_above (key x) xs above)
  has-take_head p (suc c) x xs above t =
      ground (arith, int_leb_refl (key x), count_above (key x) xs above)

  has-take_tail :
      (p : A → Bool) (c : ℕ) (x l : A) (xs : List A)
      → int_leb (key l) (key x) ≡ false
      → p x ≡ false
      → ((c' : ℕ) → has p (take c' xs) ≡ leb (position l xs) c')
      → has p (take c (x ∷ xs)) ≡ leb (position l (x ∷ xs)) c
  has-take_tail p zero x l xs above f ih = ground (arith, int_leb_total (key l) (key x) above)
  has-take_tail p (suc c) x l xs above f ih =
      ground (arith, int_leb_total (key l) (key x) above, ih c)

  -- The row that passes is among the first `c` exactly when at most `c` keys are at most its own.
  pub has-take :
      (p : A → Bool) (xs : List A) (l : A)
      → IsIncreasing xs
      → IsUnique p xs
      → first_where p xs ≡ some l
      → (c : ℕ) → has p (take c xs) ≡ leb (count_where (λ y. int_leb (key y) (key l)) xs) c
  has-take p [] l inc u e c = absurd (cc)
  has-take p (x ∷ xs) l (above, inc) (u, us) e c = elim (Bool-cases (p x)) [
    | inl t ↦
        let same : x ≡ l = ground arith in
        subst (λ z. has p (take c (x ∷ xs)) ≡ leb (position z (x ∷ xs)) c) same
          (has-take_head p c x xs above t)
    | inr f ↦
        let later : first_where p xs ≡ some l = ground arith in
        has-take_tail p c x l xs (All-first_where _ p xs above later) f
          (has-take p xs l inc us later)
  ]

  IsUnique-has :
      (p : A → Bool) (x : A) (ys : List A)
      → (p x ≡ true → has p ys ≡ false)
      → IsUnique p ys
      → IsUnique p (insert_by key x ys)
  IsUnique-has p x [] u us = (u, us)
  IsUnique-has p x (y ∷ ys) u (v, vs) = elim (Bool-cases (int_leb (key x) (key y))) [
    | inl t ↦ rw t (u, (v, vs))
    | inr t ↦ rw t (
      (λ py. has-insert_by p x ys ∙ ground (arith, v py)),
      IsUnique-has p x ys (λ px. ground arith) vs,
    )
  ]

  pub IsUnique-order_by :
      (p : A → Bool) (xs : List A) → IsUnique p xs → IsUnique p (order_by key xs)
  IsUnique-order_by p [] u = tt
  IsUnique-order_by p (x ∷ xs) (u, us) =
      IsUnique-has p x (order_by key xs) (λ t. has-order_by p xs ∙ u t) (IsUnique-order_by p xs us)

  -- … whatever the order of the rows in the table.
  pub has-take-order_by :
      (p : A → Bool) (xs : List A) (l : A)
      → Distinct key xs
      → IsUnique p xs
      → first_where p xs ≡ some l
      → (c : ℕ)
      → has p (take c (order_by key xs)) ≡ leb (count_where (λ y. int_leb (key y) (key l)) xs) c
  has-take-order_by p xs l d u e c =
      has-take p (order_by key xs) l (IsIncreasing-order_by xs d) (IsUnique-order_by p xs u)
        (first_where-order_by p xs u ∙ e) c
      ∙ ap (λ n. leb n c) (count_where-order_by _ xs)
