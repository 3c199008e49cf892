-- ===== src/Base/Keys.antt =====
-- What holds of every row of a table, of some row and of the first, after the statements.
use mathlib.Core.Path.{◌≡◌, refl, subst}
use mathlib.Core.Bool.{Bool, true, false, ◌||◌}
use mathlib.Core.Option.{some}
use mathlib.Core.List.{List, [], ◌∷◌, ◌++◌}
use mathlib.Core.Logic.{inl, inr}
use native.Mathlib.Omega.{arith}
use crypticquest_backend.Base.Tests.{Bool-cases}
use crypticquest_backend.Base.Int.{int_key}
use crypticquest_backend.Base.Rows.{
  has, rows_where, rows_without, update_where, first_where, count_where,
}

module _ {ℓ κ} {A : Type ℓ} where
  abbrev pub All : (A → Type κ) → List A → Type κ
  All P [] = Unit
  All P (x ∷ xs) = P x × All P xs

  pub All-append_one :
      (P : A → Type κ) (xs : List A) {x : A} → All P xs → P x → All P (xs ++ x ∷ [])
  All-append_one P [] h p = (p, tt)
  All-append_one P (y ∷ xs) (q, h) p = (q, All-append_one P xs h p)

  pub All-rows_where :
      (P : A → Type κ) (p : A → Bool) (xs : List A) → All P xs → All P (rows_where p xs)
  All-rows_where P p [] h = tt
  All-rows_where P p (x ∷ xs) (q, h) = elim (Bool-cases (p x)) [
    | inl e ↦ rw e (q, All-rows_where P p xs h)
    | inr e ↦ rw e (All-rows_where P p xs h)
  ]

  pub All-first_where :
      (P : A → Type κ) (p : A → Bool) (xs : List A) {x : A}
      → All P xs
      → first_where p xs ≡ some x
      → P x
  All-first_where P p [] h e = absurd (cc)
  All-first_where P p (y ∷ xs) {x} (q, h) e = elim (Bool-cases (p y)) [
    | inl t ↦ let same : y ≡ x = ground arith in subst P same q
    | inr t ↦ All-first_where P p xs h (ground arith)
  ]

module _ {ℓ κ μ} {A : Type ℓ} where
  pub All-mono :
      (P : A → Type κ) (Q : A → Type μ) (xs : List A) → ((x : A) → P x → Q x) → All P xs → All Q xs
  All-mono P Q [] k h = tt
  All-mono P Q (x ∷ xs) k (p, h) = (k x p, All-mono P Q xs k h)

  pub All-update_where :
      (P : A → Type κ) (Q : A → Type μ) (p : A → Bool) (f : A → A) (xs : List A)
      → ((x : A) → p x ≡ false → P x → Q x)
      → ((x : A) → p x ≡ true → P x → Q (f x))
      → All P xs
      → All Q (update_where p f xs)
  All-update_where P Q p f [] k l h = tt
  All-update_where P Q p f (x ∷ xs) k l (q, h) = elim (Bool-cases (p x)) [
    | inl e ↦ rw e (l x e q, All-update_where P Q p f xs k l h)
    | inr e ↦ rw e (k x e q, All-update_where P Q p f xs k l h)
  ]

  -- The rows that stay pass the test.
  pub All-rows_where_with :
      (P : A → Type κ) (Q : A → Type μ) (p : A → Bool) (xs : List A)
      → ((x : A) → p x ≡ true → P x → Q x)
      → All P xs
      → All Q (rows_where p xs)
  All-rows_where_with P Q p [] k h = tt
  All-rows_where_with P Q p (x ∷ xs) k (q, h) = elim (Bool-cases (p x)) [
    | inl e ↦ rw e (k x e q, All-rows_where_with P Q p xs k h)
    | inr e ↦ rw e (All-rows_where_with P Q p xs k h)
  ]

module _ {ℓ} {A : Type ℓ} where
  pub has-append_one :
      (p : A → Bool) (xs : List A) (x : A) → has p (xs ++ x ∷ []) ≡ (has p xs || p x)
  has-append_one p [] x = ground arith
  has-append_one p (y ∷ xs) x = ground (arith, has-append_one p xs x)

  pub has-rows_where :
      (p q : A → Bool) (xs : List A) → has p xs ≡ false → has p (rows_where q xs) ≡ false
  has-rows_where p q [] h = refl
  has-rows_where p q (x ∷ xs) h = ground (arith, has-rows_where p q xs)

  -- Deleting rows that `p` does not meet.
  pub has-rows_where_eq :
      (p q : A → Bool) (xs : List A)
      → ((x : A) → p x ≡ true → q x ≡ true)
      → has p (rows_where q xs) ≡ has p xs
  has-rows_where_eq p q [] k = refl
  has-rows_where_eq p q (x ∷ xs) k = ground (arith, k x, has-rows_where_eq p q xs k)

  pub has-update_where :
      (p q : A → Bool) (f : A → A) (xs : List A)
      → ((x : A) → p (f x) ≡ p x)
      → has p (update_where q f xs) ≡ has p xs
  has-update_where p q f [] k = refl
  has-update_where p q f (x ∷ xs) k = ground (arith, k x, has-update_where p q f xs k)

  pub has-All : (p : A → Bool) (xs : List A) → All (λ x. p x ≡ false) xs → has p xs ≡ false
  has-All p [] h = refl
  has-All p (x ∷ xs) h = ground (arith, has-All p xs h.1)

  pub All-has : (p : A → Bool) (xs : List A) → has p xs ≡ false → All (λ x. p x ≡ false) xs
  All-has p [] h = tt
  All-has p (x ∷ xs) h = (ground arith, All-has p xs (ground arith))

  pub has-count_where : (p : A → Bool) (xs : List A) → count_where p xs ≡ 0 → has p xs ≡ false
  has-count_where p [] h = refl
  has-count_where p (x ∷ xs) h = ground (arith, has-count_where p xs)

  pub update_where_none :
      (p : A → Bool) (f : A → A) (xs : List A) → has p xs ≡ false → update_where p f xs ≡ xs
  update_where_none p f [] h = refl
  update_where_none p f (x ∷ xs) h = ground (arith, update_where_none p f xs)

  pub rows_without_none : (p : A → Bool) (xs : List A) → has p xs ≡ false → rows_without p xs ≡ xs
  rows_without_none p [] h = refl
  rows_without_none p (x ∷ xs) h = ground (arith, rows_without_none p xs)
