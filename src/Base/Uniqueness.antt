-- ===== src/Base/Uniqueness.antt =====
-- Distinct keys, and how the statements keep them.
use Prim.Native.Nat.{ℕ, suc, ◌≤◌}
use mathlib.Core.Path.{◌≡◌, refl, sym, ◌∙◌}
use mathlib.Core.Bool.{Bool, true, false, not, ◌&&◌, false≢true}
use mathlib.Core.Option.{some}
use mathlib.Core.List.{List, [], ◌∷◌, ◌++◌}
use mathlib.Core.Logic.{inl, inr}
use native.Mathlib.Omega.{arith}
use crypticquest_backend.Base.Tests.{Key, ◌==◌, same_refl, Bool-cases, if◌then◌else◌}
use crypticquest_backend.Base.Int.{ℤ, pos, negsuc, int_eq, int_key}
use crypticquest_backend.Base.Rows.{has, rows_where, update_where, first_where}
use crypticquest_backend.Base.Keys.{
  All, All-has, All-mono, has-append_one, has-rows_where, has-update_where, update_where_none,
}

has_other {ℓ} :
    {A : Type ℓ} (p q : A → Bool) (xs : List A)
    → has p xs ≡ false
    → has (λ y. not (p y) && q y) xs ≡ false
    → has q xs ≡ false
has_other p q [] h k = refl
has_other p q (x ∷ xs) h k = ground (arith, has_other p q xs)

-- At most one row passes the test.
abbrev pub IsUnique {ℓ} : {A : Type ℓ} → (A → Bool) → List A → Type 0
IsUnique p [] = Unit
IsUnique p (x ∷ xs) = (p x ≡ true → has p xs ≡ false) × IsUnique p xs

pub same_symm {ℓ} : {K : Type ℓ} ⦃e : Key K⦄ (a b : K) → (a == b) ≡ (b == a)
same_symm ⦃e⦄ a b = ground (arith, e.same_iff a b, e.same_iff b a)

module _ {ℓ κ} {A : Type ℓ} {K : Type κ} ⦃e : Key K⦄ where
  -- No two rows have one key.
  abbrev pub Distinct : (A → K) → List A → Type 0
  Distinct key [] = Unit
  Distinct key (x ∷ xs) = (has (λ y. key y == key x) xs ≡ false) × Distinct key xs

  pub Distinct-append_one :
      (key : A → K) (xs : List A) (x : A)
      → Distinct key xs
      → has (λ y. key y == key x) xs ≡ false
      → Distinct key (xs ++ x ∷ [])
  Distinct-append_one key [] x h k = (refl, tt)
  Distinct-append_one key (y ∷ xs) x (q, h) k = (
    ground (arith, has-append_one (λ z. key z == key y) xs x, same_symm (key x) (key y)),
    Distinct-append_one key xs x h (ground arith),
  )

  pub Distinct-rows_where :
      (key : A → K) (p : A → Bool) (xs : List A) → Distinct key xs → Distinct key (rows_where p xs)
  Distinct-rows_where key p [] h = tt
  Distinct-rows_where key p (x ∷ xs) (q, h) = elim (Bool-cases (p x)) [
    | inl t ↦ rw t (has-rows_where _ p xs q, Distinct-rows_where key p xs h)
    | inr t ↦ rw t (Distinct-rows_where key p xs h)
  ]

  key_kept :
      (key : A → K) (p : A → Bool) (f : A → A) (x : A)
      → key (f x) ≡ key x
      → key (if p x then f x else x) ≡ key x
  key_kept key p f x h = elim (Bool-cases (p x)) [ inl t ↦ rw t h | inr t ↦ rw t ]

  pub Distinct-update_where :
      (key : A → K) (p : A → Bool) (f : A → A) (xs : List A)
      → ((x : A) → key (f x) ≡ key x)
      → Distinct key xs
      → Distinct key (update_where p f xs)
  Distinct-update_where key p f [] k h = tt
  Distinct-update_where key p f (x ∷ xs) k (q, h) = (
    rw (key_kept key p f x (k x))
        (has-update_where (λ y. key y == key x) p f xs (λ y. rw (k y) refl) ∙ q),
    Distinct-update_where key p f xs k h,
  )

  -- One row, found by a key of its own, is given a key that no other row has.
  Distinct_with_new :
      (key : A → K) (p : A → Bool) (f : A → A) (new : K) (x : A) (xs : List A)
      → ((y : A) → key (f y) ≡ new)
      → (key x == new) ≡ false
      → has (λ y. key y == key x) xs ≡ false
      → has (λ y. key y == key x) (update_where p f xs) ≡ false
  Distinct_with_new key p f new x [] k n h = refl
  Distinct_with_new key p f new x (y ∷ xs) k n h =
      ground (arith, k y, same_symm (key x) new, Distinct_with_new key p f new x xs k n)

  pub Distinct-set_key :
      (key : A → K) (p : A → Bool) (f : A → A) (new : K) (xs : List A)
      → ((y : A) → key (f y) ≡ new)
      → has (λ y. not (p y) && (key y == new)) xs ≡ false
      → IsUnique p xs
      → Distinct key xs
      → Distinct key (update_where p f xs)
  Distinct-set_key key p f new [] k n u h = tt
  Distinct-set_key key p f new (x ∷ xs) k n u (q, h) = elim (Bool-cases (p x)) [
    | inl t ↦ rw t (
        rw (update_where_none p f xs (u.0 t))
          (rw (k x) (has_other p (λ y. key y == new) xs (u.0 t) (ground arith)), h))
    | inr t ↦ rw t (
      Distinct_with_new key p f new x xs k (ground arith) q,
      Distinct-set_key key p f new xs k (ground arith) u.1 h,
    )
  ]

  pub IsUnique-Distinct :
      (key : A → K) (k : K) (xs : List A) → Distinct key xs → IsUnique (λ x. key x == k) xs
  IsUnique-Distinct key k [] h = tt
  IsUnique-Distinct key k (x ∷ xs) (q, h) =
      (λ t. rw (← (e.same_iff (key x) k).0 t) q, IsUnique-Distinct key k xs h)

-- An id that AUTOINCREMENT has given out, while its counter stands at `seq`.
abbrev pub IsGiven : ℕ → ℤ → Type 0
IsGiven seq (pos n) = n ≤ seq
IsGiven seq (negsuc n) = Unit

pub IsGiven-suc : (seq : ℕ) (id : ℤ) → IsGiven seq id → IsGiven (suc seq) id
IsGiven-suc seq (pos n) h = omega arith
IsGiven-suc seq (negsuc n) h = tt

pub next_is_new : (seq : ℕ) (id : ℤ) → IsGiven seq id → (id == pos (suc seq)) ≡ false
unfolding int_eq
next_is_new seq (pos n) h = ground arith
next_is_new seq (negsuc n) h = refl

pub has_next {ℓ} :
    {A : Type ℓ} (key : A → ℤ) (seq : ℕ) (xs : List A)
    → All (λ x. IsGiven seq (key x)) xs
    → has (λ x. key x == pos (suc seq)) xs ≡ false
has_next key seq [] h = refl
has_next key seq (x ∷ xs) (g, h) = ground (arith, next_is_new seq (key x) g, has_next key seq xs h)

pub All-IsGiven-suc {ℓ} :
    {A : Type ℓ} (key : A → ℤ) (seq : ℕ) (xs : List A)
    → All (λ x. IsGiven seq (key x)) xs
    → All (λ x. IsGiven (suc seq) (key x)) xs
All-IsGiven-suc key seq xs =
    All-mono (λ x. IsGiven seq (key x)) (λ x. IsGiven (suc seq) (key x)) xs
      (λ x. IsGiven-suc seq (key x))

module _ {ℓ} {A : Type ℓ} where
  pub first_where_passes :
      (p : A → Bool) (xs : List A) {x : A} → first_where p xs ≡ some x → p x ≡ true
  first_where_passes p [] e = absurd (cc)
  first_where_passes p (y ∷ xs) {x} e = elim (Bool-cases (p y)) [
    | inl t ↦ let same : y ≡ x = ground arith in rw (← same) t
    | inr t ↦ first_where_passes p xs (ground arith)
  ]

  pub has_of_first_where :
      (p : A → Bool) (xs : List A) {x : A} → first_where p xs ≡ some x → has p xs ≡ true
  has_of_first_where p [] e = absurd (cc)
  has_of_first_where p (y ∷ xs) {x} e = elim (Bool-cases (p y)) [
    | inl t ↦ rw t
    | inr t ↦ rw t (has_of_first_where p xs {x = x} (ground arith))
  ]

  pub first_where_of_has :
      (p : A → Bool) (xs : List A) → has p xs ≡ true → (x : A) × (first_where p xs ≡ some x)
  first_where_of_has p [] h = absurd (cc)
  first_where_of_has p (y ∷ xs) h = elim (Bool-cases (p y)) [
    | inl t ↦ (y, rw t)
    | inr t ↦ let (x, e) = first_where_of_has p xs (ground arith) in (x, rw t e)
  ]

  -- A lookup that at most one row answers finds that row.
  pub All-same_as_first :
      (p : A → Bool) (xs : List A) (l : A)
      → IsUnique p xs
      → first_where p xs ≡ some l
      → All (λ m. p m ≡ true → m ≡ l) xs
  All-same_as_first p [] l u e = tt
  All-same_as_first p (x ∷ xs) l (u, us) e = elim (Bool-cases (p x)) [
    | inl t ↦ (
      (λ _. ground arith),
      All-mono _ _ xs (λ m f pm. absurd (false≢true (sym f ∙ pm))) (All-has p xs (u t)),
    )
    | inr f ↦ ((λ t. absurd (false≢true (sym f ∙ t))), All-same_as_first p xs l us (ground arith))
  ]

module _ {ℓ κ μ ν} {A : Type ℓ} where
  pub All-mono₂ :
      (P : A → Type κ) (Q : A → Type μ) (R : A → Type ν) (xs : List A)
      → ((x : A) → P x → Q x → R x)
      → All P xs
      → All Q xs
      → All R xs
  All-mono₂ P Q R [] k h j = tt
  All-mono₂ P Q R (x ∷ xs) k (p, h) (q, j) = (k x p q, All-mono₂ P Q R xs k h j)

-- A lookup by the key of a row finds that row.
pub own_lookup {ℓ κ} :
    {A : Type ℓ} {K : Type κ} ⦃e : Key K⦄ (key : A → K) (xs : List A)
    → Distinct key xs
    → All (λ m. first_where (λ x. key x == key m) xs ≡ some m) xs
own_lookup key [] d = tt
own_lookup key (x ∷ xs) (q, d) = (
  ground (arith, same_refl (key x)),
  All-mono₂ _ _ _ xs (λ m e f. ground (arith, e, f, same_symm (key m) (key x)))
      (own_lookup key xs d) (All-has (λ y. key y == key x) xs q),
)
