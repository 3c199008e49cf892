-- ===== src/Store/Access/Count.antt =====
-- COUNT(*) over a user's rows of user_progress (CurrentLevel of internal/store/progress.go) is the
-- number of the levels that the user has solved.
use crypticquest_backend.Base.{
  ℕ, ◌+◌, ◌≡◌, refl, sym, ◌∙◌, ap, Bool, true, false, ◌==◌, int_key, int_eq_iff, ℤ, List, [], ◌∷◌,
  has, count_where, All, Distinct, Bool-cases, inl, inr, ◌&&◌, ◌||◌, arith, if◌then◌else◌,
  same_symm,
}
use crypticquest_backend.Schema.{Tables, LevelRow, ProgressRow}
use crypticquest_backend.Store.Users.{solved_count}
use crypticquest_backend.Store.Progress.{has_progress}
use crypticquest_backend.Store.Integrity.{IsConsistent, HasLevel, pair, pair_key}

module _ {ℓ} {A : Type ℓ} where
  count_where_ext :
      (p q : A → Bool) (xs : List A) → ((x : A) → p x ≡ q x) → count_where p xs ≡ count_where q xs
  count_where_ext p q [] h = refl
  count_where_ext p q (x ∷ xs) h = ground (arith, h x, count_where_ext p q xs h)

  count_where-false : (xs : List A) → count_where (λ x. false) xs ≡ 0
  count_where-false [] = refl
  count_where-false (x ∷ xs) = ground (arith, count_where-false xs)

  count_where_or :
      (p q : A → Bool) (xs : List A)
      → ((x : A) → p x ≡ true → q x ≡ false)
      → count_where (λ x. p x || q x) xs ≡ count_where p xs + count_where q xs
  count_where_or p q [] h = refl
  count_where_or p q (x ∷ xs) h = ground (arith, h x, count_where_or p q xs h)

  pub count_where_none : (p : A → Bool) (xs : List A) → has p xs ≡ false → count_where p xs ≡ 0
  count_where_none p [] h = refl
  count_where_none p (x ∷ xs) h = ground (arith, count_where_none p xs)

-- A key that is there stands in one row.
count_where_key :
    (i : ℤ) (levels : List LevelRow)
    → Distinct (λ l. l.id) levels
    → HasLevel levels i
    → count_where (λ l. i == l.id) levels ≡ 1
count_where_key i [] d h = absurd (cc)
count_where_key i (l ∷ levels) (q, d) h = elim (Bool-cases (l.id == i)) [
  | inl t ↦
      let same : l.id ≡ i = (int_eq_iff l.id i).0 t in
      let rest : count_where (λ x. i == x.id) levels ≡ 0 =
        count_where_ext (λ x. i == x.id) (λ x. x.id == i) levels (λ x. same_symm i x.id)
        ∙ count_where_none (λ x. x.id == i) levels (rw (← same) q) in
      ground (arith, same_symm i l.id)
  | inr f ↦ ground (arith, same_symm i l.id, count_where_key i levels d)
]

head_skips : (b : Bool) (n : ℕ) → b ≡ false → (if b then 1 else 0) + n ≡ n
head_skips b n h = ground arith

head_counts : (b : Bool) (n : ℕ) → b ≡ true → (if b then 1 else 0) + n ≡ 1 + n
head_counts b n h = ground arith

abbrev pub solved_in : ℤ → List ProgressRow → ℤ → Bool
solved_in user_id progress level_id =
    has (λ p. (p.user_id == user_id) && (p.level_id == level_id)) progress

module _ (user_id : ℤ) (levels : List LevelRow) (p : ProgressRow)
    (progress : List ProgressRow) where
  solves_other :
      (p.user_id == user_id) ≡ false
      → count_where (λ l. solved_in user_id (p ∷ progress) l.id) levels
        ≡ count_where (λ l. solved_in user_id progress l.id) levels
  solves_other other = count_where_ext _ _ levels (λ l. ground arith)

  solves_own :
      (p.user_id == user_id) ≡ true
      → solved_in p.user_id progress p.level_id ≡ false
      → Distinct (λ l. l.id) levels
      → HasLevel levels p.level_id
      → count_where (λ l. solved_in user_id (p ∷ progress) l.id) levels
        ≡ 1 + count_where (λ l. solved_in user_id progress l.id) levels
  solves_own own new d h =
      let user : p.user_id ≡ user_id = (int_eq_iff p.user_id user_id).0 own in
      count_where_ext _ (λ l. (p.level_id == l.id) || solved_in user_id progress l.id) levels
        (λ l. ground arith)
      ∙ count_where_or (λ l. p.level_id == l.id) (λ l. solved_in user_id progress l.id) levels
          (λ l t. rw (← (int_eq_iff p.level_id l.id).0 t) (rw (← user) new))
      ∙ ap (λ n. n + count_where (λ l. solved_in user_id progress l.id) levels)
          (count_where_key p.level_id levels d h)

count_solves :
    (user_id : ℤ) (levels : List LevelRow) (progress : List ProgressRow)
    → Distinct (λ l. l.id) levels
    → Distinct pair progress
    → All (λ p. HasLevel levels p.level_id) progress
    → count_where (λ p. p.user_id == user_id) progress
      ≡ count_where (λ l. solved_in user_id progress l.id) levels
count_solves user_id levels [] d u h = sym (count_where-false levels)
count_solves user_id levels (p ∷ progress) d (q, u) (h, hs) =
    let ih = count_solves user_id levels progress d u hs in
    let rest = count_where (λ x. x.user_id == user_id) progress in
    elim (Bool-cases (p.user_id == user_id)) [
      | inr other ↦
          head_skips (p.user_id == user_id) rest other
          ∙ ih
          ∙ sym (solves_other user_id levels p progress other)
      | inl own ↦
          head_counts (p.user_id == user_id) rest own
          ∙ ap (λ n. 1 + n) ih
          ∙ sym (solves_own user_id levels p progress own q d h)
    ]

-- The number of a user's rows is the number of levels that those rows name.
pub solved_count-eq-levels :
    (user_id : ℤ) (t : Tables)
    → IsConsistent t
    → solved_count t user_id ≡ count_where (λ l. has_progress user_id l.id t) t.levels
unfolding solved_count has_progress
solved_count-eq-levels user_id t c =
    count_solves user_id t.levels t.user_progress c.levels.0 c.progress.1 c.progress_levels
