-- ===== src/Store/Access/Place.antt =====
-- A level's place in the order, which IsLevelAccessible (internal/store/progress.go) counts, against the
-- number of solved levels.
use crypticquest_backend.Base.{
  ◌+◌, ◌≤◌, ◌≡◌, refl, sym, ◌∙◌, ap, subst, Bool, Bool-cases, true, false, ◌⊎◌, inl, inr, ◌==◌,
  int_key, int_eq_iff, ℤ, some, List, [], ◌∷◌, first_where, count_where, leb, le→leb, All, All-mono,
  All-mono₂, All-first_where, own_lookup, int_leb, int_leb_refl, int_leb_total, arith,
}
use crypticquest_backend.Schema.{Tables, LevelRow}
use crypticquest_backend.Store.Users.{solved_count}
use crypticquest_backend.Store.Progress.{has_progress, rank}
use crypticquest_backend.Store.Levels.{find_level}
use crypticquest_backend.Store.Integrity.{IsConsistent}
use crypticquest_backend.Store.Access.Linear.{is_before, IsLinear}
use crypticquest_backend.Store.Access.Count.{solved_count-eq-levels}
use crypticquest_backend.Store.Access.Next.{before_or_same}

-- A solved level, and all before it: as many as its place says.
solved_up_to :
    (solved : LevelRow → Bool) (levels : List LevelRow) (l : LevelRow)
    → All (λ m. int_leb m.order_index l.order_index ≡ true → solved m ≡ true) levels
    → rank l.order_index levels ≤ count_where solved levels
unfolding rank
solved_up_to solved [] l h = omega arith
solved_up_to solved (m ∷ ms) l (k, h) = ground (arith, solved_up_to solved ms l h, k)

-- All solved levels stand before an unsolved one.
solved_before :
    (solved : LevelRow → Bool) (levels : List LevelRow) (l : LevelRow)
    → All (λ m. solved m ≡ true → is_before m l ≡ true) levels
    → count_where solved levels ≤ count_where (λ m. is_before m l) levels
solved_before solved [] l h = omega arith
solved_before solved (m ∷ ms) l (k, h) = ground (arith, solved_before solved ms l h, k)

before_rank :
    (p : LevelRow → Bool) (levels : List LevelRow) (l : LevelRow)
    → first_where p levels ≡ some l
    → count_where (λ m. is_before m l) levels + 1 ≤ rank l.order_index levels
unfolding rank
before_rank p [] l e = absurd (cc)
before_rank p (m ∷ ms) l e = elim (Bool-cases (p m)) [
  | inl t ↦
      let same : m ≡ l = ground arith in
      subst
        (λ x.
          count_where (λ y. is_before y x) (m ∷ ms) + 1
          ≤ count_where (λ y. int_leb y.order_index x.order_index) (m ∷ ms))
        same (ground (arith, int_leb_refl m.order_index, before_le m ms))
  | inr f ↦ ground (arith, before_rank p ms l, int_leb_total l.order_index m.order_index)
]
  where
    before_le :
        (x : LevelRow) (xs : List LevelRow)
        → count_where (λ y. is_before y x) xs
          ≤ count_where (λ y. int_leb y.order_index x.order_index) xs
    before_le x [] = omega arith
    before_le x (y ∷ ys) = ground (arith, before_le x ys, int_leb_total x.order_index y.order_index)

module _ (user_id : ℤ) (t : Tables) (l : LevelRow) (c : IsConsistent t)
    (linear : IsLinear user_id t) (e : find_level l.id t ≡ some l) where
  solved : LevelRow → Bool
  solved m = has_progress user_id m.id t

  -- Every row of the table up to `l`.
  up_to :
      (p : LevelRow → Bool)
      → All (λ m. is_before m l ≡ true → p m ≡ true) t.levels
      → All
          (λ m. int_leb m.order_index l.order_index ≡ true → (p m ≡ true) ⊎ ((m.id == l.id) ≡ true))
          t.levels
  unfolding find_level
  up_to p before =
      let own = own_lookup (λ m. m.order_index) t.levels c.levels.1 in
      let own_l = All-first_where _ (λ m. m.id == l.id) t.levels own e in
      All-mono₂ _ _ _ t.levels (λ m own_m b. before_or_same p t.levels l m own_l own_m b) own before

  solved_same : (m : LevelRow) → (m.id == l.id) ≡ true → solved m ≡ solved l
  unfolding solved
  solved_same m h = ap (λ i. has_progress user_id i t) ((int_eq_iff m.id l.id).0 h)

  place_of_solved : solved l ≡ true → rank l.order_index t.levels ≤ solved_count t user_id
  unfolding solved find_level
  place_of_solved s =
      let before = All-first_where _ (λ m. m.id == l.id) t.levels linear e s in
      let all = All-mono _ _ t.levels (λ m h up. either m (h up) s) (up_to solved before) in
      subst (λ n. rank l.order_index t.levels ≤ n) (sym (solved_count-eq-levels user_id t c))
        (solved_up_to solved t.levels l all)
    where
      either :
          (m : LevelRow)
          → (solved m ≡ true) ⊎ ((m.id == l.id) ≡ true)
          → solved l ≡ true
          → solved m ≡ true
      either m (inl h) s = h
      either m (inr h) s = solved_same m h ∙ s

  -- A solved level stands before an unsolved one.
  before_unsolved : solved l ≡ false → All (λ m. solved m ≡ true → is_before m l ≡ true) t.levels
  unfolding solved find_level
  before_unsolved f =
      All-mono₂ _ _ _ t.levels
        (λ m rest up s.
          let not_after : is_before l m ≡ true → solved l ≡ true =
            All-first_where _ (λ x. x.id == l.id) t.levels (rest s) e in
          elim (Bool-cases (int_leb m.order_index l.order_index)) [
            | inr g ↦ absurd (cc (sym (not_after (rw g refl)) ∙ f))
            | inl g ↦ elim (up g) [
              | inl b ↦ b
              | inr i ↦ absurd (cc (sym (sym (solved_same m i) ∙ s) ∙ f))
            ]
          ])
        linear
        (up_to (λ m. is_before m l)
          (All-mono _ _ t.levels (λ m o b. b) (own_lookup (λ m. m.id) t.levels c.levels.0)))

  place_of_unsolved : solved l ≡ false → solved_count t user_id + 1 ≤ rank l.order_index t.levels
  unfolding find_level solved
  place_of_unsolved f = omega (
    arith,
    solved_before solved t.levels l (before_unsolved f),
    before_rank (λ m. m.id == l.id) t.levels l e,
    solved_count-eq-levels user_id t c,
  )

  -- Under linear play a level is solved exactly if its place is within the count.
  pub solved-eq-place :
      has_progress user_id l.id t ≡ leb (rank l.order_index t.levels) (solved_count t user_id)
  unfolding solved
  solved-eq-place = elim (Bool-cases (has_progress user_id l.id t)) [
    | inl s ↦ s ∙ sym (le→leb _ _ (place_of_solved s))
    | inr f ↦ f ∙ ground (arith, place_of_unsolved f)
  ]
