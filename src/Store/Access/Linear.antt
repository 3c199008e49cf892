-- ===== src/Store/Access/Linear.antt =====
-- Linear play (the comments of internal/store/progress.go and levels.go): a user has solved the
-- levels in the order of their order_index, with no gap. Then the gate of IsLevelAccessible, which
-- counts, lets through exactly the solved levels and the next one.
use crypticquest_backend.Base.{
  ℕ, ◌+◌, ◌≤◌, ◌≡◌, refl, ◌∙◌, Bool, true, false, ◌==◌, int_key, ℤ, List, [], ◌∷◌, some, has,
  count_where, first_where, order_by, leb, All, All-mono, Bool-cases, inl, inr, ◌&&◌, ◌||◌, not,
  arith, int_leb, int_leb_refl, int_leb_total, All-first_where, All-has, subst, IsIncreasing,
  IsIncreasing-order_by, IsUnique-Distinct, first_where-order_by, count_where-order_by,
  has-order_by, All-order_by,
}
use crypticquest_backend.Schema.{Tables, LevelRow}
use crypticquest_backend.Store.Progress.{has_progress, rank}
use crypticquest_backend.Store.Levels.{find_level}
use crypticquest_backend.Store.Integrity.{IsConsistent}
use crypticquest_backend.Store.Access.{accessible}
use crypticquest_backend.Store.Access.Count.{solved_count-eq-levels, count_where_none}

-- `l` comes before `m`.
abbrev pub is_before : LevelRow → LevelRow → Bool
is_before l m = not (int_leb m.order_index l.order_index)

-- Whenever a level is solved, so is every level before it.
abbrev pub AreLinear : (LevelRow → Bool) → List LevelRow → Type 0
AreLinear solved levels =
    All (λ m. solved m ≡ true → All (λ l. is_before l m ≡ true → solved l ≡ true) levels) levels

abbrev pub IsLinear : ℤ → Tables → Type 0
IsLinear user_id t = AreLinear (λ l. has_progress user_id l.id t) t.levels

-- In a list that is in order: after an unsolved level none is solved.
abbrev IsPrefix : (LevelRow → Bool) → List LevelRow → Type 0
IsPrefix solved [] = Unit
IsPrefix solved (l ∷ ls) = (solved l ≡ false → has solved ls ≡ false) × IsPrefix solved ls

none_after :
    (solved : LevelRow → Bool) (l : LevelRow) (ls : List LevelRow)
    → solved l ≡ false
    → All (λ m. is_before l m ≡ true) ls
    → All (λ m. solved m ≡ true → is_before l m ≡ true → solved l ≡ true) ls
    → has solved ls ≡ false
none_after solved l [] f above h = refl
none_after solved l (m ∷ ms) f (a, above) (g, h) =
    ground (arith, g, none_after solved l ms f above h)

IsPrefix-AreLinear :
    (solved : LevelRow → Bool) (ls : List LevelRow)
    → IsIncreasing (λ l. l.order_index) ls
    → AreLinear solved ls
    → IsPrefix solved ls
IsPrefix-AreLinear solved [] inc h = tt
IsPrefix-AreLinear solved (l ∷ ls) (above, inc) (g, h) = (
  (λ f.
      none_after solved l ls f (All-mono _ _ ls (λ m a. rw a) above)
        (All-mono _ _ ls (λ m k s. (k s).0) h)),
  IsPrefix-AreLinear solved ls inc (All-mono _ _ ls (λ m k s. (k s).1) h),
)

AreLinear-order_by :
    (solved : LevelRow → Bool) (ls : List LevelRow)
    → AreLinear solved ls
    → AreLinear solved (order_by (λ l. l.order_index) ls)
AreLinear-order_by solved ls h =
    All-order_by (λ l. l.order_index) _ ls
      (All-mono _ _ ls (λ m k s. All-order_by (λ l. l.order_index) _ ls (k s)) h)

abbrev position : LevelRow → List LevelRow → ℕ
position l ls = rank l.order_index ls

-- An unsolved level before `l`.
abbrev pub gap_before : (LevelRow → Bool) → LevelRow → List LevelRow → Bool
gap_before solved l ls = has (λ m. not (solved m) && is_before m l) ls

none_before_head :
    (solved : LevelRow → Bool) (l : LevelRow) (ls : List LevelRow)
    → All (λ y. int_leb y.order_index l.order_index ≡ false) ls
    → (position l ls ≡ 0) × (gap_before solved l ls ≡ false)
unfolding rank
none_before_head solved l [] h = (refl, refl)
none_before_head solved l (m ∷ ls) (q, h) =
    ground (arith, none_before_head solved l ls h, int_leb_total m.order_index l.order_index q)

position_pos :
    (p : LevelRow → Bool) (ls : List LevelRow) (l : LevelRow)
    → first_where p ls ≡ some l
    → 1 ≤ position l ls
unfolding rank
position_pos p [] l e = absurd (cc)
position_pos p (m ∷ ls) l e = elim (Bool-cases (p m)) [
  | inl t ↦
      let same : m ≡ l = ground arith in rw (← same) (ground (arith, int_leb_refl m.order_index))
  | inr f ↦ ground (arith, position_pos p ls l)
]

-- The first level that is left.
gate_head :
    (solved : LevelRow → Bool) (l : LevelRow) (ls : List LevelRow)
    → All (λ y. int_leb y.order_index l.order_index ≡ false) ls
    → leb (position l (l ∷ ls)) (count_where solved (l ∷ ls) + 1)
      ≡ (solved l || not (gap_before solved l (l ∷ ls)))
unfolding rank
gate_head solved l ls above =
    ground (arith, none_before_head solved l ls above, int_leb_refl l.order_index)

-- A later level.
gate_tail :
    (solved : LevelRow → Bool) (m l : LevelRow) (ls : List LevelRow)
    → int_leb m.order_index l.order_index ≡ true
    → int_leb l.order_index m.order_index ≡ false
    → (solved m ≡ false → (count_where solved ls ≡ 0) × (solved l ≡ false))
    → 1 ≤ position l ls
    → leb (position l ls) (count_where solved ls + 1) ≡ (solved l || not (gap_before solved l ls))
    → leb (position l (m ∷ ls)) (count_where solved (m ∷ ls) + 1)
      ≡ (solved l || not (gap_before solved l (m ∷ ls)))
unfolding rank
gate_tail solved m l ls before after none here ih = elim (Bool-cases (solved m)) [
  | inl s ↦ ground arith
  | inr s ↦ let (zero_solved, unsolved) = none s in ground arith
]

gate_of_prefix :
    (solved p : LevelRow → Bool) (ls : List LevelRow) (l : LevelRow)
    → IsIncreasing (λ x. x.order_index) ls
    → IsPrefix solved ls
    → first_where p ls ≡ some l
    → leb (position l ls) (count_where solved ls + 1) ≡ (solved l || not (gap_before solved l ls))
gate_of_prefix solved p [] l inc pre e = absurd (cc)
gate_of_prefix solved p (m ∷ ls) l (above, inc) (none, pre) e = elim (Bool-cases (p m)) [
  | inl t ↦
      let same : m ≡ l = ground arith in
      subst
        (λ z.
          leb (position z (m ∷ ls)) (count_where solved (m ∷ ls) + 1)
          ≡ (solved z || not (gap_before solved z (m ∷ ls))))
        same (gate_head solved m ls above)
  | inr f ↦
      let later : first_where p ls ≡ some l = ground arith in
      let below : int_leb l.order_index m.order_index ≡ false =
        All-first_where _ p ls above later in
      gate_tail solved m l ls (int_leb_total l.order_index m.order_index below) below
        (λ s. (
          count_where_none solved ls (none s),
          All-first_where _ p ls (All-has solved ls (none s)) later,
        ))
        (position_pos p ls l later) (gate_of_prefix solved p ls l inc pre later)
]

-- Where play has been linear, the gate is open at a level exactly if the user has solved the level,
-- or has solved every level before it.
pub accessible_iff_next :
    (user_id id : ℤ) (t : Tables) (l : LevelRow)
    → IsConsistent t
    → IsLinear user_id t
    → find_level id t ≡ some l
    → accessible user_id l.order_index t ≡ (
        has_progress user_id l.id t
        || not (gap_before (λ m. has_progress user_id m.id t) l t.levels))
unfolding rank find_level
accessible_iff_next user_id id t l c linear e =
    let solved = λ (m : LevelRow). has_progress user_id m.id t in
    let key = λ (m : LevelRow). m.order_index in
    let ordered = order_by key t.levels in
    let increasing = IsIncreasing-order_by key t.levels c.levels.1 in
    let same_count = solved_count-eq-levels user_id t c in
    let gate =
      gate_of_prefix solved (λ m. m.id == id) ordered l increasing
        (IsPrefix-AreLinear solved ordered increasing (AreLinear-order_by solved t.levels linear))
        (first_where-order_by key (λ m. m.id == id) t.levels
            (IsUnique-Distinct (λ m. m.id) id t.levels c.levels.0)
          ∙ e) in
    ground (
      arith,
      gate,
      same_count,
      count_where-order_by key solved t.levels,
      count_where-order_by key (λ m. int_leb m.order_index l.order_index) t.levels,
      has-order_by key (λ m. not (solved m) && is_before m l) t.levels,
    )
