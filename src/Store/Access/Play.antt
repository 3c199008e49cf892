-- ===== src/Store/Access/Play.antt =====
-- What keeps play linear: RecordSolved (internal/store/progress.go) behind the access gate, and
-- DeleteLevel (levels.go).
use crypticquest_backend.Base.{
  ℕ, suc, ◌≡◌, sym, ◌∙◌, Bool, true, false, ◌==◌, int_key, int_eq_iff, ℤ, pos, List, [], ◌∷◌, ◌++◌,
  some, has, All, All-mono, Bool-cases, inl, inr, ◌&&◌, ◌||◌, not, arith, same_symm, subst, subst₂,
  fun_ext, All-mono₂, All-same_as_first, All-first_where, IsUnique-Distinct, rows_without,
  has-append_one, All-has, All-rows_where_with, has-rows_where_eq,
}
use crypticquest_backend.Schema.{Tables, LevelRow, ProgressRow}
use crypticquest_backend.Engine.{ok}
use crypticquest_backend.Store.Progress.{has_progress, insert_progress, insert_or_ignore_progress}
use crypticquest_backend.Store.Levels.{find_level, delete_level_row}
use crypticquest_backend.Store.Integrity.{IsConsistent}
use crypticquest_backend.Store.Access.{accessible}
use crypticquest_backend.Store.Access.Count.{solved_in}
use crypticquest_backend.Store.Access.Linear.{
  is_before, gap_before, AreLinear, IsLinear, accessible_iff_next,
}

already_there :
    (user_id level_id v i : ℤ) (t : Tables)
    → has_progress user_id level_id t ≡ true
    → has_progress v i t ≡ (has_progress v i t || ((user_id == v) && (level_id == i)))
already_there user_id level_id v i t h = elim (Bool-cases ((user_id == v) && (level_id == i))) [
  | inr f ↦ rw f (or_false (has_progress v i t))
  | inl s ↦
      let user : user_id ≡ v = (int_eq_iff user_id v).0 (ground arith) in
      let level : level_id ≡ i = (int_eq_iff level_id i).0 (ground arith) in
      let there : has_progress v i t ≡ true =
        subst (λ j. has_progress v j t ≡ true) level
          (subst (λ w. has_progress w level_id t ≡ true) user h) in
      ground arith
]
  where
    or_false : (b : Bool) → b ≡ (b || false)
    or_false b = ground arith

-- After a successful write the row is there, and no other row has come or gone.
pub has_progress-insert :
    (user_id level_id : ℤ) (t : Tables) (now : ℕ) (t' : Tables)
    → insert_or_ignore_progress user_id level_id t now ≡ ok (tt, t')
    → (v i : ℤ) → has_progress v i t' ≡ (has_progress v i t || ((user_id == v) && (level_id == i)))
unfolding insert_or_ignore_progress insert_progress
has_progress-insert user_id level_id t now t' h v i =
    elim (Bool-cases (has_progress user_id level_id t)) [
      | inl there ↦
          let same : t ≡ t' = ground arith in
          subst
            (λ x. has_progress v i x ≡ (has_progress v i t || ((user_id == v) && (level_id == i))))
            same (already_there user_id level_id v i t there)
      | inr new ↦
          let row : ProgressRow = record {
            id = pos (suc t.progress_seq);
            user_id = user_id;
            level_id = level_id;
            solved_at = now;
          } in
          let rows : t'.user_progress ≡ t.user_progress ++ row ∷ [] = ground arith in
          unfold has_progress in
          rw rows (has-append_one (λ p. (p.user_id == v) && (p.level_id == i)) t.user_progress row)
    ]

pub levels-insert :
    (user_id level_id : ℤ) (t : Tables) (now : ℕ) (t' : Tables)
    → insert_or_ignore_progress user_id level_id t now ≡ ok (tt, t')
    → t'.levels ≡ t.levels
unfolding insert_or_ignore_progress insert_progress
levels-insert user_id level_id t now t' h = ground arith

or_left : (a b : Bool) → a ≡ true → (a || b) ≡ true
or_left a b e = rw e

-- One more level is solved, after every level before it.
AreLinear-solve :
    (solved solved' : LevelRow → Bool) (levels : List LevelRow) (id : ℤ)
    → AreLinear solved levels
    → ((l : LevelRow) → solved' l ≡ (solved l || (id == l.id)))
    → All (λ m. id == m.id ≡ true → All (λ l. is_before l m ≡ true → solved l ≡ true) levels) levels
    → AreLinear solved' levels
AreLinear-solve solved solved' levels id h same new =
    All-mono₂ _ _ _ levels
      (λ m before fresh s'.
        All-mono _ _ levels (λ l k b. rw (same l) (or_left (solved l) (id == l.id) (k b)))
          (elim (Bool-cases (solved m)) [
            | inl s ↦ before s
            | inr f ↦ fresh (ground (arith, same m))
          ]))
      h new

-- Behind the gate every level before `l` is solved.
All-before :
    (user_id id : ℤ) (t : Tables) (l : LevelRow)
    → IsConsistent t
    → IsLinear user_id t
    → find_level id t ≡ some l
    → accessible user_id l.order_index t ≡ true
    → All (λ m. is_before m l ≡ true → has_progress user_id m.id t ≡ true) t.levels
unfolding find_level
All-before user_id id t l c linear e open_gate =
    let solved = λ (m : LevelRow). has_progress user_id m.id t in
    let next : (solved l || not (gap_before solved l t.levels)) ≡ true =
      sym (accessible_iff_next user_id id t l c linear e) ∙ open_gate in
    elim (Bool-cases (solved l)) [
      | inl s ↦ All-first_where _ (λ m. m.id == id) t.levels linear e s
      | inr f ↦
          let no_gap : gap_before solved l t.levels ≡ false = ground arith in
          All-mono _ _ t.levels (λ m g b. ground arith)
            (All-has (λ m. not (solved m) && is_before m l) t.levels no_gap)
    ]

pub AreLinear-congr :
    (solved solved' : LevelRow → Bool) (levels : List LevelRow)
    → ((l : LevelRow) → solved' l ≡ solved l)
    → AreLinear solved levels
    → AreLinear solved' levels
AreLinear-congr solved solved' levels same h =
    subst (λ s. AreLinear s levels) (fun_ext (λ l. sym (same l))) h

-- A solve that the gate lets through keeps play linear, for the user and for everybody else.
pub IsLinear-insert :
    (user_id level_id : ℤ) (t : Tables) (l : LevelRow) (now : ℕ) (t' : Tables)
    → IsConsistent t
    → find_level level_id t ≡ some l
    → accessible user_id l.order_index t ≡ true
    → insert_or_ignore_progress user_id level_id t now ≡ ok (tt, t')
    → IsLinear user_id t
    → (v : ℤ) → IsLinear v t
    → IsLinear v t'
unfolding find_level
IsLinear-insert user_id level_id t l now t' c e open_gate h own v linear =
    let inserted = has_progress-insert user_id level_id t now t' h in
    let solved = λ (m : LevelRow). has_progress v m.id t in
    let solved' = λ (m : LevelRow). has_progress v m.id t' in
    subst (AreLinear solved') (sym (levels-insert user_id level_id t now t' h))
      (elim (Bool-cases (user_id == v)) [
        | inr other ↦
            AreLinear-congr solved solved' t.levels
              (λ m. inserted v m.id ∙ other_user (has_progress v m.id t) _ _ other) linear
        | inl same ↦
            AreLinear-solve solved solved' t.levels level_id linear
              (λ m. inserted v m.id ∙ own_user (has_progress v m.id t) _ _ same)
              (All-mono _ _ t.levels
                (λ m first i.
                  subst
                    (λ x. All (λ k. is_before k x ≡ true → has_progress v k.id t ≡ true) t.levels)
                    (sym (first (same_symm m.id level_id ∙ i)))
                    (subst
                      (λ w. All (λ k. is_before k l ≡ true → has_progress w k.id t ≡ true) t.levels)
                      ((int_eq_iff user_id v).0 same)
                      (All-before user_id level_id t l c own e open_gate)))
                (All-same_as_first (λ m. m.id == level_id) t.levels l
                  (IsUnique-Distinct (λ m. m.id) level_id t.levels c.levels.0) e))
      ])
  where
    other_user : (a b d : Bool) → b ≡ false → (a || (b && d)) ≡ a
    other_user a b d h = ground arith

    own_user : (a b d : Bool) → b ≡ true → (a || (b && d)) ≡ (a || d)
    own_user a b d h = ground arith

-- The rows of other levels are not touched by the deletion of one.
has_progress-delete :
    (v id i : ℤ) (progress : List ProgressRow)
    → not (i == id) ≡ true
    → has
        (λ p. (p.user_id == v) && (p.level_id == i))
        (rows_without (λ p. p.level_id == id) progress)
      ≡ has (λ p. (p.user_id == v) && (p.level_id == i)) progress
has_progress-delete v id i progress ne =
    has-rows_where_eq _ (λ p. not (p.level_id == id)) progress
      (λ p h. let same : p.level_id ≡ i = (int_eq_iff p.level_id i).0 (ground arith) in rw same ne)

linear_without :
    (v id : ℤ) (levels : List LevelRow) (progress : List ProgressRow)
    → AreLinear (λ l. solved_in v progress l.id) levels
    → AreLinear
        (λ l. solved_in v (rows_without (λ p. p.level_id == id) progress) l.id)
        (rows_without (λ l. l.id == id) levels)
linear_without v id levels progress h =
    All-rows_where_with _ _ (λ l. not (l.id == id)) levels
      (λ m other k s.
        All-rows_where_with _ _ (λ l. not (l.id == id)) levels
          (λ l other' k' b. has_progress-delete v id l.id progress other' ∙ k' b)
          (k (sym (has_progress-delete v id m.id progress other) ∙ s)))
      h

-- Deleting a level keeps play linear for everybody.
pub IsLinear-delete :
    (id : ℤ) (t : Tables) (now n : ℕ) (t' : Tables)
    → delete_level_row id t now ≡ ok (n, t')
    → (v : ℤ) → IsLinear v t
    → IsLinear v t'
unfolding delete_level_row has_progress
IsLinear-delete id t now n t' h v linear = elim (Bool-cases (has (λ l. l.id == id) t.levels)) [
  | inr missing ↦ let same : t ≡ t' = ground arith in subst (IsLinear v) same linear
  | inl there ↦
      let levels : t'.levels ≡ rows_without (λ l. l.id == id) t.levels = ground arith in
      let progress : t'.user_progress ≡ rows_without (λ p. p.level_id == id) t.user_progress =
        ground arith in
      subst₂ (λ ls ps. AreLinear (λ l. solved_in v ps l.id) ls) (sym levels) (sym progress)
        (linear_without v id t.levels t.user_progress linear)
]
