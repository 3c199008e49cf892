-- ===== src/Store/Integrity/Progress.antt =====
-- The statements of internal/store/progress.go keep the constraints.
use crypticquest_backend.Base.{
  ℕ, suc, ◌≡◌, refl, false, ◌==◌, string_key, int_key, ℤ, pos, List, [], ◌∷◌, ◌++◌, has, All,
  IsGiven, Bool-cases, inl, inr, ◌&&◌, arith, All-append_one, Distinct-append_one, has_next,
  All-IsGiven-suc, Distinct-rows_where, All-rows_where,
}
use crypticquest_backend.Schema.{Tables, LevelRow, ProgressRow}
use crypticquest_backend.Engine.{Result, SqlError, ok, err}
use crypticquest_backend.Engine.Laws.{Leaves}
use crypticquest_backend.Store.Progress.{
  has_progress, insert_progress, insert_or_ignore_progress, clear_progress, insert_progress_select,
  next_row, insert_first_levels,
}
use crypticquest_backend.Store.Integrity.{
  IsConsistent, AreSolves, HasUser, HasLevel, pair, pair_key,
}

-- A statement that only writes the progress keeps all but its own constraints.
with_progress :
    (t : Tables) (seq : ℕ) (progress : List ProgressRow)
    → IsConsistent t
    → AreSolves seq progress
    → All (λ p. HasUser t.users p.user_id) progress
    → All (λ p. HasLevel t.levels p.level_id) progress
    → IsConsistent (record t { user_progress = progress; progress_seq = seq })
with_progress t seq progress c d h k = record {
  users = c.users;
  levels = c.levels;
  tools = c.tools;
  hints = c.hints;
  progress = d;
  tokens = c.tokens;
  session_users = c.session_users;
  progress_users = h;
  progress_levels = k;
  hint_levels = c.hint_levels;
  tool_levels = c.tool_levels;
}

AreSolves-append_one :
    (seq : ℕ) (progress : List ProgressRow) (p : ProgressRow)
    → p.id ≡ pos (suc seq)
    → has (λ q. (q.user_id == p.user_id) && (q.level_id == p.level_id)) progress ≡ false
    → AreSolves seq progress
    → AreSolves (suc seq) (progress ++ p ∷ [])
AreSolves-append_one seq progress p e new (ids, pairs, given) = (
  Distinct-append_one (λ x. x.id) progress p ids (rw e (has_next (λ x. x.id) seq progress given)),
  Distinct-append_one pair progress p pairs new,
  All-append_one (λ x. IsGiven (suc seq) x.id) progress
      (All-IsGiven-suc (λ x. x.id) seq progress given) (rw e (omega arith)),
)

pub insert_progress-IsConsistent :
    (user_id level_id : ℤ) (t : Tables) (now : ℕ)
    → IsConsistent t
    → Leaves IsConsistent (insert_progress user_id level_id t now)
unfolding insert_progress has_progress
insert_progress-IsConsistent user_id level_id t now c =
    elim (Bool-cases (has_progress user_id level_id t)) [
      | inl there ↦ rw there tt
      | inr new ↦ elim (Bool-cases (has (λ u. u.id == user_id) t.users)) [
        | inr no_user ↦ rw new (rw no_user tt)
        | inl user ↦ elim (Bool-cases (has (λ l. l.id == level_id) t.levels)) [
          | inr no_level ↦ rw new (rw user (rw no_level tt))
          | inl level ↦ rw new (
              rw user (
                rw level (
                  with_progress t _ _ c
                    (AreSolves-append_one t.progress_seq t.user_progress _ refl new c.progress)
                    (All-append_one _ t.user_progress c.progress_users user)
                    (All-append_one _ t.user_progress c.progress_levels level))))
        ]
      ]
    ]

pub insert_or_ignore_progress-IsConsistent :
    (user_id level_id : ℤ) (t : Tables) (now : ℕ)
    → IsConsistent t
    → Leaves IsConsistent (insert_or_ignore_progress user_id level_id t now)
unfolding insert_or_ignore_progress
insert_or_ignore_progress-IsConsistent user_id level_id t now c =
    elim (Bool-cases (has_progress user_id level_id t)) [
      | inl there ↦ rw there c
      | inr new ↦ rw new (insert_progress-IsConsistent user_id level_id t now c)
    ]

pub clear_progress-IsConsistent :
    (user_id : ℤ) (t : Tables) (now : ℕ)
    → IsConsistent t
    → Leaves IsConsistent (clear_progress user_id t now)
unfolding clear_progress
clear_progress-IsConsistent user_id t now c =
    with_progress t _ _ c
      (
        Distinct-rows_where (λ p. p.id) _ t.user_progress c.progress.0,
        Distinct-rows_where pair _ t.user_progress c.progress.1,
        All-rows_where _ _ t.user_progress c.progress.2,
      )
      (All-rows_where _ _ t.user_progress c.progress_users)
      (All-rows_where _ _ t.user_progress c.progress_levels)

insert_progress_select-IsConsistent :
    (user_id : ℤ) (ls : List LevelRow) (t : Tables) (now : ℕ)
    → IsConsistent t
    → Leaves IsConsistent (insert_progress_select user_id ls t now)
unfolding insert_progress_select
insert_progress_select-IsConsistent user_id [] t now c = c
insert_progress_select-IsConsistent user_id (l ∷ ls) t now c =
    go (insert_progress user_id l.id t now) (insert_progress-IsConsistent user_id l.id t now c)
      (λ t'. insert_progress_select-IsConsistent user_id ls t' now)
  where
    go :
        (r : Result SqlError (Unit {0} × Tables))
        → Leaves IsConsistent r
        → ((t' : Tables)
            → IsConsistent t'
            → Leaves IsConsistent (insert_progress_select user_id ls t' now))
        → Leaves IsConsistent (next_row r (λ t'. insert_progress_select user_id ls t' now))
    go (err e) h k = tt
    go (ok (_, t')) h k = k t' h

pub insert_first_levels-IsConsistent :
    (user_id : ℤ) (limit : ℕ) (t : Tables) (now : ℕ)
    → IsConsistent t
    → Leaves IsConsistent (insert_first_levels user_id limit t now)
unfolding insert_first_levels
insert_first_levels-IsConsistent user_id limit t now c =
    insert_progress_select-IsConsistent user_id _ t now c
