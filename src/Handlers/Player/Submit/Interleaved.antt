-- ===== src/Handlers/Player/Submit/Interleaved.antt =====
-- Many submissions at once (internal/handlers/submit.go): between two statements of one, those of
-- others may run, and other requests.
use crypticquest_backend.Base.{
  Bool, true, ℕ, ◌+◌, ◌≡◌, inl, inr, int_key, ℤ, String, Option, Option-cases, some, none, List, [],
  ◌∷◌, ◌++◌, leb, if◌then◌else◌, arith,
}
use crypticquest_backend.Schema.{Tables, UserRow, LevelRow}
use crypticquest_backend.Engine.{Db, Result, ok, err, SqlError, exec}
use crypticquest_backend.Store.Errors.{row_err}
use crypticquest_backend.Store.Users.{solved_count}
use crypticquest_backend.Store.Progress.{
  rank, record_solved, current_level, is_level_accessible, insert_or_ignore_progress,
}
use crypticquest_backend.Store.Write.{Write, perform}
use crypticquest_backend.Store.Write.Apart.{is_apart}
use crypticquest_backend.Store.Levels.{find_level, level_for_submit}
use crypticquest_backend.Text.{LowerTable}
use crypticquest_backend.Handlers.Player.{submit_answer, is_correct}

-- How far a submission has come: it has sent its request; it knows the order_index and the flag of
-- its level; it knows the user's current level; the gate has let it through; it has answered.
pub data Phase : Type 0 where
  asked : (user_id level_id : ℤ) → String → Phase
  found : (user_id level_id : ℤ) → String → ℤ → String → Phase
  counted : (user_id level_id : ℤ) → String → ℤ → String → ℕ → Phase
  passed : (user_id level_id : ℤ) → String → String → Phase
  answered : Phase

unfoldable pub looked_up : ℤ → ℤ → String → Option LevelRow → Phase
looked_up user_id level_id answer none = answered
looked_up user_id level_id answer (some l) = found user_id level_id answer l.order_index l.flag

unfoldable pub written : Tables → Result SqlError (Unit {0} × Tables) → Tables
written t (err e) = t
written t (ok (_, t')) = t'

-- The next statement of a submission.
unfoldable pub advance : LowerTable → ℕ → Tables → Phase → Tables × Phase
unfolding looked_up written
advance table now t (asked u i answer) = (t, looked_up u i answer (find_level i t))
advance table now t (found u i answer order flag) =
    (t, counted u i answer order flag (solved_count t u + 1))
advance table now t (counted u i answer order flag current) =
    (t, if leb (rank order t.levels) current then passed u i answer flag else answered)
advance table now t (passed u i answer flag) = (
  if is_correct table answer flag then written t (insert_or_ignore_progress u i t now) else t,
  answered,
)
advance table now t answered = (t, answered)

-- All of its statements, with nothing between them.
pub alone : LowerTable → ℕ → Tables × Phase → Tables
unfolding advance
alone table now (t, p) =
    let (t₁, p₁) = advance table now t p in
    let (t₂, p₂) = advance table now t₁ p₁ in
    let (t₃, p₃) = advance table now t₂ p₂ in (advance table now t₃ p₃).0

-- A submission that runs alone is SubmitFlag from the lookup of the level on.
alone-eq-submit :
    (table : LowerTable) (user : UserRow) (id : ℤ) (answer : String) (d : Db)
    → d.faults ≡ []
    → alone table d.now (d.tables, asked user.id id answer)
      ≡ (submit_answer table user id answer d).1.tables
unfolding alone advance looked_up written submit_answer level_for_submit is_level_accessible
    current_level record_solved exec row_err
alone-eq-submit table user id answer d quiet = elim (Option-cases (find_level id d.tables)) [
  | inl missing ↦ ground arith
  | inr (l, e) ↦ ground arith
]

-- A run of submissions on the tables `t₀`: they come in, one of them takes its next statement, or that
-- statement fails and its handler answers; other requests make writes that leave the levels and the
-- solves alone; and accounts are deleted, with their solves.
pub data Run (table : LowerTable) (t₀ : Tables) : Tables → List Phase → Type 0 where
  start : Run table t₀ t₀ []
  arrive :
      {t : Tables} {ps : List Phase} (user_id level_id : ℤ) (answer : String)
      → Run table t₀ t ps
      → Run table t₀ t (asked user_id level_id answer ∷ ps)
  step :
      {t : Tables} {ps : List Phase} (now : ℕ) (xs ys : List Phase) (p : Phase)
      → Run table t₀ t ps
      → ps ≡ xs ++ p ∷ ys
      → Run table t₀ (advance table now t p).0 (xs ++ (advance table now t p).1 ∷ ys)
  fail :
      {t : Tables} {ps : List Phase} (xs ys : List Phase) (p : Phase)
      → Run table t₀ t ps
      → ps ≡ xs ++ p ∷ ys
      → Run table t₀ t (xs ++ answered ∷ ys)
  aside :
      {t : Tables} {ps : List Phase} (w : Write) (now : ℕ) (faults : List Bool)
      → Run table t₀ t ps
      → is_apart w ≡ true
      → Run table t₀ (perform w (record { tables = t; now = now; faults = faults })).1.tables ps
  leave :
      {t : Tables} {ps : List Phase} (id : ℤ) (now : ℕ) (faults : List Bool)
      → Run table t₀ t ps
      → Run table t₀
          (perform
            (Write.delete_user id)
            (record { tables = t; now = now; faults = faults })).1.tables
          ps
