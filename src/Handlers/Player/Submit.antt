-- ===== src/Handlers/Player/Submit.antt =====
-- SubmitFlag (internal/handlers/submit.go).
pub mod Linear
pub mod Playable
pub mod Counter
pub mod Interleaved
pub mod Grows
pub mod Sound
pub mod Races
use crypticquest_backend.Base.{
  ℕ, suc, pos, ◌++◌, ◌≡◌, refl, sym, subst, Bool, true, false, ◌==◌, int_key, ℤ, String, Option,
  none, some, [], ◌∷◌, arith, ◌&&◌, ◌||◌, ◌⊎◌, Option-cases, Bool-cases, inl, inr, if◌then◌else◌,
  has_of_first_where,
}
use crypticquest_backend.Schema.{Tables, UserRow, LevelRow}
use crypticquest_backend.Engine.{Db, ok, err, exec}
use crypticquest_backend.Store.Errors.{is_not_found, row_err}
use crypticquest_backend.Store.Progress.{
  current_level, is_level_accessible, rank, record_solved, has_progress, insert_or_ignore_progress,
  insert_progress,
}
use crypticquest_backend.Store.Levels.{find_level, level_for_submit}
use crypticquest_backend.Store.Integrity.{IsConsistent, HasUser, HasLevel}
use crypticquest_backend.Store.Access.{accessible}
use crypticquest_backend.Store.Access.Linear.{IsLinear}
use crypticquest_backend.Store.Access.Play.{has_progress-insert, IsLinear-insert}
use crypticquest_backend.Text.{LowerTable, parse_int}
use crypticquest_backend.Http.{Response, Handler, response, json, fail, correct}
use crypticquest_backend.Handlers.Player.{submit_flag, submit_answer, is_correct}
use crypticquest_backend.Handlers.Player.Gate.{gated}

-- The insert succeeds for a user and a level that exist.
insert_succeeds :
    (user_id level_id : ℤ) (t : Tables) (now : ℕ)
    → HasUser t.users user_id
    → HasLevel t.levels level_id
    → (t' : Tables) × (insert_or_ignore_progress user_id level_id t now ≡ ok (tt, t'))
unfolding insert_or_ignore_progress insert_progress
insert_succeeds user_id level_id t now u l = elim (Bool-cases (has_progress user_id level_id t)) [
  | inl there ↦ (t, rw there)
  | inr new ↦
      let t' : Tables = record t {
        user_progress =
            t.user_progress
            ++ record {
              id = pos (suc t.progress_seq);
              user_id = user_id;
              level_id = level_id;
              solved_at = now;
            }
              ∷ [];
        progress_seq = suc t.progress_seq;
      } in
      (t', rw new (rw u (rw l refl)))
]

module _ (table : LowerTable) (user : UserRow) (id : ℤ) (answer : String) (d : Db) where
  -- The level is there, and the insert would succeed.
  submit_answer-found :
      (l : LevelRow) (t' : Tables)
      → d.faults ≡ []
      → find_level id d.tables ≡ some l
      → insert_or_ignore_progress user.id id d.tables d.now ≡ ok (tt, t')
      → let right = is_correct table answer l.flag in
        let through = accessible user.id l.order_index d.tables in
        submit_answer table user id answer d ≡ (
          if through then ok (json 200 (correct right)) else err (fail 403 "level locked"),
          record d { tables = if through && right then t' else d.tables },
        )
  unfolding submit_answer level_for_submit is_level_accessible current_level record_solved exec
      row_err rank
  submit_answer-found l t' quiet e inserted = ground arith

  submit_answer-missing :
      d.faults ≡ []
      → find_level id d.tables ≡ none
      → submit_answer table user id answer d ≡ (err (fail 404 "level not found"), d)
  unfolding submit_answer level_for_submit exec row_err is_not_found
  submit_answer-missing quiet e = ground arith

  -- Whatever the faults, the tables change only by the insert of a correct answer behind the gate.
  pub submit_answer_tables :
      (l : LevelRow)
      → find_level id d.tables ≡ some l
      → let t' = (submit_answer table user id answer d).1.tables in
        (t' ≡ d.tables)
        ⊎ ((accessible user.id l.order_index d.tables ≡ true)
            × (is_correct table answer l.flag ≡ true)
            × (insert_or_ignore_progress user.id id d.tables d.now ≡ ok (tt, t')))
  unfolding submit_answer level_for_submit is_level_accessible current_level record_solved exec
      row_err rank
  submit_answer_tables l e = ground arith

  pub submit_answer_missing_tables :
      find_level id d.tables ≡ none → (submit_answer table user id answer d).1.tables ≡ d.tables
  unfolding submit_answer level_for_submit exec row_err is_not_found
  submit_answer_missing_tables e = ground arith

-- The response that a submission owes to the tables.
abbrev pub submitted : LowerTable → Option ℤ → UserRow → Tables → Option String → Response
submitted table none user t body = fail 400 "invalid level id"
submitted table (some id) user t none = fail 400 "invalid JSON body"
submitted table (some id) user t (some answer) =
    gated (some id) user t "invalid level id"
      (λ _ l. json 200 (correct (is_correct table answer l.flag)))

abbrev wins_at : LowerTable → Option LevelRow → UserRow → Tables → String → Bool
wins_at table none user t answer = false
wins_at table (some l) user t answer =
    accessible user.id l.order_index t && is_correct table answer l.flag

-- The submission names a level that is there and accessible, with its flag up to case.
abbrev pub wins : LowerTable → Option ℤ → UserRow → Tables → Option String → Bool
wins table none user t body = false
wins table (some id) user t none = false
wins table (some id) user t (some answer) = wins_at table (find_level id t) user t answer

abbrev pub is_id : ℤ → Option ℤ → Bool
is_id i none = false
is_id i (some id) = id == i

or_nothing : (b c : Bool) → b ≡ (b || (false && c))
or_nothing b c = ground arith

response-if :
    (b : Bool) (r s : Response) → response (if b then ok r else err s) ≡ (if b then r else s)
response-if true r s = refl
response-if false r s = refl

has_progress-if :
    (user_id id : ℤ) (t : Tables) (now : ℕ) (t' : Tables) (b : Bool)
    → insert_or_ignore_progress user_id id t now ≡ ok (tt, t')
    → (v i : ℤ)
    → has_progress v i (if b then t' else t)
      ≡ (has_progress v i t || (b && ((user_id == v) && (id == i))))
has_progress-if user_id id t now t' true h v i = has_progress-insert user_id id t now t' h v i
has_progress-if user_id id t now t' false h v i =
    or_nothing (has_progress v i t) ((user_id == v) && (id == i))

module _ (table : LowerTable) (user : UserRow) (d : Db) where
  -- What a submission has done, by its response and its solves.
  abbrev pub Submits : Option ℤ → Option String → Handler → Type 0
  Submits id body h =
      (response (h d).0 ≡ submitted table id user d.tables body)
      × ((v i : ℤ)
          → has_progress v i (h d).1.tables ≡ (
              has_progress v i d.tables
              || (wins table id user d.tables body && ((user.id == v) && is_id i id))))

  level_there :
      (id : ℤ) (t : Tables) (l : LevelRow) → find_level id t ≡ some l → HasLevel t.levels id
  unfolding find_level
  level_there id t l e = has_of_first_where (λ x. x.id == id) t.levels e

  submit_answer-Submits :
      (id : ℤ) (answer : String)
      → d.faults ≡ []
      → HasUser d.tables.users user.id
      → Submits (some id) (some answer) (submit_answer table user id answer)
  submit_answer-Submits id answer quiet known = elim (Option-cases (find_level id d.tables)) [
    | inl missing ↦
        rw (submit_answer-missing table user id answer d quiet missing, missing)
          (refl, λ v i. or_nothing (has_progress v i d.tables) ((user.id == v) && (id == i)))
    | inr (l, e) ↦
        let (t', inserted) =
          insert_succeeds user.id id d.tables d.now known (level_there id d.tables l e) in
        let through = accessible user.id l.order_index d.tables in
        rw (submit_answer-found table user id answer d l t' quiet e inserted, e)
          (
            response-if through _ _,
            has_progress-if user.id id d.tables d.now t' (through && is_correct table answer l.flag)
                inserted,
          )
  ]

  submit-Submits :
      (path : String) (id : Option ℤ) (body : Option String)
      → parse_int path ≡ id
      → d.faults ≡ []
      → HasUser d.tables.users user.id
      → Submits id body (submit_flag table user path body)
  unfolding submit_flag
  submit-Submits path none body p quiet known =
      rw p (refl, λ v i. or_nothing (has_progress v i d.tables) ((user.id == v) && false))
  submit-Submits path (some id) none p quiet known =
      rw p (refl, λ v i. or_nothing (has_progress v i d.tables) ((user.id == v) && (id == i)))
  submit-Submits path (some id) (some answer) p quiet known =
      rw p (submit_answer-Submits id answer quiet known)

-- With no fault to come, and for a user who has an account, SubmitFlag answers 400 for a bad id or
-- body, 404 for a level that does not exist, 403 for one behind the gate, and otherwise whether the
-- answer is the flag up to case; and it records a solve for that user and level exactly if the level
-- is accessible and the answer right, and no other solve is added or lost.
pub submit_exact :
    (table : LowerTable) (user : UserRow) (path : String) (body : Option String) (d : Db)
    → d.faults ≡ []
    → HasUser d.tables.users user.id
    → Submits table user d (parse_int path) body (submit_flag table user path body)
submit_exact table user path body d quiet known =
    submit-Submits table user d path (parse_int path) body refl quiet known
