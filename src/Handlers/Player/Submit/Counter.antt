-- ===== src/Handlers/Player/Submit/Counter.antt =====
-- What a player sees of SubmitFlag (internal/handlers/submit.go): under linear play the game is a
-- counter of solved levels.
use crypticquest_backend.Base.{
  ℕ, suc, ◌+◌, ◌≡◌, refl, subst, Bool, Bool-cases, true, false, not, ◌&&◌, inl, inr, ◌==◌, int_key,
  same_refl, ℤ, pos, String, some, List, [], ◌∷◌, ◌++◌, count_where, leb, nat_eq, if◌then◌else◌,
  arith,
}
use crypticquest_backend.Schema.{Tables, UserRow, LevelRow, ProgressRow}
use crypticquest_backend.Engine.{Db, ok, err}
use crypticquest_backend.Store.Users.{solved_count}
use crypticquest_backend.Store.Progress.{
  has_progress, rank, insert_or_ignore_progress, insert_progress,
}
use crypticquest_backend.Store.Levels.{find_level}
use crypticquest_backend.Store.Integrity.{IsConsistent, HasUser}
use crypticquest_backend.Store.Access.{accessible}
use crypticquest_backend.Store.Access.Linear.{IsLinear}
use crypticquest_backend.Store.Access.Place.{solved-eq-place}
use crypticquest_backend.Text.{LowerTable, parse_int}
use crypticquest_backend.Http.{Response, response, json, fail, correct}
use crypticquest_backend.Handlers.Player.{submit_flag, is_correct}
use crypticquest_backend.Handlers.Player.Submit.{insert_succeeds, level_there, submit_answer-found}

-- The game as a player has it explained: `k` levels are solved, and the answer is for the level at
-- a place of the order, counted from 1.
pub data Verdict : Type 0 where
  locked : Verdict
  judged : Bool → Verdict

abbrev pub turn : ℕ → ℕ → Bool → Verdict × ℕ
turn k place right =
    if leb place k
    then (judged right, k)
    else if nat_eq place (suc k)
    then (judged right, if right then suc k else k)
    else (locked, k)

-- Its answers as responses.
abbrev pub spoken : Verdict → Response
spoken locked = fail 403 "level locked"
spoken (judged right) = json 200 (correct right)

count_where-append_one :
    {A : Type 0} (p : A → Bool) (xs : List A) (x : A)
    → p x ≡ true
    → count_where p (xs ++ x ∷ []) ≡ suc (count_where p xs)
count_where-append_one p [] x h = rw h refl
count_where-append_one p (y ∷ xs) x h = ground (arith, count_where-append_one p xs x h)

solved_count-insert :
    (user_id level_id : ℤ) (t : Tables) (now : ℕ) (t' : Tables)
    → insert_or_ignore_progress user_id level_id t now ≡ ok (tt, t')
    → solved_count t' user_id ≡ (
        if has_progress user_id level_id t
        then solved_count t user_id
        else suc (solved_count t user_id))
unfolding insert_or_ignore_progress insert_progress solved_count
solved_count-insert user_id level_id t now t' h =
    elim (Bool-cases (has_progress user_id level_id t)) [
      | inl there ↦ rw there (
          let same : t ≡ t' = ground arith in
          subst (λ x. solved_count x user_id ≡ solved_count t user_id) same refl)
      | inr new ↦
          let row : ProgressRow = record {
            id = pos (suc t.progress_seq);
            user_id = user_id;
            level_id = level_id;
            solved_at = now;
          } in
          let rows : t'.user_progress ≡ t.user_progress ++ row ∷ [] = ground arith in
          rw new (
            rw rows (
              count_where-append_one (λ p. p.user_id == user_id) t.user_progress row
                (same_refl user_id)))
    ]

-- The turn, from the gate, the level's own state and the answer.
turn_of_gate :
    (k place : ℕ) (right through done : Bool)
    → through ≡ leb place (k + 1)
    → done ≡ leb place k
    → turn k place right ≡ (
      if through then judged right else locked,
      if (through && right) && not done then suc k else k,
    )
turn_of_gate k place true through done g s = rw (g, s) (ground arith)
turn_of_gate k place false through done g s = rw (g, s) (ground arith)

spoken-if :
    (through right : Bool)
    → response (if through then ok (json 200 (correct right)) else err (fail 403 "level locked"))
      ≡ spoken (if through then judged right else locked)
spoken-if true right = refl
spoken-if false right = refl

count_after :
    (user_id : ℤ) (t t' : Tables) (b done : Bool)
    → solved_count t' user_id
      ≡ (if done then solved_count t user_id else suc (solved_count t user_id))
    → solved_count (if b then t' else t) user_id
      ≡ (if b && not done then suc (solved_count t user_id) else solved_count t user_id)
count_after user_id t t' true true h = h
count_after user_id t t' true false h = h
count_after user_id t t' false done h = refl

-- With no fault to come, on consistent tables, for a user who has an account and has played
-- linearly, and for a level that exists, SubmitFlag takes exactly the turn of the counter: the
-- response is the verdict and the number of solved levels is the next count, from the count before,
-- the level's place in the order, and whether the answer is its flag.
pub submit_refines :
    (table : LowerTable) (user : UserRow) (path : String) (answer : String) (l : LevelRow) (d : Db)
    → IsConsistent d.tables
    → d.faults ≡ []
    → HasUser d.tables.users user.id
    → IsLinear user.id d.tables
    → parse_int path ≡ some l.id
    → find_level l.id d.tables ≡ some l
    → let (r, d') = submit_flag table user path (some answer) d in
      let (verdict, k) =
        turn
          (solved_count d.tables user.id)
          (rank l.order_index d.tables.levels)
          (is_correct table answer l.flag) in
      (response r ≡ spoken verdict) × (solved_count d'.tables user.id ≡ k)
unfolding submit_flag
submit_refines table user path answer l d c quiet known linear p e =
    let t = d.tables in
    let (t', inserted) =
      insert_succeeds user.id l.id t d.now known (level_there table user d l.id t l e) in
    let k = solved_count t user.id in
    let place = rank l.order_index t.levels in
    let through = accessible user.id l.order_index t in
    let done = has_progress user.id l.id t in
    let right = is_correct table answer l.flag in
    rw p (
      rw (submit_answer-found table user l.id answer d l t' quiet e inserted) (
        rw (turn_of_gate k place right through done refl (solved-eq-place user.id t l c linear e)) (
          spoken-if through right,
          count_after user.id t t' (through && right) done
              (solved_count-insert user.id l.id t d.now t' inserted),
        )))
