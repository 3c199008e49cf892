-- ===== src/Handlers/Player/Submit/Playable.antt =====
-- The game can be played to its end by SubmitFlag (internal/handlers/submit.go).
use crypticquest_backend.Base.{
  ℕ, ◌≡◌, refl, sym, ◌∙◌, ap, subst, Bool, true, false, ◌&&◌, ◌||◌, ◌==◌, int_key, same_refl, ℤ,
  String, some, List, [], ◌∷◌, map, has, first_where, order_by, length, All, All-mono, All-order_by,
  IsIncreasing, IsIncreasing-order_by, own_lookup, has_of_first_where, suc, has-order_by, arith,
}
use crypticquest_backend.Schema.{Tables, UserRow, LevelRow}
use crypticquest_backend.Engine.{Db, ok}
use crypticquest_backend.Engine.Laws.{Leaves}
use crypticquest_backend.Store.Progress.{has_progress, insert_or_ignore_progress, insert_progress}
use crypticquest_backend.Store.Levels.{find_level}
use crypticquest_backend.Store.Integrity.{IsConsistent, HasUser}
use crypticquest_backend.Store.Integrity.Progress.{insert_or_ignore_progress-IsConsistent}
use crypticquest_backend.Store.Access.{accessible}
use crypticquest_backend.Store.Access.Linear.{is_before}
use crypticquest_backend.Store.Access.Next.{accessible_after}
use crypticquest_backend.Store.Access.Rest.{IsRow, before_solved, done_after}
use crypticquest_backend.Store.Access.Play.{has_progress-insert, levels-insert}
use crypticquest_backend.Text.{LowerTable, parse_int, to_lower, codes_eq_refl}
use crypticquest_backend.Http.{Response, response, json, correct}
use crypticquest_backend.Handlers.Player.{submit_flag, is_correct}
use crypticquest_backend.Handlers.Player.Submit.{insert_succeeds, level_there, submit_answer-found}

-- One submission after another, with their responses.
abbrev pub play : LowerTable → UserRow → List (String × String) → Db → List Response × Db
play table user [] d = ([], d)
play table user (x ∷ xs) d =
    let (r, d') = submit_flag table user x.0 (some x.1) d in
    let (rs, d'') = play table user xs d' in (response r ∷ rs, d'')

-- The flags of the levels in their order, sent to the paths that name the levels.
abbrev pub walkthrough : (ℤ → String) → Tables → List (String × String)
walkthrough path t = map (λ l. (path l.id, l.flag)) (order_by (λ l. l.order_index) t.levels)

is_correct_refl : (table : LowerTable) (flag : String) → is_correct table flag flag ≡ true
unfolding is_correct
is_correct_refl table flag = codes_eq_refl (to_lower table flag)

users-insert :
    (user_id level_id : ℤ) (t : Tables) (now : ℕ) (t' : Tables)
    → insert_or_ignore_progress user_id level_id t now ≡ ok (tt, t')
    → t'.users ≡ t.users
unfolding insert_or_ignore_progress insert_progress
users-insert user_id level_id t now t' h = ground arith

-- A flag that is sent to a level behind the gate.
submit_wins :
    (table : LowerTable) (user : UserRow) (path : String) (l : LevelRow) (d : Db)
    → d.faults ≡ []
    → HasUser d.tables.users user.id
    → find_level l.id d.tables ≡ some l
    → parse_int path ≡ some l.id
    → accessible user.id l.order_index d.tables ≡ true
    → (t' : Tables) × (submit_flag table user path (some l.flag) d
        ≡ (ok (json 200 (correct true)), record d { tables = t' }))
      × (insert_or_ignore_progress user.id l.id d.tables d.now ≡ ok (tt, t'))
unfolding submit_flag
submit_wins table user path l d quiet known e p open_gate =
    let (t', inserted) =
      insert_succeeds user.id l.id d.tables d.now known
        (level_there table user d l.id d.tables l e) in
    (
      t',
      rw p (
          submit_answer-found table user l.id l.flag d l t' quiet e inserted
          ∙ rw (open_gate, is_correct_refl table l.flag) refl),
      inserted,
    )

module _ (table : LowerTable) (user : UserRow) (path : ℤ → String) where
  -- How the play of a list of levels ends.
  abbrev pub Finishes : List LevelRow → List LevelRow → List Response × Db → Type 0
  Finishes levels rest (rs, d') =
      All (λ r. r ≡ json 200 (correct true)) rs
      × (length rs ≡ length rest)
      × (d'.tables.levels ≡ levels)
      × All (λ m. has_progress user.id m.id d'.tables ≡ true) levels

  finish_cons :
      (levels rest : List LevelRow) (l : LevelRow) (xs : List (String × String)) (d d' : Db)
      → submit_flag table user (path l.id) (some l.flag) d ≡ (ok (json 200 (correct true)), d')
      → Finishes levels rest (play table user xs d')
      → Finishes levels (l ∷ rest) (play table user ((path l.id, l.flag) ∷ xs) d)
  finish_cons levels rest l xs d d' ran (right, number, kept, all) =
      subst
        (λ p.
          Finishes levels (l ∷ rest)
            (response p.0 ∷ (play table user xs p.1).0, (play table user xs p.1).1))
        (sym ran) ((refl, right), ap suc number, kept, all)

  play_rest :
      (levels rest : List LevelRow) (d : Db)
      → IsConsistent d.tables
      → d.faults ≡ []
      → HasUser d.tables.users user.id
      → d.tables.levels ≡ levels
      → All (IsRow levels) levels
      → All (IsRow levels) rest
      → IsIncreasing (λ l. l.order_index) rest
      → All (λ l. parse_int (path l.id) ≡ some l.id) rest
      → All
          (λ m. has (λ r. r.id == m.id) rest ≡ false → has_progress user.id m.id d.tables ≡ true)
          levels
      → Finishes levels rest (play table user (map (λ l. (path l.id, l.flag)) rest) d)
  unfolding find_level
  play_rest levels [] d c quiet known e own rows inc paths done =
      (tt, refl, e, All-mono _ _ levels (λ m h. h refl) done)
  play_rest levels (l ∷ rest) d c quiet known e own (row, rows) (above, inc) (p, paths) done =
      let solved = λ (m : LevelRow). has_progress user.id m.id d.tables in
      let there : find_level l.id d.tables ≡ some l =
        subst (λ ls. first_where (λ x. x.id == l.id) ls ≡ some l) (sym e) row in
      let before = before_solved levels solved l rest own (row, rows) above done in
      let open_gate =
        accessible_after user.id d.tables l c there
          (subst (All (λ m. is_before m l ≡ true → solved m ≡ true)) (sym e) before) in
      let (t', ran, inserted) =
        submit_wins table user (path l.id) l d quiet known there p open_gate in
      let solves = λ (m : LevelRow).
        has_progress-insert user.id l.id d.tables d.now t' inserted user.id m.id
        ∙ own_user _ (user.id == user.id) (l.id == m.id) (same_refl user.id) in
      let d' : Db = record d { tables = t' } in
      finish_cons levels rest l _ d d' ran (
        play_rest levels rest d' (kept_consistent d t' inserted c) quiet
          (rw (users-insert user.id l.id d.tables d.now t' inserted) known)
          (levels-insert user.id l.id d.tables d.now t' inserted ∙ e) own rows inc paths
          (done_after levels solved (λ m. has_progress user.id m.id t') l rest solves done))
    where
      own_user : (a b c : Bool) → b ≡ true → (a || (b && c)) ≡ (a || c)
      own_user a b c h = rw h refl

      kept_consistent :
          (d : Db) (t' : Tables)
          → insert_or_ignore_progress user.id l.id d.tables d.now ≡ ok (tt, t')
          → IsConsistent d.tables
          → IsConsistent t'
      kept_consistent d t' h c =
          subst (Leaves IsConsistent) h
            (insert_or_ignore_progress-IsConsistent user.id l.id d.tables d.now c)

-- With no fault to come, on consistent tables, and for a user who has an account: whatever the user
-- has solved before, sending the flags of all levels in their order is answered "correct" every
-- time, and leaves every level solved. The paths are those that are read as the ids of the levels.
pub walkthrough-Finishes :
    (table : LowerTable) (user : UserRow) (path : ℤ → String) (d : Db)
    → IsConsistent d.tables
    → d.faults ≡ []
    → HasUser d.tables.users user.id
    → All (λ l. parse_int (path l.id) ≡ some l.id) d.tables.levels
    → Finishes table user path d.tables.levels
        (order_by (λ l. l.order_index) d.tables.levels)
        (play table user (walkthrough path d.tables) d)
walkthrough-Finishes table user path d c quiet known paths =
    let key = λ (l : LevelRow). l.order_index in
    let levels = d.tables.levels in
    let own = own_lookup (λ l. l.id) levels c.levels.0 in
    play_rest table user path levels (order_by key levels) d c quiet known refl own
      (All-order_by key _ levels own) (IsIncreasing-order_by key levels c.levels.1)
      (All-order_by key _ levels paths)
      (All-mono _ _ levels
        (λ m row out. absurd (
          cc (
            sym (has_of_first_where (λ x. x.id == m.id) levels row)
            ∙ (sym (has-order_by key (λ r. r.id == m.id) levels) ∙ out))))
        own)
