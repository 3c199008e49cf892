-- ===== src/Tests/Game.antt =====
-- The theorems on whole games at the database of the tests.
use crypticquest_backend.Base.{
  ◌≡◌, refl, String, int_eq, int_leb, Bool-cases, sym, ◌∙◌, false, inl, inr, subst, int_eq_iff,
  ◌==◌, ℤ, pos, true, some, [], ◌∷◌, order_by, int_key, nat_eq, if◌then◌else◌,
}
use mathlib.Core.Bool.{false≢true}
use crypticquest_backend.Schema.{Tables}
use crypticquest_backend.Store.Users.{solved_count, delete_user, delete_user_row}
use crypticquest_backend.Store.Progress.{
  rank, has_progress, insert_or_ignore_progress, insert_progress,
}
use crypticquest_backend.Engine.{exec}
use crypticquest_backend.Store.Sessions.{delete_session, delete_session_rows}
use crypticquest_backend.Store.Write
use crypticquest_backend.Store.Write.Played.{perform-IsPlayed}
use crypticquest_backend.Store.Access.Edit.{IsPlayed}
use crypticquest_backend.Store.Write.{perform}
use crypticquest_backend.Store.Levels.{find_level, AdminLevelInput}
use crypticquest_backend.Text.{LowerTable, parse_int, lower_rune}
use crypticquest_backend.Http.{response}
use crypticquest_backend.Handlers.Player.{submit_flag, is_correct}
use crypticquest_backend.Handlers.Player.Submit.Playable.{
  play, walkthrough, Finishes, walkthrough-Finishes,
}
use crypticquest_backend.Handlers.Player.Submit.Counter.{spoken, judged, submit_refines}
use crypticquest_backend.Handlers.Player.Submit.Interleaved.{
  Phase, asked, found, counted, passed, answered, Run, start, arrive, step, aside, leave, advance,
}
use crypticquest_backend.Store.Access.{accessible}
use crypticquest_backend.Handlers.Player.Submit.Races.{Run-IsLinear}
use crypticquest_backend.Store.Integrity.{IsConsistent}
use crypticquest_backend.Store.Access.Linear.{IsLinear}
use crypticquest_backend.Tests.{db, tables, tables-IsConsistent, gate_level, tower_level, ada}
use crypticquest_backend.Tests.Access.{ada_IsLinear}

abbrev lower : LowerTable
lower c = c

abbrev path : ℤ → String
path (pos n) = if nat_eq n 1 then "1" else if nat_eq n 2 then "2" else "3"
path _ = "0"

-- Door, Gate, Tower, whatever the order of their rows.
walkthrough_runs : walkthrough path tables ≡ ("2", "Knock") ∷ ("1", "Key") ∷ ("3", "Top") ∷ []
unfolding int_leb
walkthrough_runs = refl

walkthrough-Finishes_example :
    Finishes lower ada path tables.levels
      (order_by (λ l. l.order_index) tables.levels)
      (play lower ada (walkthrough path tables) db)
unfolding int_eq parse_int
walkthrough-Finishes_example =
    walkthrough-Finishes lower ada path db tables-IsConsistent refl refl (refl, (refl, (refl, tt)))

-- Gate is the second level, and Ada has solved one.
submit_refines_example :
    let (r, d') = submit_flag lower ada "1" (some "Key") db in
    (response r ≡ spoken (judged true)) × (solved_count d'.tables (pos 2) ≡ 2)
unfolding int_eq int_leb find_level parse_int solved_count rank is_correct lower_rune
submit_refines_example =
    submit_refines lower ada "1" "Key" gate_level db tables-IsConsistent refl refl ada_IsLinear refl
      refl

-- Only Ada has solved anything.
others_unsolved : (v i : ℤ) → (pos 2 == v) ≡ false → has_progress v i tables ≡ false
unfolding has_progress
others_unsolved v i other = rw other refl

everybody_IsLinear : (v : ℤ) → IsLinear v tables
everybody_IsLinear v = elim (Bool-cases (pos 2 == v)) [
  | inl own ↦ subst (λ w. IsLinear w tables) ((int_eq_iff (pos 2) v).0 own) ada_IsLinear
  | inr other ↦
      let unsolved = λ (i : ℤ) (s : has_progress v i tables ≡ true).
        false≢true (sym (others_unsolved v i other) ∙ s) in
      (
        (λ s. absurd (unsolved (pos 1) s)),
        ((λ s. absurd (unsolved (pos 2) s)), ((λ s. absurd (unsolved (pos 3) s)), tt)),
      )
]

-- Without the session of the admin.
abbrev left : Tables
left = record tables {
  sessions = record { token = "t-ada"; user_id = pos 2; expires_at = 2000000 } ∷ [];
}

-- And without the account.
abbrev gone : Tables
gone = record left { users = ada ∷ [] }

-- Ada sends the flag of Gate twice, and the two requests take turns; the admin's session
-- and account are deleted in between.
abbrev after_both : Tables
after_both = record gone {
  user_progress =
      record { id = pos 1; user_id = pos 2; level_id = pos 2; solved_at = 300 }
      ∷ record { id = pos 2; user_id = pos 2; level_id = pos 1; solved_at = 1000 }
      ∷ [];
  progress_seq = 2;
}

abbrev sent : Phase
sent = asked (pos 2) (pos 1) "Key"

abbrev known : Phase
known = found (pos 2) (pos 1) "Key" (pos 20) "Key"

abbrev counting : Phase
counting = counted (pos 2) (pos 1) "Key" (pos 20) "Key" 2

abbrev let_in : Phase
let_in = passed (pos 2) (pos 1) "Key" "Key"

both_known : Run lower tables tables (known ∷ known ∷ [])
unfolding advance find_level int_eq
both_known =
    step 1000 (known ∷ []) [] sent
      (step 1000 [] (sent ∷ []) sent
        (arrive (pos 2) (pos 1) "Key" (arrive (pos 2) (pos 1) "Key" start)) refl)
      refl

both_let_in : Run lower tables tables (let_in ∷ let_in ∷ [])
unfolding advance rank solved_count int_eq int_leb
both_let_in =
    step 1000 (let_in ∷ []) [] counting
      (step 1000 [] (counting ∷ []) counting
        (step 1000 (counting ∷ []) [] known (step 1000 [] (known ∷ []) known both_known refl) refl)
        refl)
      refl

admin_left : Run lower tables left (let_in ∷ let_in ∷ [])
unfolding perform delete_session delete_session_rows exec
admin_left = aside (Write.delete_session "t-root") 1000 [] both_let_in refl

admin_gone : Run lower tables gone (let_in ∷ let_in ∷ [])
unfolding perform delete_user delete_user_row exec int_eq
admin_gone = leave (pos 1) 1000 [] admin_left

both_answered : Run lower tables after_both (answered ∷ answered ∷ [])
unfolding advance is_correct lower_rune insert_or_ignore_progress insert_progress has_progress
    int_eq
both_answered =
    step 1001 (answered ∷ []) [] let_in (step 1000 [] (let_in ∷ []) let_in admin_gone refl) refl

Run-IsLinear_example : IsConsistent after_both × ((v : ℤ) → IsLinear v after_both)
Run-IsLinear_example =
    Run-IsLinear lower tables after_both (answered ∷ answered ∷ []) tables-IsConsistent
      everybody_IsLinear both_answered

-- Door is deleted between the two queries of the gate: Ada's count of solved levels is still with it,
-- the rank of Tower without it, and she is let through to Tower past the unsolved Gate.
abbrev without_door : Tables
without_door = record tables {
  levels = gate_level ∷ tower_level ∷ [];
  user_progress = [];
  tools = [];
}

stale_count :
    ((advance lower 1000 without_door (counted (pos 2) (pos 3) "Top" (pos 30) "Top" 2)).1
      ≡ passed (pos 2) (pos 3) "Top" "Top")
    × (accessible (pos 2) (pos 30) without_door ≡ false)
unfolding advance rank int_leb solved_count
stale_count = (refl, refl)

-- A level between Door, which Ada has solved, and Gate, which nobody has.
abbrev hall : AdminLevelInput
hall = record { order_index = pos 15; title = "Hall"; description = "between"; flag = "Echo" }

perform-IsPlayed_example : IsPlayed (perform (Write.create_level hall) db).1.tables
unfolding int_leb int_eq
perform-IsPlayed_example =
    perform-IsPlayed (Write.create_level hall) db tables-IsConsistent everybody_IsLinear
      ((λ e. refl), ((λ e. absurd (cc e)), ((λ e. refl), tt)))
