-- ===== src/Tests/Requests.antt =====
-- The theorems on the requests of players at the database of the tests, and runs of the handlers.
use crypticquest_backend.Base.{
  ◌*◌, ◌^◌, ◌≡◌, refl, ◌⊎◌, pos, true, none, some, [], ◌∷◌, int_eq, int_leb, int_key, arith,
}
use crypticquest_backend.Schema.{UserRow}
use crypticquest_backend.Engine.{Db, ok, err, exec}
use crypticquest_backend.Store.Users.{solved_count}
use crypticquest_backend.Store.Progress.{
  has_progress, rank, current_level, is_level_accessible, record_solved, insert_or_ignore_progress,
  insert_progress,
}
use crypticquest_backend.Store.Levels.{find_level, level_for_submit}
use crypticquest_backend.Store.Sessions.{Session, find_session, scan_time}
use crypticquest_backend.Store.Access.Linear.{IsLinear}
use crypticquest_backend.Text.{LowerTable, parse_int}
use crypticquest_backend.Http.{Handler, response, json, fail, with_cookies, clear, correct}
use crypticquest_backend.Middleware.{Clock, require_login, require_admin}
use crypticquest_backend.Middleware.Sessions.{
  session_at, Admits, require_login_rejects, require_login_expires, require_login-Admits,
}
use crypticquest_backend.Middleware.Admin.{require_admin_rejects}
use crypticquest_backend.Handlers.Player.{
  Listing, submit_flag, submit_answer, get_level, me_handler, is_correct,
}
use crypticquest_backend.Handlers.Player.Gate.{gated, list_answer, get_level_exact}
use crypticquest_backend.Handlers.Player.Submit.{Submits, submit_exact}
use crypticquest_backend.Handlers.Player.Submit.Linear.{submit-IsLinear}
use crypticquest_backend.Handlers.Player.FlagBlind.{PlayerRead, read, read_flag_blind}
use crypticquest_backend.Tests.{
  db, tables, tables-IsConsistent, gate_level, door_level, tower_level, ada,
}
use crypticquest_backend.Tests.Access.{ada_IsLinear}

abbrev lower : LowerTable
lower c = c

submit_exact_example :
    Submits lower ada db (parse_int "1") (some "KEY") (submit_flag lower ada "1" (some "KEY"))
unfolding int_eq
submit_exact_example = submit_exact lower ada "1" (some "KEY") db refl refl

-- Ada solves Gate with its flag in another case; Tower is still locked.
submit_runs :
    ((submit_flag lower ada "1" (some "KEY") db).0 ≡ ok (json 200 (correct true)))
    × ((submit_flag lower ada "3" (some "Top") db).0 ≡ err (fail 403 "level locked"))
unfolding submit_flag submit_answer parse_int int_eq int_leb exec level_for_submit
    is_level_accessible current_level record_solved insert_or_ignore_progress insert_progress
    has_progress find_level rank solved_count is_correct
submit_runs = (refl, refl)

submit-IsLinear_example : IsLinear (pos 2) (submit_flag lower ada "1" (some "KEY") db).1.tables
submit-IsLinear_example =
    submit-IsLinear lower ada "1" (some "KEY") db (pos 2) tables-IsConsistent ada_IsLinear
      ada_IsLinear

abbrev listing : Listing
listing id = some ("input.txt" ∷ [])

get_level_exact_example :
    (response (get_level listing ada "1" db).0
      ≡ gated
          (parse_int "1")
          ada
          tables
          "invalid level id"
          (λ id l. list_answer (listing id) ada tables l))
    × ((get_level listing ada "1" db).1.tables ≡ tables)
get_level_exact_example = get_level_exact listing ada "1" db refl

-- Another flag for Gate.
abbrev other_flags : Db
other_flags = record db {
  tables = record tables {
    levels = record gate_level { flag = "Secret" } ∷ door_level ∷ tower_level ∷ [];
  };
}

read_flag_blind_example :
    response (read listing ada (PlayerRead.level "1") db).0
    ≡ response (read listing ada (PlayerRead.level "1") other_flags).0
read_flag_blind_example =
    read_flag_blind listing ada (PlayerRead.level "1") db other_flags refl refl refl

-- Ada's session ends at 2 * 10 ^ 15 nanoseconds.
abbrev early : Clock
early = record { at_expiry = 10 ^ 15; at_threshold = 10 ^ 15; at_refresh = 10 ^ 15 }

abbrev late : Clock
late = record { at_expiry = 10 ^ 16; at_threshold = 10 ^ 16; at_refresh = 10 ^ 16 }

abbrev ada_session : Session
ada_session = record { token = "t-ada"; user_id = pos 2; expires_at = 2 * 10 ^ 15 }

abbrev refused : UserRow → Handler
refused user d = (err (fail 500 "other"), d)

require_login-Admits_example : Admits early "t-ada" me_handler db ada
unfolding find_session scan_time int_eq
require_login-Admits_example =
    require_login-Admits early "t-ada" me_handler db ada_session ada refl (omega arith) refl
      (omega arith)

require_login_expires_example :
    (response (require_login late (some "t-ada") me_handler db).0
      ≡ with_cookies (clear ∷ []) (fail 401 "session expired"))
    × (session_at (some "t-ada") (require_login late (some "t-ada") me_handler db).1.tables ≡ none)
unfolding find_session scan_time int_eq
require_login_expires_example =
    require_login_expires late "t-ada" me_handler db ada_session ada refl refl (omega arith)

require_login_rejects_example :
    (require_login early (some "t-eve") me_handler db
      ≡ require_login early (some "t-eve") refused db)
    × (((response (require_login early (some "t-eve") me_handler db).0).status ≡ 401)
        ⊎ ((response (require_login early (some "t-eve") me_handler db).0).status ≡ 500))
unfolding find_session
require_login_rejects_example =
    require_login_rejects early (some "t-eve") me_handler refused db refl

require_admin_rejects_example :
    (require_admin early (some "t-ada") me_handler db
      ≡ require_admin early (some "t-ada") refused db)
    × (let status = (response (require_admin early (some "t-ada") me_handler db).0).status in
        (status ≡ 401) ⊎ (status ≡ 403) ⊎ (status ≡ 500))
unfolding find_session scan_time int_eq
require_admin_rejects_example =
    require_admin_rejects early (some "t-ada") me_handler refused db refl
