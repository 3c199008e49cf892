-- ===== src/Tests/Accounts.antt =====
-- The theorems on accounts at the database of the tests, and runs of the handlers.
use crypticquest_backend.Base.{
  ◌+◌, ◌*◌, ◌^◌, ◌≡◌, refl, ◌==◌, ◌++◌, string_key, String, pos, Bool, true, false, Option, none,
  some, [], ◌∷◌, int_eq, int_key, arith, has, if◌then◌else◌,
}
use crypticquest_backend.Engine.{Db, ok, err, exec}
use crypticquest_backend.Store.Users.{user_by_username}
use crypticquest_backend.Store.Sessions.{create_session, insert_session, format_time, find_session}
use crypticquest_backend.Text.{parse_int}
use crypticquest_backend.Store.Write.{Write, perform}
use crypticquest_backend.Store.Write.Open.{Meanwhile, spares}
use crypticquest_backend.Http.{
  Response, response, json, fail, with_cookies, set, logged_in, temp_password,
}
use crypticquest_backend.Middleware.{Clock, session_ttl}
use crypticquest_backend.Middleware.Sessions.{Admits}
use crypticquest_backend.Handlers.Player.{me_handler}
use crypticquest_backend.Handlers.Account.{Credentials, register, login}
use crypticquest_backend.Handlers.Account.Login.{named, login_refuses}
use crypticquest_backend.Handlers.Account.Register.{
  registration, joined, register_exact, login-Admits,
}
use crypticquest_backend.Handlers.Admin.Users.{admin_reset_password}
use crypticquest_backend.Handlers.Admin.Users.Keeps.{IsAdmin}
use crypticquest_backend.Handlers.Admin.Users.Lockout.{UserRequest, serve, serve-IsAdmin}
use crypticquest_backend.Handlers.Admin.Users.Reset.{is_of, reset_exact}
use crypticquest_backend.Tests.{db, tables, tables-IsConsistent, ada, root}

-- A hash that can be read.
abbrev hash : String → Option String
hash password = some (if password == "open sesame" then "h(second)" else "h(other)")

abbrev check : String → String → Bool
check stored password =
    if password == "open sesame" then stored == "h(second)" else stored == "h(other)"

abbrev right : Credentials
right = record { username = "ada"; password = "open sesame" }

abbrev wrong : Credentials
wrong = record { username = "ada"; password = "guess" }

login_refuses_example :
    login check (some "t-new") (10 ^ 15) (some wrong) db
    ≡ (err (fail 401 "invalid username or password"), db)
login_refuses_example = login_refuses check (some "t-new") (10 ^ 15) wrong db refl refl refl

abbrev logged : Db
logged = record db {
  tables = record tables {
    sessions =
        tables.sessions ++ record { token = "t-new"; user_id = pos 2; expires_at = 3592000 } ∷ [];
  };
}

abbrev greeting : Response
greeting =
    with_cookies (set "t-new" (10 ^ 15 + session_ttl) ∷ [])
      (json 200 (logged_in (pos 2) "ada" "player"))

login_runs : login check (some "t-new") (10 ^ 15) (some right) db ≡ (ok greeting, logged)
unfolding login user_by_username create_session insert_session format_time exec int_eq
login_runs = refl

abbrev tomorrow : Clock
tomorrow = record { at_expiry = 2 * 10 ^ 15; at_threshold = 2 * 10 ^ 15; at_refresh = 2 * 10 ^ 15 }

-- Meanwhile Ada solves Gate, her session is extended, and the admin leaves.
abbrev later : Db
later =
    record (perform (Write.delete_session "t-root")
      (perform (Write.refresh_session "t-new" (2 * 10 ^ 15 + session_ttl))
        (perform (Write.record_solved (pos 2) (pos 1)) logged).1).1).1 { now = 2000; faults = [] }

busy : Meanwhile (spares "t-new" (pos 2) (10 ^ 15 + session_ttl)) logged later
unfolding int_eq
busy = Meanwhile.wait 2000 [] (
    Meanwhile.write (Write.delete_session "t-root")
      (Meanwhile.write (Write.refresh_session "t-new" (2 * 10 ^ 15 + session_ttl))
        (Meanwhile.write (Write.record_solved (pos 2) (pos 1)) Meanwhile.here refl) refl)
      refl)

login-Admits_example :
    (check ada.password_hash "open sesame" ≡ true) × Admits tomorrow "t-new" me_handler later ada
unfolding login user_by_username create_session insert_session format_time exec int_eq
login-Admits_example =
    login-Admits check "t-new" (10 ^ 15) right db greeting ada tomorrow me_handler later
      tables-IsConsistent refl refl busy refl refl (omega arith) (omega arith)

abbrev newcomer : Credentials
newcomer = record { username = "grace"; password = "open sesame" }

register_exact_example :
    (response (register hash (some newcomer) db).0
      ≡ registration newcomer
          (hash "open sesame")
          (has (λ u. u.username == "grace") tables.users)
          2)
    × ((register hash (some newcomer) db).1.tables.users
        ≡ tables.users
          ++ joined newcomer
              (hash "open sesame")
              (has (λ u. u.username == "grace") tables.users)
              2
              1000)
register_exact_example = register_exact hash newcomer db refl

-- The admin tries to become a player.
abbrev step_down : UserRequest
step_down = UserRequest.update "1" (some (record { role = some "player"; level = none }))

serve-IsAdmin_example : IsAdmin (pos 1) (serve root step_down db).1.tables
unfolding int_eq
serve-IsAdmin_example = serve-IsAdmin root step_down db refl

reset_exact_example :
    let (r, d') = admin_reset_password "2" (some "temp") hash db in
    (r ≡ ok (json 200 (temp_password "temp")))
    × (named "ada" d'.tables ≡ some (record ada { password_hash = "h(other)" }))
    × ((token : String) → is_of (pos 2) (find_session token d'.tables) ≡ false)
unfolding parse_int int_eq
reset_exact_example =
    reset_exact (pos 2) "2" "temp" "h(other)" hash db ada tables-IsConsistent refl refl refl refl
