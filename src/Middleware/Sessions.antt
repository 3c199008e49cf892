-- ===== src/Middleware/Sessions.antt =====
-- RequireLogin (internal/middleware/auth.go): whom it lets through, and with which session.
use crypticquest_backend.Base.{
  ℕ, ◌+◌, ◌≤◌, ◌<◌, ◌≡◌, refl, String, ◌==◌, string_key, int_key, true, false, Option, none, some,
  List, [], ◌∷◌, ltb, rows_without, update_where, if◌then◌else◌, inl, inr, ◌⊎◌, Bool-cases, arith,
}
use crypticquest_backend.Schema.{Tables, UserRow}
use crypticquest_backend.Engine.{Db, ok, err, exec}
use crypticquest_backend.Store.Errors.{row_err, is_not_found}
use crypticquest_backend.Store.Sessions.{
  Session, session_by_token, delete_session, refresh_session, find_session, delete_session_rows,
  update_session_rows, format_time, scan_time,
}
use crypticquest_backend.Store.Sessions.Lookup.{
  find_session-token, find_session-delete, find_session-update,
}
use crypticquest_backend.Http.{Cookie, Handler, response, fail, with_cookies, set, clear}
use crypticquest_backend.Middleware.{Clock, require_login, session_ttl, session_refresh_threshold}

-- The session of the cookie, with its user.
abbrev pub session_at : Option String → Tables → Option (Session × UserRow)
session_at none t = none
session_at (some token) t = if token == "" then none else find_session token t

-- The session has not expired.
abbrev pub live : Clock → Option (Session × UserRow) → Option (Session × UserRow)
live clock none = none
live clock (some (s, u)) = if ltb s.expires_at clock.at_expiry then none else some (s, u)

-- A request without a session that is there and has not expired gets a 401 or a 500, and the
-- handler behind RequireLogin has no part in it: with any other handler the outcome is the same.
pub require_login_rejects :
    (clock : Clock) (cookie : Option String) (next other : UserRow → Handler) (d : Db)
    → live clock (session_at cookie d.tables) ≡ none
    → (require_login clock cookie next d ≡ require_login clock cookie other d)
      × (((response (require_login clock cookie next d).0).status ≡ 401)
          ⊎ ((response (require_login clock cookie next d).0).status ≡ 500))
unfolding require_login session_by_token delete_session exec row_err is_not_found
require_login_rejects clock none next other d h = (refl, inl refl)
require_login_rejects clock (some token) next other d h = ground arith

session_at-some :
    (token : String) (t : Tables) (x : Session × UserRow)
    → session_at (some token) t ≡ some x
    → ((token == "") ≡ false) × (find_session token t ≡ some x)
session_at-some token t x h = ground arith

expires :
    (clock : Clock) (token : String) (next : UserRow → Handler) (d : Db) (s : Session) (u : UserRow)
    → d.faults ≡ []
    → (token == "") ≡ false
    → find_session token d.tables ≡ some (s, u)
    → s.token ≡ token
    → s.expires_at < clock.at_expiry
    → require_login clock (some token) next d ≡ (
      err (with_cookies (clear ∷ []) (fail 401 "session expired")),
      record d {
        tables = record d.tables {
          sessions = rows_without (λ x. x.token == token) d.tables.sessions;
        };
      },
    )
unfolding require_login session_by_token delete_session exec row_err delete_session_rows
expires clock token next d s u quiet named e same h = ground arith

-- With no fault to come, an expired session is deleted: the request gets a 401 that clears the
-- cookie, and afterwards the tables have no session for the cookie's token, so that it cannot be
-- used again.
pub require_login_expires :
    (clock : Clock) (token : String) (next : UserRow → Handler) (d : Db) (s : Session) (u : UserRow)
    → d.faults ≡ []
    → session_at (some token) d.tables ≡ some (s, u)
    → s.expires_at < clock.at_expiry
    → (response (require_login clock (some token) next d).0
        ≡ with_cookies (clear ∷ []) (fail 401 "session expired"))
      × (session_at (some token) (require_login clock (some token) next d).1.tables ≡ none)
require_login_expires clock token next d s u quiet e h =
    let (named, found) = session_at-some token d.tables (s, u) e in
    let same = find_session-token token d.tables s u found in
    rw (expires clock token next d s u quiet named found same h)
      (refl, rw named (find_session-delete token d.tables))

-- What the handler is given: the user of the session, and a database in which the session is still
-- the user's, and lasts for the refresh threshold at least.
pub record Admits (clock : Clock) (token : String) (next : UserRow → Handler) (d : Db) (u : UserRow)
    : Type 0 where
  pub cookies : List Cookie
  pub behind : Db
  pub session : Session
  pub served :
      require_login clock (some token) next d
      ≡ (ok (with_cookies cookies (response (next u behind).0)), (next u behind).1)
  pub found : session_at (some token) behind.tables ≡ some (session, u)
  pub lasts : clock.at_threshold + session_refresh_threshold ≤ session.expires_at
  pub users_same : behind.tables.users ≡ d.tables.users

slid : Clock → String → Db → Db
slid clock token d = record d {
  tables = record d.tables {
    sessions =
        update_where (λ x. x.token == token)
          (λ x. record x { expires_at = format_time (clock.at_refresh + session_ttl) })
          d.tables.sessions;
  };
}

serves_fresh :
    (clock : Clock) (token : String) (next : UserRow → Handler) (d : Db) (s : Session) (u : UserRow)
    → d.faults ≡ []
    → (token == "") ≡ false
    → find_session token d.tables ≡ some (s, u)
    → ltb s.expires_at clock.at_expiry ≡ false
    → ltb s.expires_at (clock.at_threshold + session_refresh_threshold) ≡ false
    → require_login clock (some token) next d
      ≡ (ok (with_cookies [] (response (next u d).0)), (next u d).1)
unfolding require_login session_by_token exec row_err
serves_fresh clock token next d s u quiet named e alive far = ground arith

serves_slid :
    (clock : Clock) (token : String) (next : UserRow → Handler) (d : Db) (s : Session) (u : UserRow)
    → d.faults ≡ []
    → (token == "") ≡ false
    → find_session token d.tables ≡ some (s, u)
    → s.token ≡ token
    → ltb s.expires_at clock.at_expiry ≡ false
    → ltb s.expires_at (clock.at_threshold + session_refresh_threshold) ≡ true
    → require_login clock (some token) next d ≡ (
      ok (
          with_cookies
            (set token (clock.at_refresh + session_ttl) ∷ [])
            (response (next u (slid clock token d)).0)),
      (next u (slid clock token d)).1,
    )
unfolding require_login session_by_token refresh_session update_session_rows exec row_err slid
serves_slid clock token next d s u quiet named e same alive near = ground arith

-- Whole seconds lose less than the half of the session's life that the threshold leaves.
truncated_lasts :
    (now later : ℕ)
    → now ≤ later
    → now + session_refresh_threshold ≤ scan_time (format_time (later + session_ttl))
unfolding scan_time format_time
truncated_lasts now later h = omega arith

-- With no fault to come, and with clock readings in their order, RequireLogin serves a request with
-- a session that has not expired, and runs the handler as the session's user, with the user's
-- session lasting for the refresh threshold at least from then on, and no change to the accounts.
pub require_login-Admits :
    (clock : Clock) (token : String) (next : UserRow → Handler) (d : Db) (s : Session) (u : UserRow)
    → d.faults ≡ []
    → clock.at_threshold ≤ clock.at_refresh
    → session_at (some token) d.tables ≡ some (s, u)
    → clock.at_expiry ≤ s.expires_at
    → Admits clock token next d u
unfolding slid
require_login-Admits clock token next d s u quiet later e alive =
    let (named, found) = session_at-some token d.tables (s, u) e in
    let same = find_session-token token d.tables s u found in
    let alive' : ltb s.expires_at clock.at_expiry ≡ false = ground arith in
    elim (Bool-cases (ltb s.expires_at (clock.at_threshold + session_refresh_threshold))) [
      | inr far ↦ record {
        cookies = [];
        behind = d;
        session = s;
        served = serves_fresh clock token next d s u quiet named found alive' far;
        found = e;
        lasts = ground arith;
        users_same = refl;
      }
      | inl near ↦
          let expiry : ℕ = format_time (clock.at_refresh + session_ttl) in
          record {
            cookies = set token (clock.at_refresh + session_ttl) ∷ [];
            behind = slid clock token d;
            session = record s { expires_at = scan_time expiry };
            served = serves_slid clock token next d s u quiet named found same alive' near;
            found = rw named (
                find_session-update token expiry d.tables (slid clock token d).tables d.now s u
                  (unfold update_session_rows in refl) found);
            lasts = truncated_lasts clock.at_threshold clock.at_refresh later;
            users_same = refl;
          }
    ]
