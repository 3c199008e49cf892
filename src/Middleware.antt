-- ===== src/Middleware.antt =====
-- internal/middleware/auth.go: sessions and the admin role, and the session constants of
-- internal/auth/session.go.
pub mod Sessions
pub mod Admin
pub mod Keeps
pub mod Cors
pub mod Logging
use crypticquest_backend.Base.{
  ℕ, ◌+◌, ◌*◌, String, ◌==◌, string_key, ℤ, Bool, Option, none, some, List, [], ◌∷◌, ltb,
  if◌then◌else◌,
}
use crypticquest_backend.Schema.{UserRow}
use crypticquest_backend.Engine.{M, Result, ok, err, pure, raise, wrap, ◌>>=◌, ◌>>◌}
use crypticquest_backend.Store.Errors.{StoreError, not_found, is_not_found}
use crypticquest_backend.Store.Users.{role_admin}
use crypticquest_backend.Store.Sessions.{
  Session, second, session_by_token, delete_session, refresh_session,
}
use crypticquest_backend.Http.{
  Cookie, set, clear, Response, fail, with_cookies, Handler, call, attempt,
}

abbrev pub day : ℕ
day = 24 * 3600 * second

abbrev pub session_ttl : ℕ
session_ttl = 30 * day

abbrev pub session_refresh_threshold : ℕ
session_refresh_threshold = 15 * day

-- What `time.Now()` gives at its three calls, in nanoseconds.
pub record Clock : Type 0 where
  pub at_expiry : ℕ
  pub at_threshold : ℕ
  pub at_refresh : ℕ

abbrev pub unauthorized : Response
unauthorized = fail 401 "authentication required"

session_err : StoreError → Response
session_err e = if is_not_found e then unauthorized else fail 500 "could not verify session"

-- `r.Cookie(auth.SessionCookieName)` is none without the cookie.
session_of : Option String → M Response (Session × UserRow)
unfolding session_err
session_of none = raise unauthorized
session_of (some token) =
    if token == "" then raise unauthorized else wrap session_err (session_by_token token)

-- The lazy cleanup of an expired session.
reject_expired : Clock → Session → M Response (Unit {0})
reject_expired clock session =
    if ltb session.expires_at clock.at_expiry
    then (do
      attempt (delete_session session.token)
      raise (with_cookies (clear ∷ []) (fail 401 "session expired")))
    else pure tt

refreshed : Clock → Session → Result StoreError (Unit {0}) → List Cookie
refreshed clock session (ok _) = set session.token (clock.at_refresh + session_ttl) ∷ []
refreshed clock session (err e) = []

-- Sliding expiration: `time.Until(sess.ExpiresAt) < auth.SessionRefreshThreshold`.
slide : Clock → Session → M Response (List Cookie)
unfolding refreshed
slide clock session =
    if ltb session.expires_at (clock.at_threshold + session_refresh_threshold)
    then (do
      r ← attempt (refresh_session session.token (clock.at_refresh + session_ttl))
      pure (refreshed clock session r))
    else pure []

-- The handler `next` is given the user that the context carries.
unfoldable pub require_login : Clock → Option String → (UserRow → Handler) → Handler
unfolding session_of reject_expired slide
require_login clock cookie next = do
  found ← session_of cookie
  reject_expired clock found.0
  cookies ← slide clock found.0
  r ← call (next found.1)
  pure (with_cookies cookies r)

-- The role check runs behind `require_login`.
check_admin : (UserRow → Handler) → UserRow → Handler
check_admin next user =
    if user.role == role_admin then next user else raise (fail 403 "admin access required")

unfoldable pub require_admin : Clock → Option String → (UserRow → Handler) → Handler
unfolding check_admin require_login
require_admin clock cookie next = require_login clock cookie (check_admin next)
