-- ===== src/Middleware/Admin.antt =====
-- RequireAdmin (internal/middleware/auth.go).
use crypticquest_backend.Base.{
  ◌≡◌, refl, ◌==◌, string_key, String, Bool, false, Option, none, some, inl, ◌⊎◌, arith,
}
use crypticquest_backend.Schema.{UserRow}
use crypticquest_backend.Engine.{Db, exec}
use crypticquest_backend.Store.Errors.{row_err, is_not_found}
use crypticquest_backend.Store.Users.{role_admin}
use crypticquest_backend.Store.Sessions.{Session, session_by_token, delete_session, refresh_session}
use crypticquest_backend.Http.{Handler, response}
use crypticquest_backend.Middleware.{Clock, require_admin}
use crypticquest_backend.Middleware.Sessions.{session_at, live}

-- The request comes with a live session of an admin.
abbrev pub is_admin_session : Option (Session × UserRow) → Bool
is_admin_session none = false
is_admin_session (some (s, u)) = u.role == role_admin

-- A request without a live session of an admin is answered 401, 403 or 500, and the handler behind
-- RequireAdmin has no part in it: with any other handler the outcome is the same.
pub require_admin_rejects :
    (clock : Clock) (cookie : Option String) (next other : UserRow → Handler) (d : Db)
    → is_admin_session (live clock (session_at cookie d.tables)) ≡ false
    → (require_admin clock cookie next d ≡ require_admin clock cookie other d)
      × (let status = (response (require_admin clock cookie next d).0).status in
          (status ≡ 401) ⊎ (status ≡ 403) ⊎ (status ≡ 500))
unfolding require_admin session_by_token delete_session refresh_session exec row_err is_not_found
require_admin_rejects clock none next other d h = (refl, inl refl)
require_admin_rejects clock (some token) next other d h = ground arith
