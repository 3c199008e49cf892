-- ===== src/Middleware/Keeps.antt =====
-- What RequireLogin (internal/middleware/auth.go) keeps, it keeps with every handler that does.
use crypticquest_backend.Base.{ℕ, ◌+◌, string_key, String, Option, none, some, [], ◌∷◌}
use crypticquest_backend.Schema.{Tables, UserRow}
use crypticquest_backend.Engine.{M}
use crypticquest_backend.Engine.Laws.{
  Keeps, Keeps-query_row, Keeps-wrap, Keeps-if, Keeps-bind, Keeps-pure, Keeps-raise,
}
use crypticquest_backend.Store.Sessions.{Session, session_by_token, delete_session, refresh_session}
use crypticquest_backend.Http.{Handler, call, attempt, with_cookies, clear, fail}
use crypticquest_backend.Middleware.{
  Clock, session_of, reject_expired, slide, refreshed, require_login, check_admin, require_admin,
  session_ttl,
}

module _ {P : Tables → Type 0} (deletes : (token : String) → Keeps P (delete_session token))
    (refreshes : (token : String) (expiry : ℕ) → Keeps P (refresh_session token expiry)) where
  Keeps-attempt : {E F A : Type 0} (m : M E A) → Keeps P m → Keeps P (attempt {F = F} m)
  Keeps-attempt m k = record { at = λ d h. k.at d h }

  Keeps-call : (h : Handler) → Keeps P h → Keeps P (call h)
  Keeps-call h k = record { at = λ d p. k.at d p }

  session_of-Keeps : (cookie : Option String) → Keeps P (session_of cookie)
  unfolding session_of session_by_token
  session_of-Keeps none = Keeps-raise _
  session_of-Keeps (some token) =
      Keeps-if _ _ _ (Keeps-raise _) (Keeps-wrap _ _ (Keeps-wrap _ _ (Keeps-query_row _)))

  reject_expired-Keeps :
      (clock : Clock) (session : Session) → Keeps P (reject_expired clock session)
  unfolding reject_expired
  reject_expired-Keeps clock session =
      Keeps-if _ _ _
        (Keeps-bind _ _ (Keeps-attempt _ (deletes session.token))
          (λ _. Keeps-raise (with_cookies (clear ∷ []) (fail 401 "session expired"))))
        (Keeps-pure _)

  slide-Keeps : (clock : Clock) (session : Session) → Keeps P (slide clock session)
  unfolding slide
  slide-Keeps clock session =
      Keeps-if _ _ _
        (Keeps-bind _ _ (Keeps-attempt _ (refreshes session.token (clock.at_refresh + session_ttl)))
          (λ r. Keeps-pure (refreshed clock session r)))
        (Keeps-pure [])

  pub require_login-Keeps :
      (clock : Clock) (cookie : Option String) (next : UserRow → Handler)
      → ((u : UserRow) → Keeps P (next u))
      → Keeps P (require_login clock cookie next)
  unfolding require_login
  require_login-Keeps clock cookie next k = Keeps-bind _ _ (session_of-Keeps cookie) (λ found.
      Keeps-bind _ _ (reject_expired-Keeps clock found.0) (λ _.
        Keeps-bind _ _ (slide-Keeps clock found.0) (λ cookies.
          Keeps-bind _ _ (Keeps-call (next found.1) (k found.1))
            (λ r. Keeps-pure (with_cookies cookies r)))))

  check_admin-Keeps :
      (next : UserRow → Handler)
      → ((u : UserRow) → Keeps P (next u))
      → (u : UserRow) → Keeps P (check_admin next u)
  unfolding check_admin
  check_admin-Keeps next k u = Keeps-if _ _ _ (k u) (Keeps-raise _)

  pub require_admin-Keeps :
      (clock : Clock) (cookie : Option String) (next : UserRow → Handler)
      → ((u : UserRow) → Keeps P (next u))
      → Keeps P (require_admin clock cookie next)
  unfolding require_admin
  require_admin-Keeps clock cookie next k =
      require_login-Keeps clock cookie (check_admin next) (check_admin-Keeps next k)
