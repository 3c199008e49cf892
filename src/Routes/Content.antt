-- ===== src/Routes/Content.antt =====
-- Who changes the content of the game: levels, hints and tools.
use crypticquest_backend.Base.{
  ℕ, ◌≡◌, refl, ap, ◌∙◌, String, string_key, ℤ, Bool, false, Option, List, arith,
}
use crypticquest_backend.Schema.{Tables, UserRow, LevelRow, HintRow, ToolRow}
use crypticquest_backend.Engine.{Db, raise}
use crypticquest_backend.Engine.Laws.{Keeps, Keeps-exec, Keeps-wrap, Keeps-raise}
use crypticquest_backend.Store.Users.{create_user, insert_user}
use crypticquest_backend.Store.Sessions.{
  create_session, insert_session, delete_session, delete_session_rows, refresh_session,
  update_session_rows,
}
use crypticquest_backend.Store.Progress.{record_solved, insert_or_ignore_progress, insert_progress}
use crypticquest_backend.Http.{Handler, fail}
use crypticquest_backend.Middleware.Keeps.{require_login-Keeps, require_admin-Keeps}
use crypticquest_backend.Middleware.Sessions.{session_at, live}
use crypticquest_backend.Middleware.Admin.{is_admin_session, require_admin_rejects}
use crypticquest_backend.Routes.Keeps.{public-Keeps, player-Keeps}
use crypticquest_backend.Routes.{Outside, Route, public, player, admin, serve_admin, routes}

-- The content of the tables.
pub record Content : Type 0 where
  pub levels : List LevelRow
  pub hints : List HintRow
  pub tools : List ToolRow

abbrev pub content : Tables → Content
content t = record { levels = t.levels; hints = t.hints; tools = t.tools }

abbrev IsContent : Content → Tables → Type 0
IsContent c t = content t ≡ c

module _ (c : Content) where
  create_user-Keeps : (username hash : String) → Keeps (IsContent c) (create_user username hash)
  unfolding create_user insert_user
  create_user-Keeps username hash = Keeps-wrap _ _ (Keeps-exec _ (λ t now h. ground (arith, h)))

  create_session-Keeps :
      (token : String) (user_id : ℤ) (expiry : ℕ)
      → Keeps (IsContent c) (create_session token user_id expiry)
  unfolding create_session insert_session
  create_session-Keeps token user_id expiry =
      Keeps-wrap _ _ (Keeps-exec _ (λ t now h. ground (arith, h)))

  delete_session-Keeps : (token : String) → Keeps (IsContent c) (delete_session token)
  unfolding delete_session delete_session_rows
  delete_session-Keeps token = Keeps-wrap _ _ (Keeps-exec _ (λ t now h. h))

  refresh_session-Keeps :
      (token : String) (expiry : ℕ) → Keeps (IsContent c) (refresh_session token expiry)
  unfolding refresh_session update_session_rows
  refresh_session-Keeps token expiry = Keeps-wrap _ _ (Keeps-exec _ (λ t now h. h))

  record_solved-Keeps : (user_id id : ℤ) → Keeps (IsContent c) (record_solved user_id id)
  unfolding record_solved insert_or_ignore_progress insert_progress
  record_solved-Keeps user_id id = Keeps-wrap _ _ (Keeps-exec _ (λ t now h. ground (arith, h)))

  -- A handler that does nothing.
  abbrev idle : UserRow → Handler
  idle user = raise (fail 403 "admin access required")

-- The request is one of the admin surface, with a live session of an admin.
abbrev pub may_edit : Outside → Option String → Route → Tables → Bool
may_edit o cookie (public r) t = false
may_edit o cookie (player r) t = false
may_edit o cookie (admin r) t = is_admin_session (live o.clock (session_at cookie t))

-- Only an admin changes the game: a request that is not one of the admin surface with a live session
-- of an admin leaves every level, hint and tool as it was, whatever it asks and whichever statements
-- fail.
pub routes_content :
    (o : Outside) (cookie : Option String) (r : Route) (d : Db)
    → may_edit o cookie r d.tables ≡ false
    → content (routes o cookie r d).1.tables ≡ content d.tables
routes_content o cookie (public r) d h =
    (public-Keeps (create_user-Keeps (content d.tables)) (create_session-Keeps (content d.tables))
        (delete_session-Keeps (content d.tables)) (record_solved-Keeps (content d.tables)) o cookie
        r).at
      d refl
routes_content o cookie (player r) d h =
    let c = content d.tables in
    (require_login-Keeps (delete_session-Keeps c) (refresh_session-Keeps c) o.clock cookie _ (
        player-Keeps (create_user-Keeps c) (create_session-Keeps c) (delete_session-Keeps c)
          (record_solved-Keeps c) o r)).at
      d refl
routes_content o cookie (admin r) d h =
    let c = content d.tables in
    ap (λ x. content x.1.tables)
      (require_admin_rejects o.clock cookie (serve_admin o r) (idle c) d h).0
    ∙ (require_admin-Keeps (delete_session-Keeps c) (refresh_session-Keeps c) o.clock cookie _
          (λ u. Keeps-raise _)).at
        d refl
