-- ===== src/Routes/Integrity.antt =====
-- Every request (internal/handlers/routes.go) keeps the constraints of the schema.
use crypticquest_backend.Base.{ℕ, String, ℤ, Option, int_key}
use crypticquest_backend.Schema.{UserRow}
use crypticquest_backend.Engine.{Db}
use crypticquest_backend.Engine.Laws.{Keeps}
use crypticquest_backend.Store.Users
use crypticquest_backend.Store.Users.{list_users, admin_user_by_id}
use crypticquest_backend.Store.Sessions
use crypticquest_backend.Store.Progress
use crypticquest_backend.Store.Integrity.{IsConsistent}
use crypticquest_backend.Store.Write.{Write, perform}
use crypticquest_backend.Store.Write.Integrity.{perform-Keeps}
use crypticquest_backend.Middleware.Keeps.{require_login-Keeps, require_admin-Keeps}
use crypticquest_backend.Handlers.Admin.Integrity.{
  Keeps-kept, admin_levels-Keeps, admin_create_level-Keeps, admin_update_level-Keeps,
  admin_delete_level-Keeps, admin_get_hints-Keeps, admin_replace_hints-Keeps, admin_tools-Keeps,
  admin_create_tool-Keeps, admin_update_tool-Keeps, admin_delete_tool-Keeps,
}
use crypticquest_backend.Handlers.Admin.Users.Integrity.{
  admin_list_users-Keeps, admin_update_user-Keeps, admin_reset_password-Keeps,
  admin_delete_user-Keeps,
}
use crypticquest_backend.Routes.Keeps.{public-Keeps, player-Keeps}
use crypticquest_backend.Routes.{
  Outside, Route, public, player, admin, AdminRoute, serve_player, serve_admin, routes,
}

create_user-Keeps : (username hash : String) → Keeps IsConsistent (Users.create_user username hash)
unfolding perform
create_user-Keeps username hash = Keeps-kept _ tt (perform-Keeps (Write.create_user username hash))

create_session-Keeps :
    (token : String) (user_id : ℤ) (expiry : ℕ)
    → Keeps IsConsistent (Sessions.create_session token user_id expiry)
unfolding perform
create_session-Keeps token user_id expiry =
    perform-Keeps (Write.create_session token user_id expiry)

delete_session-Keeps : (token : String) → Keeps IsConsistent (Sessions.delete_session token)
unfolding perform
delete_session-Keeps token = perform-Keeps (Write.delete_session token)

refresh_session-Keeps :
    (token : String) (expiry : ℕ) → Keeps IsConsistent (Sessions.refresh_session token expiry)
unfolding perform
refresh_session-Keeps token expiry = perform-Keeps (Write.refresh_session token expiry)

record_solved-Keeps : (user_id id : ℤ) → Keeps IsConsistent (Progress.record_solved user_id id)
unfolding perform
record_solved-Keeps user_id id = perform-Keeps (Write.record_solved user_id id)

admin-Keeps :
    (o : Outside) (r : AdminRoute) (user : UserRow) → Keeps IsConsistent (serve_admin o r user)
admin-Keeps o AdminRoute.list_levels user = admin_levels-Keeps
admin-Keeps o (AdminRoute.create_level body) user = admin_create_level-Keeps body
admin-Keeps o (AdminRoute.update_level path body) user = admin_update_level-Keeps path body
admin-Keeps o (AdminRoute.delete_level path) user = admin_delete_level-Keeps path
admin-Keeps o (AdminRoute.get_hints path) user = admin_get_hints-Keeps path
admin-Keeps o (AdminRoute.replace_hints path body) user = admin_replace_hints-Keeps path body
admin-Keeps o AdminRoute.list_tools user = admin_tools-Keeps
admin-Keeps o (AdminRoute.create_tool body) user = admin_create_tool-Keeps body
admin-Keeps o (AdminRoute.update_tool path body) user = admin_update_tool-Keeps path body
admin-Keeps o (AdminRoute.delete_tool path) user = admin_delete_tool-Keeps path
admin-Keeps o AdminRoute.list_users user = admin_list_users-Keeps
admin-Keeps o (AdminRoute.update_user path body) user = admin_update_user-Keeps path user body
admin-Keeps o (AdminRoute.reset_password path) user = admin_reset_password-Keeps path o.temp o.hash
admin-Keeps o (AdminRoute.delete_user path) user = admin_delete_user-Keeps path user

routes-Keeps :
    (o : Outside) (cookie : Option String) (r : Route) → Keeps IsConsistent (routes o cookie r)
routes-Keeps o cookie (public r) =
    public-Keeps create_user-Keeps create_session-Keeps delete_session-Keeps record_solved-Keeps o
      cookie r
routes-Keeps o cookie (player r) =
    require_login-Keeps delete_session-Keeps refresh_session-Keeps o.clock cookie (serve_player o r)
      (player-Keeps create_user-Keeps create_session-Keeps delete_session-Keeps record_solved-Keeps
        o r)
routes-Keeps o cookie (admin r) =
    require_admin-Keeps delete_session-Keeps refresh_session-Keeps o.clock cookie (serve_admin o r)
      (admin-Keeps o r)

-- Every request to every route, whoever sends it, whatever it asks and whichever statements fail,
-- keeps every constraint of the schema.
pub routes-IsConsistent :
    (o : Outside) (cookie : Option String) (r : Route) (d : Db)
    → IsConsistent d.tables
    → IsConsistent (routes o cookie r d).1.tables
routes-IsConsistent o cookie r d c = (routes-Keeps o cookie r).at d c
