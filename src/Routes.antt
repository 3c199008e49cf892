-- ===== src/Routes.antt =====
-- internal/handlers/routes.go: which middleware each handler runs behind. A request is what
-- http.ServeMux has matched: the route with its path values and its decoded body.
pub mod Keeps
pub mod Content
pub mod Integrity
use crypticquest_backend.Base.{ℕ, String, Bool, Option, List}
use crypticquest_backend.Schema.{UserRow}
use crypticquest_backend.Engine.{pure}
use crypticquest_backend.Store.Levels.{AdminLevelInput}
use crypticquest_backend.Store.Tools.{ToolInput}
use crypticquest_backend.Text.{LowerTable}
use crypticquest_backend.Http.{Handler, json, healthy}
use crypticquest_backend.Middleware.{Clock, require_login, require_admin}
use crypticquest_backend.Handlers.Player
use crypticquest_backend.Handlers.Player.{Listing, me_handler, get_level, submit_flag}
use crypticquest_backend.Handlers.Account
use crypticquest_backend.Handlers.Account.{Credentials}
use crypticquest_backend.Files.{Disk}
use crypticquest_backend.Handlers.Files.{serve_level_file, serve_tool_file}
use crypticquest_backend.Handlers.Admin.Levels.{
  admin_list_levels, admin_create_level, admin_update_level, admin_delete_level,
}
use crypticquest_backend.Handlers.Admin.Hints.{admin_get_hints, admin_replace_hints}
use crypticquest_backend.Handlers.Admin.Tools.{
  admin_list_tools, admin_create_tool, admin_update_tool, admin_delete_tool,
}
use crypticquest_backend.Handlers.Admin.Users.{
  UserUpdate, admin_list_users, admin_update_user, admin_reset_password, admin_delete_user,
}

-- What the request meets outside the repository.
pub record Outside : Type 0 where
  pub clock : Clock
  pub now : ℕ
  pub lower : LowerTable
  pub listing : Listing
  pub hash : String → Option String
  pub check : String → String → Bool
  pub token : Option String
  pub temp : Option String
  pub disk : Disk
  pub stat : Bool

-- Without a login.
pub data PublicRoute : Type 0 where
  health logout : PublicRoute
  register login : Option Credentials → PublicRoute

-- Behind requireLogin.
pub data PlayerRoute : Type 0 where
  me levels tools : PlayerRoute
  level hints : String → PlayerRoute
  submit : String → Option String → PlayerRoute
  level_file : String → String → PlayerRoute
  tool_file : String → PlayerRoute

-- Behind requireAdmin.
pub data AdminRoute : Type 0 where
  list_levels list_tools list_users : AdminRoute
  create_level : Option AdminLevelInput → AdminRoute
  update_level : String → Option AdminLevelInput → AdminRoute
  delete_level get_hints delete_tool reset_password delete_user : String → AdminRoute
  replace_hints : String → Option (List String) → AdminRoute
  create_tool : Option ToolInput → AdminRoute
  update_tool : String → Option ToolInput → AdminRoute
  update_user : String → Option UserUpdate → AdminRoute

pub data Route : Type 0 where
  public : PublicRoute → Route
  player : PlayerRoute → Route
  admin : AdminRoute → Route

abbrev pub serve_public : Outside → Option String → PublicRoute → Handler
serve_public o cookie health = pure (json 200 healthy)
serve_public o cookie logout = Account.logout cookie
serve_public o cookie (register body) = Account.register o.hash body
serve_public o cookie (login body) = Account.login o.check o.token o.now body

abbrev pub serve_player : Outside → PlayerRoute → UserRow → Handler
serve_player o me user = me_handler user
serve_player o levels user = Player.list_levels user
serve_player o tools user = Player.list_tools user
serve_player o (level path) user = get_level o.listing user path
serve_player o (hints path) user = Player.get_hints user path
serve_player o (submit path body) user = submit_flag o.lower user path body
serve_player o (level_file id path) user = serve_level_file o.disk o.stat user id path
serve_player o (tool_file path) user = serve_tool_file o.disk o.stat user path

abbrev pub serve_admin : Outside → AdminRoute → UserRow → Handler
serve_admin o list_levels user = admin_list_levels
serve_admin o (create_level body) user = admin_create_level body
serve_admin o (update_level path body) user = admin_update_level path body
serve_admin o (delete_level path) user = admin_delete_level path
serve_admin o (get_hints path) user = admin_get_hints path
serve_admin o (replace_hints path body) user = admin_replace_hints path body
serve_admin o list_tools user = admin_list_tools
serve_admin o (create_tool body) user = admin_create_tool body
serve_admin o (update_tool path body) user = admin_update_tool path body
serve_admin o (delete_tool path) user = admin_delete_tool path
serve_admin o list_users user = admin_list_users
serve_admin o (update_user path body) user = admin_update_user path user body
serve_admin o (reset_password path) user = admin_reset_password path o.temp o.hash
serve_admin o (delete_user path) user = admin_delete_user path user

-- A request with its session cookie, none without one.
abbrev pub routes : Outside → Option String → Route → Handler
routes o cookie (public r) = serve_public o cookie r
routes o cookie (player r) = require_login o.clock cookie (serve_player o r)
routes o cookie (admin r) = require_admin o.clock cookie (serve_admin o r)
