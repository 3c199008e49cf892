-- ===== src/Handlers/Admin/Users.antt =====
-- internal/handlers/admin_users.go. The actor is the user of the request's context. The generator
-- of temporary passwords and bcrypt are given by their results.
pub mod Keeps
pub mod Lockout
pub mod Reset
pub mod Integrity
use crypticquest_backend.Base.{
  ℕ, String, ◌==◌, string_key, int_key, ℤ, pos, int_leb, Bool, true, false, not, ◌&&◌, ◌||◌, Option,
  none, some, List, [], ◌∷◌, if◌then◌else◌,
}
use crypticquest_backend.Schema.{UserRow}
use crypticquest_backend.Engine.{M, pure, raise, wrap, ◌>>=◌, ◌>>◌}
use crypticquest_backend.Store.Users.{
  role_player, role_admin, list_users, admin_user_by_id, set_user_role, update_password_hash,
  delete_user,
}
use crypticquest_backend.Store.Sessions.{delete_user_sessions}
use crypticquest_backend.Store.Progress.{set_user_progress_to_level}
use crypticquest_backend.Http.{
  Response, json, fail, no_body, Handler, user_list, user as user_body, temp_password,
}
use crypticquest_backend.Handlers.Player.{decode}
use crypticquest_backend.Handlers.Account.{given}
use crypticquest_backend.Handlers.Admin.{parse_id, missing_or}

-- A field that the body leaves out is none.
pub record UserUpdate : Type 0 where
  pub role : Option String
  pub level : Option ℤ

unfoldable pub admin_list_users : Handler
admin_list_users = do
  users ← wrap (λ _. fail 500 "could not load users") list_users
  pure (json 200 (user_list users))

check_role : ℤ → UserRow → Option String → M Response (Unit {0})
check_role id actor none = pure tt
check_role id actor (some role) =
    if not (role == role_player) && not (role == role_admin)
    then raise (fail 400 "role must be 'player' or 'admin'")
    else if (id == actor.id) && not (role == role_admin)
    then raise (fail 409 "you cannot remove your own admin role")
    else pure tt

check_level : Option ℤ → M Response (Unit {0})
check_level none = pure tt
check_level (some level) =
    if int_leb level (pos 0) then raise (fail 400 "level must be a positive integer") else pure tt

change_role : ℤ → Option String → M Response (Unit {0})
change_role id none = pure tt
change_role id (some role) =
    wrap (missing_or "user not found" "could not update role") (set_user_role id role)

change_level : ℤ → Option ℤ → M Response (Unit {0})
change_level id none = pure tt
change_level id (some level) =
    wrap (missing_or "user not found" "could not update progress")
      (set_user_progress_to_level id level)

unfoldable pub admin_update_user : String → UserRow → Option UserUpdate → Handler
unfolding check_role check_level change_role change_level
admin_update_user path actor body = do
  id ← parse_id path
  req ← decode body
  check_role id actor req.role
  check_level req.level
  change_role id req.role
  change_level id req.level
  u ← wrap (missing_or "user not found" "could not load user") (admin_user_by_id id)
  pure (json 200 (user_body u))

unfoldable pub admin_reset_password : String → Option String → (String → Option String) → Handler
admin_reset_password path generated hash = do
  id ← parse_id path
  temp ← given generated "could not generate password"
  h ← given (hash temp) "could not hash password"
  wrap (missing_or "user not found" "could not reset password") (update_password_hash id h)
  wrap (λ _. fail 500 "password reset but sessions could not be cleared") (delete_user_sessions id)
  pure (json 200 (temp_password temp))

unfoldable pub admin_delete_user : String → UserRow → Handler
admin_delete_user path actor = do
  id ← parse_id path
  if id == actor.id then raise (fail 409 "you cannot delete your own account") else do
    wrap (missing_or "user not found" "could not delete user") (delete_user id)
    pure (json 204 no_body)
