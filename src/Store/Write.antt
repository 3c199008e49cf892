-- ===== src/Store/Write.antt =====
-- The methods of internal/store that write, as one type: what a handler may do to the database.
pub mod Integrity
pub mod Atomic
pub mod Apart
pub mod Content
pub mod Open
pub mod Gone
pub mod Played
use crypticquest_backend.Base.{ℕ, String, ℤ, List}
use crypticquest_backend.Engine.{M, pure, ◌>>=◌}
use crypticquest_backend.Store.Errors.{StoreError}
use crypticquest_backend.Store.Users
use crypticquest_backend.Store.Sessions
use crypticquest_backend.Store.Progress
use crypticquest_backend.Store.Levels
use crypticquest_backend.Store.Levels.{AdminLevelInput}
use crypticquest_backend.Store.Hints
use crypticquest_backend.Store.Tools
use crypticquest_backend.Store.Tools.{ToolInput}

pub data Write : Type 0 where
  create_user ensure_admin : String → String → Write
  set_user_role update_password_hash : ℤ → String → Write
  set_user_progress_to_level : ℤ → ℤ → Write
  delete_user delete_user_sessions delete_level delete_tool : ℤ → Write
  create_session : String → ℤ → ℕ → Write
  refresh_session : String → ℕ → Write
  delete_session : String → Write
  record_solved : ℤ → ℤ → Write
  create_level : AdminLevelInput → Write
  update_level : ℤ → AdminLevelInput → Write
  replace_hints : ℤ → List String → Write
  create_tool : ToolInput → Write
  update_tool : ℤ → ToolInput → Write

-- The methods that also return a value have it dropped.
unfoldable pub perform : Write → M StoreError (Unit {0})
perform (create_user username hash) = Users.create_user username hash >>= λ _. pure tt
perform (ensure_admin username hash) = Users.ensure_admin username hash >>= λ _. pure tt
perform (set_user_role id role) = Users.set_user_role id role
perform (update_password_hash id hash) = Users.update_password_hash id hash
perform (set_user_progress_to_level id level) = Progress.set_user_progress_to_level id level
perform (delete_user id) = Users.delete_user id
perform (delete_user_sessions id) = Sessions.delete_user_sessions id
perform (delete_level id) = Levels.delete_level id
perform (delete_tool id) = Tools.delete_tool id
perform (create_session token user_id expires_at) = Sessions.create_session token user_id expires_at
perform (refresh_session token expires_at) = Sessions.refresh_session token expires_at
perform (delete_session token) = Sessions.delete_session token
perform (record_solved user_id level_id) = Progress.record_solved user_id level_id
perform (create_level new) = Levels.create_level new >>= λ _. pure tt
perform (update_level id new) = Levels.update_level id new
perform (replace_hints level_id texts) = Hints.replace_hints level_id texts
perform (create_tool new) = Tools.create_tool new >>= λ _. pure tt
perform (update_tool id new) = Tools.update_tool id new
