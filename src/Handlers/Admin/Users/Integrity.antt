-- ===== src/Handlers/Admin/Users/Integrity.antt =====
-- User management (internal/handlers/admin_users.go) keeps the constraints of the schema.
use crypticquest_backend.Base.{String, ◌==◌, int_key, ℤ, Option, none, some}
use crypticquest_backend.Schema.{UserRow}
use crypticquest_backend.Engine.Laws.{
  Keeps, Keeps-wrap, Keeps-query, Keeps-query_row, Keeps-bind, Keeps-if, Keeps-pure, Keeps-raise,
  keeps_rules,
}
use crypticquest_backend.Store.Users.{list_users, admin_user_by_id}
use crypticquest_backend.Store.Integrity.{IsConsistent}
use crypticquest_backend.Store.Write.{Write, perform}
use crypticquest_backend.Store.Write.Integrity.{perform-Keeps}
use crypticquest_backend.Text.{parse_int}
use crypticquest_backend.Http.{fail, json, no_body}
use crypticquest_backend.Handlers.Admin.{missing_or}
use crypticquest_backend.Handlers.Steps.{Keeps-id, Keeps-decode, Keeps-given}
use crypticquest_backend.Handlers.Admin.Users.{
  UserUpdate, admin_list_users, admin_update_user, admin_reset_password, admin_delete_user,
  check_role, check_level, change_role, change_level,
}

check_role-Keeps :
    (id : ℤ) (actor : UserRow) (role : Option String)
    → Keeps IsConsistent (check_role id actor role)
unfolding check_role
check_role-Keeps id actor none = Keeps-pure _
check_role-Keeps id actor (some role) = search keeps_rules

check_level-Keeps : (level : Option ℤ) → Keeps IsConsistent (check_level level)
unfolding check_level
check_level-Keeps none = Keeps-pure _
check_level-Keeps (some level) = search keeps_rules

change_role-Keeps : (id : ℤ) (role : Option String) → Keeps IsConsistent (change_role id role)
unfolding change_role perform
change_role-Keeps id none = Keeps-pure _
change_role-Keeps id (some role) = Keeps-wrap _ _ (perform-Keeps (Write.set_user_role id role))

change_level-Keeps : (id : ℤ) (level : Option ℤ) → Keeps IsConsistent (change_level id level)
unfolding change_level perform
change_level-Keeps id none = Keeps-pure _
change_level-Keeps id (some level) =
    Keeps-wrap _ _ (perform-Keeps (Write.set_user_progress_to_level id level))

user-Keeps : (id : ℤ) → Keeps IsConsistent (admin_user_by_id id)
unfolding admin_user_by_id
user-Keeps id = Keeps-wrap _ _ (Keeps-query_row _)

pub admin_list_users-Keeps : Keeps IsConsistent admin_list_users
unfolding admin_list_users list_users
admin_list_users-Keeps =
    Keeps-bind _ _ (Keeps-wrap _ _ (Keeps-wrap _ _ (Keeps-query _))) (λ us. Keeps-pure _)

pub admin_update_user-Keeps :
    (path : String) (actor : UserRow) (body : Option UserUpdate)
    → Keeps IsConsistent (admin_update_user path actor body)
unfolding admin_update_user
admin_update_user-Keeps path actor body = Keeps-id _ _ _ (λ id. Keeps-decode body _ (λ req.
    Keeps-bind _ _ (check_role-Keeps id actor req.role) (λ _.
      Keeps-bind _ _ (check_level-Keeps req.level) (λ _.
        Keeps-bind _ _ (change_role-Keeps id req.role) (λ _.
          Keeps-bind _ _ (change_level-Keeps id req.level)
            (λ _. Keeps-bind _ _ (Keeps-wrap _ _ (user-Keeps id)) (λ u. Keeps-pure _)))))))

pub admin_reset_password-Keeps :
    (path : String) (generated : Option String) (hash : String → Option String)
    → Keeps IsConsistent (admin_reset_password path generated hash)
unfolding admin_reset_password perform
admin_reset_password-Keeps path generated hash = Keeps-id _ _ _ (λ id.
    Keeps-given generated _ _ (λ temp. Keeps-given (hash temp) _ _ (λ h.
      Keeps-bind _ _ (Keeps-wrap _ _ (perform-Keeps (Write.update_password_hash id h))) (λ _.
        Keeps-bind _ _ (Keeps-wrap _ _ (perform-Keeps (Write.delete_user_sessions id)))
          (λ _. Keeps-pure _)))))

pub admin_delete_user-Keeps :
    (path : String) (actor : UserRow) → Keeps IsConsistent (admin_delete_user path actor)
unfolding admin_delete_user perform
admin_delete_user-Keeps path actor = Keeps-id _ (parse_int path) _ (λ id.
    Keeps-if (id == actor.id) _ _ (Keeps-raise (fail 409 "you cannot delete your own account")) (
      Keeps-bind _ _
        (Keeps-wrap (missing_or "user not found" "could not delete user") _
          (perform-Keeps (Write.delete_user id)))
        (λ _. Keeps-pure (json 204 no_body))))
