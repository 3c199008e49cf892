-- ===== src/Handlers/Admin/Users/Lockout.antt =====
-- An admin cannot lock themselves out (internal/handlers/admin_users.go).
use crypticquest_backend.Base.{
  ◌≡◌, refl, String, ◌==◌, string_key, int_key, ℤ, Bool, true, false, not, ◌&&◌, Option, none, some,
  if◌then◌else◌, arith, inl, inr, ◌⊎◌, Bool-cases,
}
use crypticquest_backend.Schema.{UserRow}
use crypticquest_backend.Engine.{Db, M, pure, raise, ◌>>◌}
use crypticquest_backend.Engine.Laws.{
  Keeps, Keeps-wrap, Keeps-bind, Keeps-query_row, Keeps-raise, Keeps-pure, keeps_rules,
}
use crypticquest_backend.Store.Users.{role_admin, list_users, admin_user_by_id}
use crypticquest_backend.Store.Sessions.{delete_user_sessions}
use crypticquest_backend.Http.{Response, Handler}
use crypticquest_backend.Handlers.Admin.Users.Keeps.{
  IsAdmin, set_user_role-Keeps, update_password_hash-Keeps, delete_user-Keeps, set_progress-Keeps,
  delete_user_session_rows-Keeps,
}
use crypticquest_backend.Handlers.Steps.{Keeps-id, Keeps-decode, Keeps-given}
use crypticquest_backend.Handlers.Admin.Users.{
  UserUpdate, admin_list_users, admin_update_user, admin_reset_password, admin_delete_user,
  check_role, check_level, change_role, change_level,
}

module _ (i : ℤ) where
  -- What follows a guard may use that it let the request through.
  Keeps-guards :
      {A : Type 0} (b c : Bool) (e e' : Response) (m : M Response A)
      → (b ≡ false → c ≡ false → Keeps (IsAdmin i) m)
      → Keeps (IsAdmin i) ((if b then raise e else if c then raise e' else pure tt) >> m)
  Keeps-guards true c e e' m k = Keeps-raise e
  Keeps-guards false true e e' m k = Keeps-raise e'
  Keeps-guards false false e e' m k = record { at = (k refl refl).at }

  check_level-Keeps : (level : Option ℤ) → Keeps (IsAdmin i) (check_level level)
  unfolding check_level
  check_level-Keeps none = Keeps-pure _
  check_level-Keeps (some level) = search keeps_rules

  change_level-Keeps : (id : ℤ) (level : Option ℤ) → Keeps (IsAdmin i) (change_level id level)
  unfolding change_level
  change_level-Keeps id none = Keeps-pure _
  change_level-Keeps id (some level) = Keeps-wrap _ _ (set_progress-Keeps i id level)

  admin_user_by_id-Keeps : (id : ℤ) → Keeps (IsAdmin i) (admin_user_by_id id)
  unfolding admin_user_by_id
  admin_user_by_id-Keeps id = Keeps-wrap _ _ (Keeps-query_row _)

  own_role :
      (id : ℤ) (role : String)
      → ((id == i) && not (role == role_admin)) ≡ false
      → ((id == i) ≡ false) ⊎ ((role == role_admin) ≡ true)
  own_role id role h = ground arith

module _ (actor : UserRow) where
  update-Keeps :
      {A : Type 0} (id : ℤ) (role : Option String) (level : Option ℤ) (m : M Response A)
      → Keeps (IsAdmin actor.id) m
      → Keeps
          (IsAdmin actor.id)
          (check_role id actor role >> (check_level level >> (change_role id role >> m)))
  unfolding check_role change_role
  update-Keeps id none level m k = record {
    at = (Keeps-bind _ _ (check_level-Keeps actor.id level) (λ _. k)).at;
  }
  update-Keeps id (some role) level m k = Keeps-guards actor.id _ _ _ _ _ (λ _ allowed.
      Keeps-bind _ _ (check_level-Keeps actor.id level) (λ _.
        Keeps-bind _ _
          (Keeps-wrap _ _
            (set_user_role-Keeps actor.id id role (own_role actor.id id role allowed)))
          (λ _. k)))

  not_own :
      {A : Type 0} (id : ℤ) (e : Response) (m : M Response A)
      → ((id == actor.id) ≡ false → Keeps (IsAdmin actor.id) m)
      → Keeps (IsAdmin actor.id) (if id == actor.id then raise e else m)
  not_own id e m k = elim (Bool-cases (id == actor.id)) [
    | inl t ↦ rw t (Keeps-raise e)
    | inr f ↦ rw f (k f)
  ]

-- The requests of user management.
pub data UserRequest : Type 0 where
  list : UserRequest
  update : String → Option UserUpdate → UserRequest
  reset_password : String → Option String → (String → Option String) → UserRequest
  delete : String → UserRequest

abbrev pub serve : UserRow → UserRequest → Handler
serve actor list = admin_list_users
serve actor (update path body) = admin_update_user path actor body
serve actor (reset_password path generated hash) = admin_reset_password path generated hash
serve actor (delete path) = admin_delete_user path actor

serve-Keeps : (actor : UserRow) (r : UserRequest) → Keeps (IsAdmin actor.id) (serve actor r)
unfolding admin_list_users list_users admin_update_user admin_reset_password admin_delete_user
    delete_user_sessions
serve-Keeps actor list = search keeps_rules
serve-Keeps actor (update path body) = Keeps-id _ _ _ (λ id. Keeps-decode body _ (λ req.
    update-Keeps actor id req.role req.level _ (
      Keeps-bind _ _ (change_level-Keeps actor.id id req.level) (λ _.
        Keeps-bind _ _ (Keeps-wrap _ _ (admin_user_by_id-Keeps actor.id id)) (λ u. Keeps-pure _)))))
serve-Keeps actor (reset_password path generated hash) = Keeps-id _ _ _ (λ id.
    Keeps-given generated _ _ (λ temp. Keeps-given (hash temp) _ _ (λ h.
      Keeps-bind _ _ (Keeps-wrap _ _ (update_password_hash-Keeps actor.id id h)) (λ _.
        Keeps-bind _ _
          (Keeps-wrap _ _ (Keeps-wrap _ _ (delete_user_session_rows-Keeps actor.id id)))
          (λ _. Keeps-pure _)))))
serve-Keeps actor (delete path) = Keeps-id _ _ _ (λ id. not_own actor id _ _ (λ other.
    Keeps-bind _ _ (Keeps-wrap _ _ (delete_user-Keeps actor.id id other)) (λ _. Keeps-pure _)))

-- No request of user management, whatever it asks and whichever statements fail, takes the account
-- or the admin role from the admin who makes it.
pub serve-IsAdmin :
    (actor : UserRow) (r : UserRequest) (d : Db)
    → IsAdmin actor.id d.tables
    → IsAdmin actor.id (serve actor r d).1.tables
serve-IsAdmin actor r d h = (serve-Keeps actor r).at d h
