-- ===== src/Store/Users.antt =====
-- internal/store/users.go
use crypticquest_backend.Base.{
  ℕ, suc, ◌+◌, String, ◌==◌, string_key, int_key, ℤ, pos, Bool, true, false, Option, none, some,
  List, [], ◌∷◌, ◌++◌, ltb, if◌then◌else◌, has, count_where, rows_without, first_where,
  update_where, order_by, map,
}
use crypticquest_backend.Schema.{Tables, UserRow}
use crypticquest_backend.Engine.{
  SqlError, unique_violation, ok, err, M, Statement, exec, query, query_row, wrap, pure, ◌>>=◌,
  ◌>>◌,
}
use crypticquest_backend.Store.Errors.{
  StoreError, username_taken, database, is_unique_violation, row_err, affected,
}

abbrev pub role_player : String
role_player = "player"

abbrev pub role_admin : String
role_admin = "admin"

-- INSERT INTO users (username, password_hash, role) VALUES (?, ?, ?)
unfoldable pub insert_user : String → String → String → Statement ℤ
insert_user username hash role t now =
    if has (λ u. u.username == username) t.users
    then err unique_violation
    else let id = pos (suc t.user_seq) in
      ok (
        id,
        record t {
          users =
              t.users
              ++ record {
                id = id;
                username = username;
                password_hash = hash;
                role = role;
                created_at = now;
              }
                ∷ [];
          user_seq = suc t.user_seq;
        },
      )

create_user_err : SqlError → StoreError
create_user_err e = if is_unique_violation e then username_taken else database e

-- The schema's default role is 'player'.
unfoldable pub create_user : String → String → M StoreError ℤ
unfolding create_user_err is_unique_violation
create_user username hash = wrap create_user_err (exec (insert_user username hash role_player))

unfoldable pub count_admins : Tables → ℕ
count_admins t = count_where (λ u. u.role == role_admin) t.users

unfoldable pub ensure_admin : String → String → M StoreError Bool
ensure_admin username hash = do
  admin_count ← wrap database (exec (query count_admins))
  if ltb 0 admin_count
      then pure false
      else do wrap database (exec (insert_user username hash role_admin)); pure true

unfoldable pub user_by_username : String → M StoreError UserRow
user_by_username username =
    wrap row_err (exec (query_row (λ t. first_where (λ u. u.username == username) t.users)))

-- The player-management view: no password hash, and the current level.
pub record AdminUser : Type 0 where
  pub id : ℤ
  pub username : String
  pub role : String
  pub created_at : ℕ
  pub current_level : ℕ

-- COUNT(*) FROM user_progress WHERE user_id = ?
unfoldable pub solved_count : Tables → ℤ → ℕ
solved_count t user_id = count_where (λ p. p.user_id == user_id) t.user_progress

unfoldable pub admin_user : Tables → UserRow → AdminUser
admin_user t u = record {
  id = u.id;
  username = u.username;
  role = u.role;
  created_at = u.created_at;
  current_level = solved_count t u.id + 1;
}

unfoldable pub list_users : M StoreError (List AdminUser)
list_users = wrap database (exec (query (λ t. map (admin_user t) (order_by (λ u. u.id) t.users))))

find_admin_user : ℤ → Tables → Option AdminUser
find_admin_user id t = elim (first_where (λ u. u.id == id) t.users) [
  | none ↦ none
  | some u ↦ some (admin_user t u)
]

unfoldable pub admin_user_by_id : ℤ → M StoreError AdminUser
unfolding find_admin_user
admin_user_by_id id = wrap row_err (exec (query_row (find_admin_user id)))

-- UPDATE users SET … WHERE id = ?, and the number of rows that it met
unfoldable pub update_users : (UserRow → UserRow) → ℤ → Statement ℕ
update_users f id t now = ok (
  count_where (λ u. u.id == id) t.users,
  record t { users = update_where (λ u. u.id == id) f t.users },
)

unfoldable pub set_user_role : ℤ → String → M StoreError (Unit {0})
set_user_role id role = do
  n ← wrap database (exec (update_users (λ u. record u { role = role }) id))
  affected n

unfoldable pub update_password_hash : ℤ → String → M StoreError (Unit {0})
update_password_hash id hash = do
  n ← wrap database (exec (update_users (λ u. record u { password_hash = hash }) id))
  affected n

-- DELETE FROM users WHERE id = ?; the sessions and the progress of a deleted row cascade.
unfoldable pub delete_user_row : ℤ → Statement ℕ
delete_user_row id t now =
    if has (λ u. u.id == id) t.users
    then ok (
      count_where (λ u. u.id == id) t.users,
      record t {
        users = rows_without (λ u. u.id == id) t.users;
        sessions = rows_without (λ s. s.user_id == id) t.sessions;
        user_progress = rows_without (λ p. p.user_id == id) t.user_progress;
      },
    )
    else ok (0, t)

unfoldable pub delete_user : ℤ → M StoreError (Unit {0})
delete_user id = do n ← wrap database (exec (delete_user_row id)); affected n
