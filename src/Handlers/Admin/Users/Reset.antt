-- ===== src/Handlers/Admin/Users/Reset.antt =====
-- AdminResetPassword (internal/handlers/admin_users.go): the old sessions end, the new password
-- holds.
use crypticquest_backend.Base.{
  ◌≡◌, refl, String, ◌==◌, string_key, int_key, ℤ, Bool, false, Option, none, some, List, [], ◌∷◌,
  inl, inr, Option-cases, arith, nat_eq, count_where, first_where, rows_without, update_where,
  first_where-update_where, first_where_passes, first_where_self, same_refl, IsUnique-Distinct,
  has_of_first_where, has-count_where,
}
use crypticquest_backend.Schema.{Tables, UserRow, SessionRow}
use crypticquest_backend.Engine.{Db, ok, exec}
use crypticquest_backend.Store.Users.{update_password_hash, update_users}
use crypticquest_backend.Store.Sessions.{
  Session, find_session, delete_user_sessions, delete_user_session_rows,
}
use crypticquest_backend.Store.Integrity.{IsConsistent}
use crypticquest_backend.Text.{parse_int}
use crypticquest_backend.Http.{json, temp_password}
use crypticquest_backend.Handlers.Account.Login.{named}
use crypticquest_backend.Handlers.Admin.Users.{admin_reset_password}

abbrev pub is_of : ℤ → Option (Session × UserRow) → Bool
is_of id none = false
is_of id (some (s, u)) = s.user_id == id

no_row :
    (token : String) (id : ℤ) (sessions : List SessionRow) (s : SessionRow)
    → first_where (λ x. x.token == token) (rows_without (λ x. x.user_id == id) sessions) ≡ some s
    → (s.user_id == id) ≡ false
no_row token id [] s e = absurd (cc)
no_row token id (x ∷ xs) s e = ground (arith, no_row token id xs s)

ended :
    (token : String) (id : ℤ) (t : Tables) (users : List UserRow)
    → is_of id (
        find_session token
          (record t { users = users; sessions = rows_without (λ x. x.user_id == id) t.sessions }))
      ≡ false
unfolding find_session
ended token id t users =
    elim (Option-cases
      (first_where (λ x. x.token == token) (rows_without (λ x. x.user_id == id) t.sessions))) [
        | inl e ↦ ground arith
        | inr (s, e) ↦ ground (arith, no_row token id t.sessions s e)
      ]

module _ (id : ℤ) (path temp h : String) (hash : String → Option String) (d : Db)
    (u : UserRow) where
  reset_runs :
      d.faults ≡ []
      → parse_int path ≡ some id
      → hash temp ≡ some h
      → nat_eq (count_where (λ x. x.id == id) d.tables.users) 0 ≡ false
      → admin_reset_password path (some temp) hash d ≡ (
        ok (json 200 (temp_password temp)),
        record d {
          tables = record d.tables {
            users =
                update_where (λ x. x.id == id) (λ x. record x { password_hash = h }) d.tables.users;
            sessions = rows_without (λ x. x.user_id == id) d.tables.sessions;
          };
        },
      )
  unfolding admin_reset_password update_password_hash update_users delete_user_sessions
      delete_user_session_rows exec
  reset_runs quiet p hashed there = rw p (rw hashed (ground arith))

counted :
    (id : ℤ) (users : List UserRow) (u : UserRow)
    → first_where (λ x. x.id == id) users ≡ some u
    → nat_eq (count_where (λ x. x.id == id) users) 0 ≡ false
counted id users u e = ground (
  arith,
  has-count_where (λ x. x.id == id) users,
  has_of_first_where (λ x. x.id == id) users {x = u} e,
)

-- With no fault to come, on consistent tables, and when the generator and bcrypt give their results,
-- resetting the password of an account answers with the new password; afterwards the account has its
-- hash and is otherwise as it was, and no token at all stands for a session of the account.
pub reset_exact :
    (id : ℤ) (path temp h : String) (hash : String → Option String) (d : Db) (u : UserRow)
    → IsConsistent d.tables
    → d.faults ≡ []
    → parse_int path ≡ some id
    → hash temp ≡ some h
    → first_where (λ x. x.id == id) d.tables.users ≡ some u
    → let (r, d') = admin_reset_password path (some temp) hash d in
      (r ≡ ok (json 200 (temp_password temp)))
      × (named u.username d'.tables ≡ some (record u { password_hash = h }))
      × ((token : String) → is_of id (find_session token d'.tables) ≡ false)
reset_exact id path temp h hash d u c quiet p hashed e =
    let is_id = first_where_passes (λ x. x.id == id) d.tables.users e in
    let by_name =
      first_where_self (λ x. x.id == id) (λ x. x.username == u.username) d.tables.users u e
        (same_refl u.username)
        (IsUnique-Distinct (λ x. x.username) u.username d.tables.users c.users.1) in
    rw (reset_runs id path temp h hash d u quiet p hashed (counted id d.tables.users u e)) (
      refl,
      ground (
        arith,
        first_where-update_where (λ x. x.username == u.username) (λ x. x.id == id)
            (λ x. record x { password_hash = h }) d.tables.users (λ x. refl),
      ),
      (λ token. ended token id d.tables _),
    )
