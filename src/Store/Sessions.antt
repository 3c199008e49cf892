-- ===== src/Store/Sessions.antt =====
-- internal/store/sessions.go. A time.Time is a number of nanoseconds; the column keeps RFC3339
-- text, that is whole seconds.
pub mod Lookup
pub mod Open
use crypticquest_backend.Base.{
  ℕ, ◌*◌, ◌/◌, ◌^◌, String, ◌==◌, string_key, int_key, ℤ, Option, none, some, List, [], ◌∷◌, ◌++◌,
  not, if◌then◌else◌, has, rows_without, first_where, update_where,
}
use crypticquest_backend.Schema.{Tables, UserRow, SessionRow}
use crypticquest_backend.Engine.{
  unique_violation, foreign_key_violation, ok, err, M, Statement, exec, query_row, wrap,
}
use crypticquest_backend.Store.Errors.{StoreError, database, row_err}

abbrev pub second : ℕ
second = 10 ^ 9

-- `t.UTC().Format(time.RFC3339)`
unfoldable pub format_time : ℕ → ℕ
format_time t = t / second

-- Scanning the column back into a time.Time.
unfoldable pub scan_time : ℕ → ℕ
scan_time s = s * second

-- A session as the store returns it.
pub record Session : Type 0 where
  pub token : String
  pub user_id : ℤ
  pub expires_at : ℕ

-- INSERT INTO sessions (token, user_id, expires_at) VALUES (?, ?, ?)
unfoldable pub insert_session : String → ℤ → ℕ → Statement (Unit {0})
insert_session token user_id expires_at t now =
    if has (λ s. s.token == token) t.sessions
    then err unique_violation
    else if has (λ u. u.id == user_id) t.users
    then ok (
      tt,
      record t {
        sessions =
            t.sessions ++ record { token = token; user_id = user_id; expires_at = expires_at } ∷ [];
      },
    )
    else err foreign_key_violation

unfoldable pub create_session : String → ℤ → ℕ → M StoreError (Unit {0})
create_session token user_id expires_at =
    wrap database (exec (insert_session token user_id (format_time expires_at)))

-- DELETE FROM sessions WHERE token = ?
unfoldable pub delete_session_rows : String → Statement (Unit {0})
delete_session_rows token t now =
    ok (tt, record t { sessions = rows_without (λ s. s.token == token) t.sessions })

unfoldable pub delete_session : String → M StoreError (Unit {0})
delete_session token = wrap database (exec (delete_session_rows token))

-- DELETE FROM sessions WHERE user_id = ?
unfoldable pub delete_user_session_rows : ℤ → Statement (Unit {0})
delete_user_session_rows user_id t now =
    ok (tt, record t { sessions = rows_without (λ s. s.user_id == user_id) t.sessions })

unfoldable pub delete_user_sessions : ℤ → M StoreError (Unit {0})
delete_user_sessions user_id = wrap database (exec (delete_user_session_rows user_id))

-- UPDATE sessions SET expires_at = ? WHERE token = ?
unfoldable pub update_session_rows : String → ℕ → Statement (Unit {0})
update_session_rows token expires_at t now = ok (
  tt,
  record t {
    sessions =
        update_where (λ s. s.token == token) (λ s. record s { expires_at = expires_at }) t.sessions;
  },
)

unfoldable pub refresh_session : String → ℕ → M StoreError (Unit {0})
refresh_session token new_expires_at =
    wrap database (exec (update_session_rows token (format_time new_expires_at)))

scan_session : SessionRow → UserRow → Session × UserRow
scan_session s u =
    (record { token = s.token; user_id = s.user_id; expires_at = scan_time s.expires_at }, u)

-- The rest of the JOIN, once the session row is found.
join_user : Tables → SessionRow → Option (Session × UserRow)
unfolding scan_session
join_user t s = elim (first_where (λ u. u.id == s.user_id) t.users) [
  | none ↦ none
  | some u ↦ some (scan_session s u)
]

unfoldable pub find_session : String → Tables → Option (Session × UserRow)
unfolding join_user
find_session token t = elim (first_where (λ s. s.token == token) t.sessions) [
  | none ↦ none
  | some s ↦ join_user t s
]

unfoldable pub session_by_token : String → M StoreError (Session × UserRow)
session_by_token token = wrap row_err (exec (query_row (find_session token)))
