-- ===== src/Store/Errors.antt =====
-- internal/store/errors.go: the sentinels of the store, and how methods report driver errors.
use crypticquest_backend.Base.{ℕ, Bool, true, false, nat_eq, if◌then◌else◌}
use crypticquest_backend.Engine.{
  SqlError, no_rows, unique_violation, foreign_key_violation, M, pure, raise,
}

-- `database e` is a driver error that was wrapped by fmt.Errorf.
pub data StoreError : Type 0 where
  username_taken not_found order_index_taken invalid_reference : StoreError
  database : SqlError → StoreError

unfoldable pub is_unique_violation : SqlError → Bool
is_unique_violation unique_violation = true
is_unique_violation _ = false

unfoldable pub is_foreign_key_violation : SqlError → Bool
is_foreign_key_violation foreign_key_violation = true
is_foreign_key_violation _ = false

-- `errors.Is(err, sql.ErrNoRows)` after QueryRow(…).Scan
unfoldable pub row_err : SqlError → StoreError
row_err no_rows = not_found
row_err e = database e

-- `errors.Is(err, store.ErrNotFound)`, as the handlers ask it
unfoldable pub is_not_found : StoreError → Bool
is_not_found not_found = true
is_not_found _ = false

-- `if n, _ := res.RowsAffected(); n == 0 { return ErrNotFound }`
abbrev pub affected : ℕ → M StoreError (Unit {0})
affected n = if nat_eq n 0 then raise not_found else pure tt
