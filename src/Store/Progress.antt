-- ===== src/Store/Progress.antt =====
-- internal/store/progress.go, and SetUserProgressToLevel of internal/store/users.go.
use crypticquest_backend.Base.{
  ℕ, zero, suc, ◌+◌, ◌-◌, ◌^◌, ◌==◌, int_key, ℤ, pos, negsuc, Bool, List, [], ◌∷◌, ◌++◌, ◌&&◌, leb,
  nat_eq, if◌then◌else◌, int_leb, has, count_where, rows_without, first_where, order_by, take,
}
use crypticquest_backend.Schema.{Tables, LevelRow}
use crypticquest_backend.Engine.{
  SqlError, Result, unique_violation, foreign_key_violation, ok, err, M, Statement, exec, query,
  query_row, wrap, pure, ◌>>=◌, ◌>>◌, transaction,
}
use crypticquest_backend.Store.Errors.{StoreError, database, row_err}
use crypticquest_backend.Store.Users.{solved_count}

unfoldable pub has_progress : ℤ → ℤ → Tables → Bool
has_progress user_id level_id t =
    has (λ p. (p.user_id == user_id) && (p.level_id == level_id)) t.user_progress

-- INSERT INTO user_progress (user_id, level_id) VALUES (?, ?)
unfoldable pub insert_progress : ℤ → ℤ → Statement (Unit {0})
insert_progress user_id level_id t now =
    if has_progress user_id level_id t
    then err unique_violation
    else if has (λ u. u.id == user_id) t.users && has (λ l. l.id == level_id) t.levels
    then ok (
      tt,
      record t {
        user_progress =
            t.user_progress
            ++ record {
              id = pos (suc t.progress_seq);
              user_id = user_id;
              level_id = level_id;
              solved_at = now;
            }
              ∷ [];
        progress_seq = suc t.progress_seq;
      },
    )
    else err foreign_key_violation

-- INSERT OR IGNORE: a row that is there already is no error, a missing referent is. SQLite leaves a gap in
-- the ids for a row that it ignores, which is not kept here: the program reads no id of this table.
unfoldable pub insert_or_ignore_progress : ℤ → ℤ → Statement (Unit {0})
insert_or_ignore_progress user_id level_id t now =
    if has_progress user_id level_id t then ok (tt, t) else insert_progress user_id level_id t now

unfoldable pub record_solved : ℤ → ℤ → M StoreError (Unit {0})
record_solved user_id level_id = wrap database (exec (insert_or_ignore_progress user_id level_id))

unfoldable pub current_level : ℤ → M StoreError ℕ
current_level user_id = do
  solved ← wrap database (exec (query (λ t. solved_count t user_id)))
  pure (solved + 1)

-- SELECT COUNT(*) FROM levels WHERE order_index <= ?
unfoldable pub rank : ℤ → List LevelRow → ℕ
rank order_index levels = count_where (λ l. int_leb l.order_index order_index) levels

unfoldable pub is_level_accessible : ℤ → ℤ → M StoreError Bool
is_level_accessible user_id order_index = do
  current ← current_level user_id
  rank_of_level ← wrap database (exec (query (λ t. rank order_index t.levels)))
  pure (leb rank_of_level current)

-- DELETE FROM user_progress WHERE user_id = ?
unfoldable pub clear_progress : ℤ → Statement (Unit {0})
clear_progress user_id t now =
    ok (tt, record t { user_progress = rows_without (λ p. p.user_id == user_id) t.user_progress })

-- The rows of an INSERT … SELECT after one of them.
abbrev pub next_row :
    Result SqlError (Unit {0} × Tables)
    → (Tables → Result SqlError (Unit {0} × Tables))
    → Result SqlError (Unit {0} × Tables)
next_row (err e) rest = err e
next_row (ok (_, t)) rest = rest t

-- INSERT INTO user_progress (user_id, level_id) SELECT ?, id FROM …: a failing row fails it whole.
unfoldable pub insert_progress_select : ℤ → List LevelRow → Statement (Unit {0})
insert_progress_select user_id [] t now = ok (tt, t)
insert_progress_select user_id (l ∷ ls) t now =
    next_row (insert_progress user_id l.id t now) (λ t'. insert_progress_select user_id ls t' now)

-- … levels ORDER BY order_index LIMIT ?
unfoldable pub insert_first_levels : ℤ → ℕ → Statement (Unit {0})
insert_first_levels user_id limit t now =
    insert_progress_select user_id (take limit (order_by (λ l. l.order_index) t.levels)) t now

abbrev max_int : ℕ
max_int = 2 ^ 63 - 1

-- `level - 1` on a 64-bit int, which wraps below its least value.
unfoldable pub int_pred : ℤ → ℤ
int_pred (pos zero) = negsuc 0
int_pred (pos (suc n)) = pos n
int_pred (negsuc n) = if nat_eq n max_int then pos max_int else negsuc (suc n)

-- `if solved > 0 { INSERT … LIMIT solved }`
unfoldable pub mark_solved : ℤ → ℤ → M StoreError (Unit {0})
mark_solved id (pos (suc n)) = wrap database (exec (insert_first_levels id (suc n)))
mark_solved id _ = pure tt

unfoldable pub set_user_progress_to_level : ℤ → ℤ → M StoreError (Unit {0})
set_user_progress_to_level id level = transaction database (do
  wrap row_err (exec (query_row (λ t. first_where (λ u. u.id == id) t.users)))
  wrap database (exec (clear_progress id))
  mark_solved id (int_pred level))
