-- ===== src/Store/Hints.antt =====
-- internal/store/hints.go
use crypticquest_backend.Base.{
  ℕ, suc, ◌+◌, String, ◌==◌, int_key, ℤ, pos, List, [], ◌∷◌, ◌++◌, if◌then◌else◌, has, rows_where,
  rows_without, order_by, map,
}
use crypticquest_backend.Schema.{Tables, HintRow}
use crypticquest_backend.Engine.{
  foreign_key_violation, ok, err, M, Statement, exec, query, query_row, wrap, pure, ◌>>◌,
  transaction,
}
use crypticquest_backend.Store.Errors.{StoreError, database, row_err}
use crypticquest_backend.Store.Levels.{find_level}

-- The player's view of a hint.
pub record Hint : Type 0 where
  pub id : ℤ
  pub text : String

unfoldable pub hint : HintRow → Hint
hint x = record { id = x.id; text = x.text }

-- SELECT id, text FROM hints WHERE level_id = ? ORDER BY order_index
unfoldable pub hints_of : ℤ → Tables → List Hint
unfolding hint
hints_of level_id t =
    map hint (order_by (λ x. x.order_index) (rows_where (λ x. x.level_id == level_id) t.hints))

unfoldable pub hints_for_level : ℤ → M StoreError (List Hint)
hints_for_level level_id = wrap database (exec (query (hints_of level_id)))

-- DELETE FROM hints WHERE level_id = ?
unfoldable pub clear_hints : ℤ → Statement (Unit {0})
clear_hints level_id t now =
    ok (tt, record t { hints = rows_without (λ x. x.level_id == level_id) t.hints })

-- INSERT INTO hints (level_id, order_index, text) VALUES (?, ?, ?)
unfoldable pub insert_hint : ℤ → ℤ → String → Statement (Unit {0})
insert_hint level_id order_index text t now =
    if has (λ l. l.id == level_id) t.levels
    then ok (
      tt,
      record t {
        hints =
            t.hints
            ++ record {
              id = pos (suc t.hint_seq);
              level_id = level_id;
              order_index = order_index;
              text = text;
            }
              ∷ [];
        hint_seq = suc t.hint_seq;
      },
    )
    else err foreign_key_violation

-- `for i, text := range texts`
unfoldable pub insert_hints : ℤ → ℕ → List String → M StoreError (Unit {0})
insert_hints level_id i [] = pure tt
insert_hints level_id i (text ∷ texts) = do
  wrap database (exec (insert_hint level_id (pos (i + 1)) text))
  insert_hints level_id (i + 1) texts

unfoldable pub replace_hints : ℤ → List String → M StoreError (Unit {0})
unfolding find_level
replace_hints level_id texts = transaction database (do
  wrap row_err (exec (query_row (find_level level_id)))
  wrap database (exec (clear_hints level_id))
  insert_hints level_id 0 texts)
