-- ===== src/Store/Levels.antt =====
-- internal/store/levels.go
use crypticquest_backend.Base.{
  ℕ, suc, String, ◌==◌, int_key, ℤ, pos, Bool, false, Option, none, some, List, [], ◌∷◌, ◌++◌, not,
  ◌&&◌, if◌then◌else◌, has, count_where, rows_without, first_where, update_where, order_by, take,
  map,
}
use crypticquest_backend.Schema.{Tables, LevelRow, ToolRow}
use crypticquest_backend.Engine.{
  SqlError, unique_violation, ok, err, M, Statement, exec, query, query_row, wrap, ◌>>=◌,
}
use crypticquest_backend.Store.Errors.{
  StoreError, order_index_taken, database, is_unique_violation, row_err, affected,
}
use crypticquest_backend.Store.Progress.{has_progress, current_level}

-- The player's summary of a level.
pub record LevelListItem : Type 0 where
  pub id : ℤ
  pub title : String
  pub solved : Bool

-- The columns of the LEFT JOIN with the player's progress; UNIQUE(user_id, level_id) leaves at
-- most one matching row, so a level comes once.
unfoldable pub level_list_item : ℤ → Tables → LevelRow → LevelListItem
level_list_item user_id t l = record {
  id = l.id;
  title = l.title;
  solved = has_progress user_id l.id t;
}

-- The levels ORDER BY order_index LIMIT current.
unfoldable pub first_levels : ℕ → Tables → List LevelRow
first_levels current t = take current (order_by (λ l. l.order_index) t.levels)

unfoldable pub list_accessible_levels : ℤ → M StoreError (List LevelListItem)
unfolding first_levels level_list_item
list_accessible_levels user_id = do
  current ← current_level user_id
  wrap database (exec (query (λ t. map (level_list_item user_id t) (first_levels current t))))

-- The player's view of one level.
pub record LevelDetail : Type 0 where
  pub id : ℤ
  pub title : String
  pub description : String
  pub solved : Bool
  pub order_index : ℤ

unfoldable pub level_detail : ℤ → Tables → LevelRow → LevelDetail
level_detail user_id t l = record {
  id = l.id;
  title = l.title;
  description = l.description;
  solved = has_progress user_id l.id t;
  order_index = l.order_index;
}

unfoldable pub find_level : ℤ → Tables → Option LevelRow
find_level id t = first_where (λ l. l.id == id) t.levels

find_level_detail : ℤ → ℤ → Tables → Option LevelDetail
find_level_detail user_id level_id t = elim (find_level level_id t) [
  | none ↦ none
  | some l ↦ some (level_detail user_id t l)
]

unfoldable pub level_by_id : ℤ → ℤ → M StoreError LevelDetail
unfolding find_level_detail find_level level_detail
level_by_id user_id level_id = wrap row_err (exec (query_row (find_level_detail user_id level_id)))

find_submit_columns : ℤ → Tables → Option (ℤ × String)
find_submit_columns level_id t = elim (find_level level_id t) [
  | none ↦ none
  | some l ↦ some (l.order_index, l.flag)
]

-- The order_index and the flag, which no other player path reads.
unfoldable pub level_for_submit : ℤ → M StoreError (ℤ × String)
unfolding find_submit_columns find_level
level_for_submit level_id = wrap row_err (exec (query_row (find_submit_columns level_id)))

-- AdminLevel has the columns of the table, flag included.
abbrev pub AdminLevel : Type 0
AdminLevel = LevelRow

pub record AdminLevelInput : Type 0 where
  pub order_index : ℤ
  pub title : String
  pub description : String
  pub flag : String

unfoldable pub list_all_levels : M StoreError (List AdminLevel)
list_all_levels = wrap database (exec (query (λ t. order_by (λ l. l.order_index) t.levels)))

unfoldable pub admin_level_by_id : ℤ → M StoreError AdminLevel
unfolding find_level
admin_level_by_id id = wrap row_err (exec (query_row (find_level id)))

unfoldable pub map_level_write_err : SqlError → StoreError
unfolding is_unique_violation
map_level_write_err e = if is_unique_violation e then order_index_taken else database e

-- INSERT INTO levels (order_index, title, description, flag) VALUES (?, ?, ?, ?)
unfoldable pub insert_level : AdminLevelInput → Statement ℤ
insert_level new t now =
    if has (λ l. l.order_index == new.order_index) t.levels
    then err unique_violation
    else let id = pos (suc t.level_seq) in
      ok (
        id,
        record t {
          levels =
              t.levels
              ++ record {
                id = id;
                order_index = new.order_index;
                title = new.title;
                description = new.description;
                flag = new.flag;
              }
                ∷ [];
          level_seq = suc t.level_seq;
        },
      )

unfoldable pub create_level : AdminLevelInput → M StoreError ℤ
create_level new = wrap map_level_write_err (exec (insert_level new))

unfoldable pub set_level : AdminLevelInput → LevelRow → LevelRow
set_level new l = record {
  id = l.id;
  order_index = new.order_index;
  title = new.title;
  description = new.description;
  flag = new.flag;
}

-- UPDATE levels SET … WHERE id = ?: the new order_index must not be that of another row.
unfoldable pub update_level_rows : ℤ → AdminLevelInput → Statement ℕ
unfolding set_level
update_level_rows id new t now =
    if has (λ l. l.id == id) t.levels
      && has (λ l. not (l.id == id) && (l.order_index == new.order_index)) t.levels
    then err unique_violation
    else ok (
      count_where (λ l. l.id == id) t.levels,
      record t { levels = update_where (λ l. l.id == id) (set_level new) t.levels },
    )

unfoldable pub update_level : ℤ → AdminLevelInput → M StoreError (Unit {0})
update_level id new = do n ← wrap map_level_write_err (exec (update_level_rows id new)); affected n

-- `unlocks_at_level_id = ?`, which NULL never meets
unfoldable pub unlocks_at : ℤ → ToolRow → Bool
unlocks_at id tool = elim tool.unlocks_at_level_id [ none ↦ false | some l ↦ l == id ]

-- DELETE FROM levels WHERE id = ?; the hints and the progress of a deleted row cascade, and the
-- tools that it unlocks are set to NULL.
unfoldable pub delete_level_row : ℤ → Statement ℕ
unfolding unlocks_at
delete_level_row id t now =
    if has (λ l. l.id == id) t.levels
    then ok (
      count_where (λ l. l.id == id) t.levels,
      record t {
        levels = rows_without (λ l. l.id == id) t.levels;
        hints = rows_without (λ x. x.level_id == id) t.hints;
        user_progress = rows_without (λ p. p.level_id == id) t.user_progress;
        tools = update_where (unlocks_at id) (λ x. record x { unlocks_at_level_id = none }) t.tools;
      },
    )
    else ok (0, t)

unfoldable pub delete_level : ℤ → M StoreError (Unit {0})
delete_level id = do n ← wrap database (exec (delete_level_row id)); affected n
