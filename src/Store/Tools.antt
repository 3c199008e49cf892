-- ===== src/Store/Tools.antt =====
-- internal/store/tools.go
use crypticquest_backend.Base.{
  ℕ, suc, String, ◌==◌, int_key, string_key, ℤ, pos, Bool, true, Option, none, some, List, [], ◌∷◌,
  ◌++◌, not, ◌&&◌, if◌then◌else◌, has, count_where, rows_where, rows_without, first_where,
  update_where, order_by, map,
}
use crypticquest_backend.Schema.{Tables, ToolRow}
use crypticquest_backend.Engine.{
  SqlError, foreign_key_violation, ok, err, M, Statement, exec, query, query_row, wrap, ◌>>=◌,
}
use crypticquest_backend.Store.Errors.{
  StoreError, invalid_reference, database, is_foreign_key_violation, row_err, affected,
}
use crypticquest_backend.Store.Progress.{has_progress}

pub record Tool : Type 0 where
  pub id : ℤ
  pub type : String
  pub title : String
  pub description : String
  pub content : String
  pub unlocks_at_level_id : Option ℤ

-- COALESCE(description, '')
coalesce : Option String → String
coalesce none = ""
coalesce (some s) = s

unfoldable pub admin_tool : ToolRow → Tool
unfolding coalesce
admin_tool x = record {
  id = x.id;
  type = x.type;
  title = x.title;
  description = coalesce x.description;
  content = x.content;
  unlocks_at_level_id = x.unlocks_at_level_id;
}

-- Player reads leave the unlock level out.
unfoldable pub player_tool : ToolRow → Tool
unfolding admin_tool
player_tool x = record (admin_tool x) { unlocks_at_level_id = none }

-- IN (SELECT level_id FROM user_progress WHERE user_id = ?), and the NULL that is always open
unfoldable pub is_unlocked : ℤ → Tables → ToolRow → Bool
unfolding has_progress
is_unlocked user_id t x = elim x.unlocks_at_level_id [
  | none ↦ true
  | some l ↦ has_progress user_id l t
]

unfoldable pub unlocked_tools : ℤ → M StoreError (List Tool)
unfolding player_tool is_unlocked
unlocked_tools user_id = wrap database (
    exec (
      query
        (λ t. map player_tool (order_by (λ x. x.id) (rows_where (is_unlocked user_id t) t.tools)))))

unfoldable pub is_tool_file_unlocked : ℤ → String → M StoreError Bool
unfolding is_unlocked
is_tool_file_unlocked user_id path =
    wrap database
      (exec (query (λ t. has (λ x. (x.content == path) && is_unlocked user_id t x) t.tools)))

pub record ToolInput : Type 0 where
  pub type : String
  pub title : String
  pub description : String
  pub content : String
  pub unlocks_at_level_id : Option ℤ

unfoldable pub list_all_tools : M StoreError (List Tool)
unfolding admin_tool
list_all_tools = wrap database (exec (query (λ t. map admin_tool (order_by (λ x. x.id) t.tools))))

find_tool : ℤ → Tables → Option Tool
unfolding admin_tool
find_tool id t = elim (first_where (λ x. x.id == id) t.tools) [
  | none ↦ none
  | some x ↦ some (admin_tool x)
]

unfoldable pub tool_by_id : ℤ → M StoreError Tool
unfolding find_tool
tool_by_id id = wrap row_err (exec (query_row (find_tool id)))

unfoldable pub map_tool_write_err : SqlError → StoreError
unfolding is_foreign_key_violation
map_tool_write_err e = if is_foreign_key_violation e then invalid_reference else database e

-- The foreign key: NULL, or the id of a level.
unfoldable pub level_ref_exists : Option ℤ → Tables → Bool
level_ref_exists none t = true
level_ref_exists (some id) t = has (λ l. l.id == id) t.levels

-- INSERT INTO tools (type, title, description, content, unlocks_at_level_id) VALUES (?, ?, ?, ?, ?)
unfoldable pub insert_tool : ToolInput → Statement ℤ
insert_tool new t now =
    let id = pos (suc t.tool_seq) in
    if level_ref_exists new.unlocks_at_level_id t
    then ok (
      id,
      record t {
        tools =
            t.tools
            ++ record {
              id = id;
              type = new.type;
              title = new.title;
              description = some new.description;
              content = new.content;
              unlocks_at_level_id = new.unlocks_at_level_id;
            }
              ∷ [];
        tool_seq = suc t.tool_seq;
      },
    )
    else err foreign_key_violation

unfoldable pub create_tool : ToolInput → M StoreError ℤ
create_tool new = wrap map_tool_write_err (exec (insert_tool new))

unfoldable pub set_tool : ToolInput → ToolRow → ToolRow
set_tool new x = record {
  id = x.id;
  type = new.type;
  title = new.title;
  description = some new.description;
  content = new.content;
  unlocks_at_level_id = new.unlocks_at_level_id;
}

-- UPDATE tools SET … WHERE id = ?: the reference is checked when a row is written.
unfoldable pub update_tool_rows : ℤ → ToolInput → Statement ℕ
unfolding set_tool
update_tool_rows id new t now =
    if has (λ x. x.id == id) t.tools && not (level_ref_exists new.unlocks_at_level_id t)
    then err foreign_key_violation
    else ok (
      count_where (λ x. x.id == id) t.tools,
      record t { tools = update_where (λ x. x.id == id) (set_tool new) t.tools },
    )

unfoldable pub update_tool : ℤ → ToolInput → M StoreError (Unit {0})
update_tool id new = do n ← wrap map_tool_write_err (exec (update_tool_rows id new)); affected n

-- DELETE FROM tools WHERE id = ?; nothing refers to a tool.
unfoldable pub delete_tool_row : ℤ → Statement ℕ
delete_tool_row id t now = ok (
  count_where (λ x. x.id == id) t.tools,
  record t { tools = rows_without (λ x. x.id == id) t.tools },
)

unfoldable pub delete_tool : ℤ → M StoreError (Unit {0})
delete_tool id = do n ← wrap database (exec (delete_tool_row id)); affected n
