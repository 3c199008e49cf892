-- ===== src/Seed.antt =====
-- cmd/seed/main.go: the seed file and load, which rebuilds the content from it. The file is what
-- json.Decoder gives for it.
pub mod Content
-- pub mod Refusal
pub mod Levels
pub mod Tools
pub mod Exact
pub mod Faults
pub mod Integrity
use crypticquest_backend.Base.{
  ℕ, ◌+◌, String, ◌==◌, string_key, int_key, ℤ, pos, Option, none, some, List, [], ◌∷◌, has, not,
  rows_where, update_where, Bool, false, if◌then◌else◌,
}
use crypticquest_backend.Schema.{Tables, ToolRow}
use crypticquest_backend.Engine.{
  SqlError, ok, M, Statement, exec, wrap, pure, raise, ◌>>=◌, ◌>>◌, transaction,
}
use crypticquest_backend.Store.Levels.{AdminLevelInput, insert_level}
use crypticquest_backend.Store.Hints.{insert_hint}
use crypticquest_backend.Store.Tools.{ToolInput, insert_tool}

pub record SeedTool : Type 0 where
  pub type : String
  pub title : String
  pub description : String
  pub content : String
  pub unlocks_at_level : Option String

pub record SeedLevel : Type 0 where
  pub key : String
  pub order_index : ℤ
  pub title : String
  pub description : String
  pub flag : String
  pub hints : List String

pub record SeedFile : Type 0 where
  pub tools : List SeedTool
  pub levels : List SeedLevel

-- The errors of load, by their formats; `transaction_failed` is one of Begin and Commit.
pub data SeedError : Type 0 where
  transaction_failed reset_failed : SqlError → SeedError
  clear_failed : String → SqlError → SeedError
  no_key duplicate_key : String → SeedError
  level_failed tool_failed : String → SqlError → SeedError
  hint_failed : ℕ → String → SqlError → SeedError
  unknown_level : String → String → SeedError

-- DELETE FROM hints
unfoldable pub clear_hints : Statement (Unit {0})
clear_hints t now = ok (tt, record t { hints = [] })

-- DELETE FROM tools; nothing refers to a tool.
unfoldable pub clear_tools : Statement (Unit {0})
clear_tools t now = ok (tt, record t { tools = [] })

-- A reference to one of the levels, which are all deleted.
unfoldable pub refers : Tables → ℤ → Bool
refers t id = has (λ l. l.id == id) t.levels

tool_refers : Tables → Option ℤ → Bool
tool_refers t none = false
tool_refers t (some id) = refers t id

-- DELETE FROM levels, with the cascades to hints and user_progress and the SET NULL on tools.
unfoldable pub clear_levels : Statement (Unit {0})
unfolding refers tool_refers
clear_levels t now = ok (
  tt,
  record t {
    levels = [];
    hints = rows_where (λ x. not (refers t x.level_id)) t.hints;
    user_progress = rows_where (λ p. not (refers t p.level_id)) t.user_progress;
    tools =
        update_where (λ x. tool_refers t x.unlocks_at_level_id)
          (λ x. record x { unlocks_at_level_id = none }) t.tools;
  },
)

-- DELETE FROM sqlite_sequence WHERE name IN ('tools', 'levels', 'hints')
unfoldable pub reset_counters : Statement (Unit {0})
reset_counters t now = ok (tt, record t { tool_seq = 0; level_seq = 0; hint_seq = 0 })

unfoldable pub clear : M SeedError (Unit {0})
clear = do
  wrap (clear_failed "hints") (exec clear_hints)
  wrap (clear_failed "tools") (exec clear_tools)
  wrap (clear_failed "levels") (exec clear_levels)
  wrap reset_failed (exec reset_counters)

-- `levelID`, the latest key first.
abbrev pub LevelIds : Type 0
LevelIds = List (String × ℤ)

-- `_, dup := levelID[key]`
abbrev pub has_id : LevelIds → String → Bool
has_id ids key = has (λ e. e.0 == key) ids

-- `levelID[key]`
abbrev pub level_id : LevelIds → String → Option ℤ
level_id [] key = none
level_id (e ∷ ids) key = let rest = level_id ids key in if e.0 == key then some e.1 else rest

-- `for i, text := range l.Hints`
unfoldable pub load_hints : String → ℤ → ℕ → List String → M SeedError (Unit {0})
load_hints title id i [] = pure tt
load_hints title id i (text ∷ texts) = do
  wrap (hint_failed (i + 1) title) (exec (insert_hint id (pos (i + 1)) text))
  load_hints title id (i + 1) texts

abbrev pub level_input : SeedLevel → AdminLevelInput
level_input l = record {
  order_index = l.order_index;
  title = l.title;
  description = l.description;
  flag = l.flag;
}

-- One round of the loop over the levels.
unfoldable pub load_level : LevelIds → SeedLevel → M SeedError LevelIds
load_level ids l =
    if l.key == ""
    then raise (no_key l.title)
    else if has_id ids l.key
    then raise (duplicate_key l.key)
    else (do
      id ← wrap (level_failed l.title) (exec (insert_level (level_input l)))
      load_hints l.title id 0 l.hints
      pure ((l.key, id) ∷ ids))

unfoldable pub load_levels : LevelIds → List SeedLevel → M SeedError LevelIds
load_levels ids [] = pure ids
load_levels ids (l ∷ ls) = do ids' ← load_level ids l; load_levels ids' ls

unknown_or : SeedTool → String → Option ℤ → M SeedError (Option ℤ)
unknown_or tool key none = raise (unknown_level tool.title key)
unknown_or tool key (some id) = pure (some id)

unlocks_named : LevelIds → SeedTool → Option String → M SeedError (Option ℤ)
unlocks_named ids tool none = pure none
unlocks_named ids tool (some key) =
    if key == "" then pure none else unknown_or tool key (level_id ids key)

-- NULL unless the tool names a known level.
unfoldable pub unlocks : LevelIds → SeedTool → M SeedError (Option ℤ)
unfolding unlocks_named unknown_or
unlocks ids tool = unlocks_named ids tool tool.unlocks_at_level

abbrev pub tool_input : SeedTool → Option ℤ → ToolInput
tool_input tool level = record {
  type = tool.type;
  title = tool.title;
  description = tool.description;
  content = tool.content;
  unlocks_at_level_id = level;
}

unfoldable pub load_tools : LevelIds → List SeedTool → M SeedError (Unit {0})
load_tools ids [] = pure tt
load_tools ids (tool ∷ tools) = do
  level ← unlocks ids tool
  wrap (tool_failed tool.title) (exec (insert_tool (tool_input tool level)))
  load_tools ids tools

pub load_content : SeedFile → M SeedError (Unit {0})
load_content seed = do clear; ids ← load_levels [] seed.levels; load_tools ids seed.tools

unfoldable pub load : SeedFile → M SeedError (Unit {0})
unfolding load_content
load seed = transaction transaction_failed (load_content seed)
