-- ===== src/Seed/Content.antt =====
-- What cmd/seed/main.go is to leave: the content of a seed file, with ids in the order of the file.
use crypticquest_backend.Base.{
  ℕ, suc, ◌+◌, ◌≡◌, String, ◌==◌, string_key, int_key, ℤ, pos, false, Option, none, some, List, [],
  ◌∷◌, ◌++◌, length, if◌then◌else◌, All, Distinct,
}
use crypticquest_backend.Schema.{Tables, LevelRow, HintRow, ToolRow}
use crypticquest_backend.Seed.{SeedTool, SeedLevel, SeedFile}

abbrev pub level_row : ℕ → SeedLevel → LevelRow
level_row n l = record {
  id = pos (suc n);
  order_index = l.order_index;
  title = l.title;
  description = l.description;
  flag = l.flag;
}

-- `n` levels stand before these.
abbrev pub level_rows : ℕ → List SeedLevel → List LevelRow
level_rows n [] = []
level_rows n (l ∷ ls) = level_row n l ∷ level_rows (suc n) ls

-- The hints of one level, from its `i`-th on, after `h` hints of all levels.
abbrev pub text_rows : ℕ → ℤ → ℕ → List String → List HintRow
text_rows h id i [] = []
text_rows h id i (text ∷ texts) =
    record { id = pos (suc h); level_id = id; order_index = pos (i + 1); text = text }
    ∷ text_rows (suc h) id (i + 1) texts

abbrev pub hint_rows : ℕ → ℕ → List SeedLevel → List HintRow
hint_rows h n [] = []
hint_rows h n (l ∷ ls) =
    text_rows h (pos (suc n)) 0 l.hints ++ hint_rows (h + length l.hints) (suc n) ls

abbrev pub hint_count : List SeedLevel → ℕ
hint_count [] = 0
hint_count (l ∷ ls) = length l.hints + hint_count ls

-- The id of the level with a key.
abbrev pub key_id : ℕ → List SeedLevel → String → Option ℤ
key_id n [] key = none
key_id n (l ∷ ls) key =
    let rest = key_id (suc n) ls key in if l.key == key then some (pos (suc n)) else rest

-- The level of a tool: none is named by null and by "".
abbrev pub named_level : (String → Option ℤ) → Option String → Option ℤ
named_level id none = none
named_level id (some key) = if key == "" then none else id key

abbrev pub tool_row : (String → Option ℤ) → ℕ → SeedTool → ToolRow
tool_row id n tool = record {
  id = pos (suc n);
  type = tool.type;
  title = tool.title;
  description = some tool.description;
  content = tool.content;
  unlocks_at_level_id = named_level id tool.unlocks_at_level;
}

abbrev pub tool_rows : (String → Option ℤ) → ℕ → List SeedTool → List ToolRow
tool_rows id n [] = []
tool_rows id n (tool ∷ tools) = tool_row id n tool ∷ tool_rows id (suc n) tools

-- Accounts and sessions stay, and nobody has solved anything.
abbrev pub content : SeedFile → Tables → Tables
content seed t = record t {
  levels = level_rows 0 seed.levels;
  hints = hint_rows 0 0 seed.levels;
  tools = tool_rows (key_id 0 seed.levels) 0 seed.tools;
  user_progress = [];
  level_seq = length seed.levels;
  hint_seq = hint_count seed.levels;
  tool_seq = length seed.tools;
}

-- A key by which a tool may name a level: "" names none.
abbrev pub IsKnown : (String → Option ℤ) → Option String → Type 0
IsKnown id none = Unit
IsKnown id (some key) = (key == "") ≡ false → (level : ℤ) × (id key ≡ some level)

-- A seed file that can be loaded.
pub record IsSeed (seed : SeedFile) : Type 0 where
  pub keys_given : All (λ l. (l.key == "") ≡ false) seed.levels
  pub keys : Distinct (λ l. l.key) seed.levels
  pub orders : Distinct (λ l. l.order_index) seed.levels
  pub references : All (λ tool. IsKnown (key_id 0 seed.levels) tool.unlocks_at_level) seed.tools
