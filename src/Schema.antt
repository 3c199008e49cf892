-- ===== src/Schema.antt =====
-- migrations/000001_init_schema.up.sql and 000002_invert_tool_unlock.up.sql: the six tables after
-- both migrations. A table is the list of its rows in the order of insertion. Keys are int64
-- values; AUTOINCREMENT keys come from the counters of sqlite_sequence.
use crypticquest_backend.Base.{ℕ, String, Option, List, [], ℤ}

-- `created_at` is CURRENT_TIMESTAMP, in seconds.
pub record UserRow : Type 0 where
  pub id : ℤ
  pub username : String
  pub password_hash : String
  pub role : String
  pub created_at : ℕ

-- `expires_at` is an RFC3339 timestamp, in whole seconds.
pub record SessionRow : Type 0 where
  pub token : String
  pub user_id : ℤ
  pub expires_at : ℕ

pub record ToolRow : Type 0 where
  pub id : ℤ
  pub type : String
  pub title : String
  pub description : Option String
  pub content : String
  pub unlocks_at_level_id : Option ℤ

pub record LevelRow : Type 0 where
  pub id : ℤ
  pub order_index : ℤ
  pub title : String
  pub description : String
  pub flag : String

pub record HintRow : Type 0 where
  pub id : ℤ
  pub level_id : ℤ
  pub order_index : ℤ
  pub text : String

pub record ProgressRow : Type 0 where
  pub id : ℤ
  pub user_id : ℤ
  pub level_id : ℤ
  pub solved_at : ℕ

pub record Tables : Type 0 where
  pub users : List UserRow
  pub sessions : List SessionRow
  pub tools : List ToolRow
  pub levels : List LevelRow
  pub hints : List HintRow
  pub user_progress : List ProgressRow
  pub user_seq : ℕ
  pub tool_seq : ℕ
  pub level_seq : ℕ
  pub hint_seq : ℕ
  pub progress_seq : ℕ

-- The tables that the migrations create.
abbrev pub fresh : Tables
fresh = record {
  users = [];
  sessions = [];
  tools = [];
  levels = [];
  hints = [];
  user_progress = [];
  user_seq = 0;
  tool_seq = 0;
  level_seq = 0;
  hint_seq = 0;
  progress_seq = 0;
}
