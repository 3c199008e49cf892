-- ===== src/Tests.antt =====
-- A small database, and each theorem at it.
pub mod Access
pub mod Requests
pub mod Accounts
pub mod Routes
pub mod Admin
pub mod Cors
pub mod Seed
pub mod Files
pub mod Game
pub mod Config
pub mod Logging
pub mod Auth
use crypticquest_backend.Base.{
  ℕ, String, ℤ, pos, Bool, Option, none, some, List, [], ◌∷◌, refl, int_eq, arith,
}
use crypticquest_backend.Schema.{
  Tables, UserRow, SessionRow, ToolRow, LevelRow, HintRow, ProgressRow,
}
use crypticquest_backend.Engine.{Db}
use crypticquest_backend.Store.Integrity.{IsConsistent}

abbrev pub root : UserRow
root = record {
  id = pos 1;
  username = "root";
  password_hash = "h(first)";
  role = "admin";
  created_at = 100;
}

abbrev pub ada : UserRow
ada = record {
  id = pos 2;
  username = "ada";
  password_hash = "h(second)";
  role = "player";
  created_at = 200;
}

-- The levels were added out of order.
abbrev pub gate_level : LevelRow
gate_level = record {
  id = pos 1;
  order_index = pos 20;
  title = "Gate";
  description = "two";
  flag = "Key";
}

abbrev pub door_level : LevelRow
door_level = record {
  id = pos 2;
  order_index = pos 10;
  title = "Door";
  description = "one";
  flag = "Knock";
}

abbrev pub tower_level : LevelRow
tower_level = record {
  id = pos 3;
  order_index = pos 30;
  title = "Tower";
  description = "three";
  flag = "Top";
}

-- Ada has solved the first level of three.
abbrev pub tables : Tables
tables = record {
  users = root ∷ ada ∷ [];
  sessions =
      record { token = "t-root"; user_id = pos 1; expires_at = 4000000 }
      ∷ record { token = "t-ada"; user_id = pos 2; expires_at = 2000000 }
      ∷ [];
  tools =
      record {
        id = pos 1;
        type = "link";
        title = "Map";
        description = none;
        content = "map.pdf";
        unlocks_at_level_id = some (pos 2);
      }
      ∷ [];
  levels = gate_level ∷ door_level ∷ tower_level ∷ [];
  hints =
      record { id = pos 1; level_id = pos 1; order_index = pos 2; text = "look" }
      ∷ record { id = pos 2; level_id = pos 1; order_index = pos 1; text = "wait" }
      ∷ [];
  user_progress = record { id = pos 1; user_id = pos 2; level_id = pos 2; solved_at = 300 } ∷ [];
  user_seq = 2;
  tool_seq = 1;
  level_seq = 3;
  hint_seq = 2;
  progress_seq = 1;
}

abbrev pub db : Db
db = record { tables = tables; now = 1000; faults = [] }

pub tables-IsConsistent : IsConsistent tables
unfolding int_eq
tables-IsConsistent = record {
  users = ((refl, (refl, tt)), (refl, (refl, tt)), (omega arith, (omega arith, tt)));
  levels = (
    (refl, (refl, (refl, tt))),
    (refl, (refl, (refl, tt))),
    (omega arith, (omega arith, (omega arith, tt))),
  );
  tools = ((refl, tt), (omega arith, tt));
  hints = ((refl, (refl, tt)), (omega arith, (omega arith, tt)));
  progress = ((refl, tt), (refl, tt), (omega arith, tt));
  tokens = (refl, (refl, tt));
  session_users = (refl, (refl, tt));
  progress_users = (refl, tt);
  progress_levels = (refl, tt);
  hint_levels = (refl, (refl, tt));
  tool_levels = (refl, tt);
}
