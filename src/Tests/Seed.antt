-- ===== src/Tests/Seed.antt =====
-- The theorems on the seed command at the database of the tests, and runs of it.
use crypticquest_backend.Base.{◌≡◌, refl, ◌⊎◌, pos, true, false, some, [], ◌∷◌, int_eq}
use crypticquest_backend.Engine.{Db, ok, err, exec, transaction, failure}
use crypticquest_backend.Store.Levels.{insert_level}
use crypticquest_backend.Store.Hints.{insert_hint}
use crypticquest_backend.Store.Tools.{insert_tool, level_ref_exists}
use crypticquest_backend.Store.Integrity.{IsConsistent}
use crypticquest_backend.Seed.{
  SeedTool, SeedLevel, SeedFile, SeedError, tool_failed, unknown_level, load, clear, clear_hints,
  clear_tools, clear_levels, reset_counters, refers, load_hints, load_level, load_levels,
  load_tools, unlocks,
}
use crypticquest_backend.Seed.Content.{content, IsSeed}
use crypticquest_backend.Seed.Exact.{Outcome, load_exact}
use crypticquest_backend.Seed.Faults.{load_all_or_nothing}
use crypticquest_backend.Seed.Integrity.{load-IsConsistent}
use crypticquest_backend.Tests.{db, tables, tables-IsConsistent}

abbrev cipher : SeedLevel
cipher = record {
  key = "cipher";
  order_index = pos 10;
  title = "Cipher";
  description = "read it";
  flag = "Rot";
  hints = "turn" ∷ "thirteen" ∷ [];
}

abbrev maze : SeedLevel
maze = record {
  key = "maze";
  order_index = pos 20;
  title = "Maze";
  description = "leave it";
  flag = "Out";
  hints = "left" ∷ [];
}

abbrev wheel : SeedTool
wheel = record {
  type = "link";
  title = "Wheel";
  description = "";
  content = "wheel.html";
  unlocks_at_level = some "maze";
}

abbrev seed : SeedFile
seed = record { tools = wheel ∷ []; levels = cipher ∷ maze ∷ [] }

-- Its tool names a level that is not there.
abbrev typo : SeedFile
typo = record seed { tools = record wheel { unlocks_at_level = some "mase" } ∷ [] }

-- The insertion of the tool fails.
abbrev failing : Db
failing = record db {
  faults =
      false ∷ false ∷ false ∷ false ∷ false ∷ false ∷ false ∷ false ∷ false ∷ false ∷ true ∷ [];
}

load_runs :
    ((load seed db).0 ≡ ok tt)
    × ((load seed db).1.tables ≡ content seed tables)
    × ((load typo db).0 ≡ err (unknown_level "Wheel" "mase"))
    × ((load seed failing).0 ≡ err (tool_failed "Wheel" failure))
unfolding load clear clear_hints clear_tools clear_levels reset_counters refers load_hints
    load_level load_levels load_tools unlocks insert_level insert_hint insert_tool level_ref_exists
    exec transaction int_eq
load_runs = (refl, refl, refl, refl)

load_exact_example : Outcome seed tables (load seed db)
load_exact_example = load_exact seed db tables-IsConsistent refl

load_all_or_nothing_example :
    (IsSeed seed
      × ((load seed failing).0 ≡ ok tt)
      × ((load seed failing).1.tables ≡ content seed tables))
    ⊎ (((e : SeedError) × ((load seed failing).0 ≡ err e))
        × ((load seed failing).1.tables ≡ tables))
load_all_or_nothing_example = load_all_or_nothing seed failing tables-IsConsistent

load-IsConsistent_example : IsConsistent (load seed db).1.tables
load-IsConsistent_example = load-IsConsistent seed db tables-IsConsistent
