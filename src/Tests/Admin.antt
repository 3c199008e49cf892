-- ===== src/Tests/Admin.antt =====
-- The theorems on the admin surface and the first admin at the databases of the tests.
use crypticquest_backend.Base.{
  ◌+◌, length, ◌≡◌, refl, ◌==◌, int_key, string_key, String, pos, Option, some, [], ◌∷◌, ◌++◌, has,
}
use crypticquest_backend.Schema.{fresh}
use crypticquest_backend.Engine.{Db}
use crypticquest_backend.Store.Levels.{AdminLevelInput}
use crypticquest_backend.Store.Tools.{ToolInput, level_ref_exists}
use crypticquest_backend.Http.{response}
use crypticquest_backend.Handlers.Admin.{complaint}
use crypticquest_backend.Handlers.Admin.Levels.{admin_create_level, level_guards}
use crypticquest_backend.Handlers.Admin.Levels.Create.{creation, added, admin_create_level_exact}
use crypticquest_backend.Handlers.Admin.Tools.{admin_create_tool, tool_guards}
use crypticquest_backend.Handlers.Admin.Tools.Create.{
  tool_creation, tools_added, admin_create_tool_exact,
}
use crypticquest_backend.Server.{bootstrap_admin}
use crypticquest_backend.Server.Bootstrap.{first_admin, bootstrap_admin_exact}
use crypticquest_backend.Tests.{db, tables, tables-IsConsistent, ada}

abbrev bridge : AdminLevelInput
bridge = record { order_index = pos 15; title = "Bridge"; description = "between"; flag = "Span" }

admin_create_level_exact_example :
    let wrong = complaint (level_guards bridge) in
    let taken = has (λ l. l.order_index == pos 15) tables.levels in
    (response (admin_create_level (some bridge) db).0 ≡ creation bridge wrong taken 3)
    × ((admin_create_level (some bridge) db).1.tables.levels
        ≡ tables.levels ++ added bridge wrong taken 3)
admin_create_level_exact_example = admin_create_level_exact bridge db refl tables-IsConsistent

abbrev lamp : ToolInput
lamp = record {
  type = "link";
  title = "Lamp";
  description = "";
  content = "https://lamp";
  unlocks_at_level_id = some (pos 2);
}

admin_create_tool_exact_example :
    let wrong = complaint (tool_guards lamp) in
    let known = level_ref_exists (some (pos 2)) tables in
    (response (admin_create_tool (some lamp) db).0 ≡ tool_creation lamp wrong known 1)
    × ((admin_create_tool (some lamp) db).1.tables.tools
        ≡ tables.tools ++ tools_added lamp wrong known 1)
admin_create_tool_exact_example = admin_create_tool_exact lamp db refl tables-IsConsistent

abbrev first_start : Db
first_start = record { tables = fresh; now = 7; faults = [] }

abbrev hash : String → Option String
hash password = some "h"

bootstrap_admin_exact_example :
    let added = first_admin "boss" "secret" (hash "secret") first_start in
    (bootstrap_admin "boss" "secret" hash first_start).1.tables
    ≡ record fresh { users = fresh.users ++ added; user_seq = fresh.user_seq + length added }
bootstrap_admin_exact_example = bootstrap_admin_exact "boss" "secret" hash first_start refl

-- A start adds nobody where the configured name is that of an admin, or of a player while there is
-- no admin.
adds_nobody :
    (first_admin "root" "secret" (some "h") db ≡ [])
    × (first_admin "ada" "secret"
          (some "h")
          (record db { tables = record tables { users = ada ∷ [] } })
        ≡ [])
adds_nobody = (refl, refl)
