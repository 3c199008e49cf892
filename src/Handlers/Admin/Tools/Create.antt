-- ===== src/Handlers/Admin/Tools/Create.antt =====
-- AdminCreateTool (internal/handlers/admin_tools.go): what is stored is what is read back.
use crypticquest_backend.Base.{
  ℕ, suc, ◌≡◌, refl, sym, ◌==◌, int_key, same_refl, String, pos, Bool, Option, none, some, List, [],
  ◌∷◌, ◌++◌, if◌then◌else◌, arith, inl, inr, Option-cases, first_where-append_one, has_next,
}
use mathlib.Core.List.{append-nil}
use crypticquest_backend.Schema.{ToolRow}
use crypticquest_backend.Engine.{Db, exec}
use crypticquest_backend.Store.Errors.{row_err, is_foreign_key_violation}
use crypticquest_backend.Store.Tools.{
  ToolInput, create_tool, insert_tool, map_tool_write_err, tool_by_id, level_ref_exists, admin_tool,
}
use crypticquest_backend.Store.Integrity.{IsConsistent}
use crypticquest_backend.Http.{Response, response, json, fail, tool}
use crypticquest_backend.Handlers.Admin.{complaint}
use crypticquest_backend.Handlers.Admin.Tools.{admin_create_tool, tool_guards}

abbrev pub new_tool : ToolInput → ℕ → ToolRow
new_tool new seq = record {
  id = pos (suc seq);
  type = new.type;
  title = new.title;
  description = some new.description;
  content = new.content;
  unlocks_at_level_id = new.unlocks_at_level_id;
}

abbrev pub tool_creation : ToolInput → Option String → Bool → ℕ → Response
tool_creation new (some msg) known seq = fail 400 msg
tool_creation new none known seq =
    if known
    then json 201 (tool (admin_tool (new_tool new seq)))
    else fail 400 "unlocks_at_level_id references a non-existent level"

abbrev pub tools_added : ToolInput → Option String → Bool → ℕ → List ToolRow
tools_added new (some msg) known seq = []
tools_added new none known seq = if known then new_tool new seq ∷ [] else []

-- With no fault to come, on consistent tables, AdminCreateTool answers 400 with the first complaint
-- about the body or for a level that does not exist, and otherwise 201 with the tool as it reads it
-- back, which has the fields of the body and an id of its own; it adds that tool in the last case,
-- and no tool in the others.
pub admin_create_tool_exact :
    (new : ToolInput) (d : Db)
    → d.faults ≡ []
    → IsConsistent d.tables
    → let wrong = complaint (tool_guards new) in
      let known = level_ref_exists new.unlocks_at_level_id d.tables in
      (response (admin_create_tool (some new) d).0
        ≡ tool_creation new wrong known d.tables.tool_seq)
      × ((admin_create_tool (some new) d).1.tables.tools
          ≡ d.tables.tools ++ tools_added new wrong known d.tables.tool_seq)
unfolding admin_create_tool create_tool insert_tool map_tool_write_err tool_by_id admin_tool exec
    row_err is_foreign_key_violation
admin_create_tool_exact new d quiet c =
    let same = append-nil d.tables.tools in
    let fresh_id = has_next (λ x. x.id) d.tables.tool_seq d.tables.tools c.tools.1 in
    elim (Option-cases (complaint (tool_guards new))) [
      | inr (msg, e) ↦ rw e (refl, sym same)
      | inl fine ↦ rw fine (
          ground (
            arith,
            same,
            first_where-append_one (λ x. x.id == pos (suc d.tables.tool_seq)) d.tables.tools
                (new_tool new d.tables.tool_seq) fresh_id (same_refl (pos (suc d.tables.tool_seq))),
          ))
    ]
