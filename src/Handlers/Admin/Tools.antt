-- ===== src/Handlers/Admin/Tools.antt =====
-- internal/handlers/admin_tools.go
pub mod Create
use crypticquest_backend.Base.{
  String, ◌==◌, string_key, Bool, not, ◌||◌, Option, List, [], ◌∷◌, if◌then◌else◌,
}
use crypticquest_backend.Engine.{M, pure, wrap, ◌>>=◌, ◌>>◌}
use crypticquest_backend.Store.Errors.{StoreError, invalid_reference, is_not_found}
use crypticquest_backend.Store.Tools.{
  ToolInput, list_all_tools, tool_by_id, create_tool, update_tool, delete_tool,
}
use crypticquest_backend.Text.{is_blank}
use crypticquest_backend.Http.{Response, json, fail, no_body, Handler, tool_list, tool}
use crypticquest_backend.Handlers.Player.{decode}
use crypticquest_backend.Handlers.Admin.{
  parse_id, is_longer, missing_or, Guard, refuse_if, complaint, or_400, max_title_len,
  max_tool_desc_len, max_tool_content_len,
}

-- `allowedToolTypes[t]`
unfoldable pub is_tool_type : String → Bool
is_tool_type t = (t == "link") || (t == "pdf") || (t == "builtin")

-- The guards of toInput, in their order; the request has the fields of the store's input.
unfoldable pub tool_guards : ToolInput → List Guard
tool_guards req =
    refuse_if (not (is_tool_type req.type)) "type must be one of: link, pdf, builtin"
    ∷ refuse_if (is_blank req.title) "title is required"
    ∷ refuse_if (is_longer req.title max_title_len) "title is too long"
    ∷ refuse_if (is_blank req.content) "content is required"
    ∷ refuse_if (is_longer req.content max_tool_content_len) "content is too long"
    ∷ refuse_if (is_longer req.description max_tool_desc_len) "description is too long"
    ∷ []

-- decodeToolInput
decode_tool_input : Option ToolInput → M Response ToolInput
unfolding complaint
decode_tool_input body = do req ← decode body; or_400 (complaint (tool_guards req)); pure req

unfoldable pub admin_list_tools : Handler
admin_list_tools = do
  tools ← wrap (λ _. fail 500 "could not load tools") list_all_tools
  pure (json 200 (tool_list tools))

tool_write_err : StoreError → Response
tool_write_err invalid_reference = fail 400 "unlocks_at_level_id references a non-existent level"
tool_write_err _ = fail 500 "could not save tool"

unfoldable pub admin_create_tool : Option ToolInput → Handler
unfolding decode_tool_input tool_write_err
admin_create_tool body = do
  new ← decode_tool_input body
  id ← wrap tool_write_err (create_tool new)
  x ← wrap (λ _. fail 500 "tool created but could not be loaded") (tool_by_id id)
  pure (json 201 (tool x))

tool_update_err : StoreError → Response
tool_update_err e = if is_not_found e then fail 404 "tool not found" else tool_write_err e

unfoldable pub admin_update_tool : String → Option ToolInput → Handler
unfolding decode_tool_input tool_update_err tool_write_err
admin_update_tool path body = do
  id ← parse_id path
  new ← decode_tool_input body
  wrap tool_update_err (update_tool id new)
  x ← wrap (λ _. fail 500 "tool updated but could not be loaded") (tool_by_id id)
  pure (json 200 (tool x))

unfoldable pub admin_delete_tool : String → Handler
admin_delete_tool path = do
  id ← parse_id path
  wrap (missing_or "tool not found" "could not delete tool") (delete_tool id)
  pure (json 204 no_body)
