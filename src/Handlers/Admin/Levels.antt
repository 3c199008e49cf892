-- ===== src/Handlers/Admin/Levels.antt =====
-- internal/handlers/admin_levels.go
pub mod Create
use crypticquest_backend.Base.{
  String, ◌==◌, string_key, pos, int_leb, Option, List, [], ◌∷◌, if◌then◌else◌,
}
use crypticquest_backend.Engine.{M, pure, wrap, ◌>>=◌, ◌>>◌}
use crypticquest_backend.Store.Errors.{StoreError, order_index_taken, is_not_found}
use crypticquest_backend.Store.Levels.{
  AdminLevelInput, list_all_levels, admin_level_by_id, create_level, update_level, delete_level,
}
use crypticquest_backend.Text.{is_blank}
use crypticquest_backend.Http.{
  Response, json, fail, no_body, Handler, admin_level_list, admin_level,
}
use crypticquest_backend.Handlers.Player.{decode}
use crypticquest_backend.Handlers.Admin.{
  parse_id, is_longer, missing_or, Guard, refuse_if, complaint, or_400, max_title_len, max_flag_len,
  max_level_desc_len,
}

-- The guards of toInput, in their order; the request has the fields of the store's input.
unfoldable pub level_guards : AdminLevelInput → List Guard
level_guards req =
    refuse_if (int_leb req.order_index (pos 0)) "order_index must be a positive integer"
    ∷ refuse_if (is_blank req.title) "title is required"
    ∷ refuse_if (is_longer req.title max_title_len) "title is too long"
    ∷ refuse_if (is_blank req.description) "description is required"
    ∷ refuse_if (is_longer req.description max_level_desc_len) "description is too long"
    ∷ refuse_if (req.flag == "") "flag is required"
    ∷ refuse_if (is_longer req.flag max_flag_len) "flag is too long"
    ∷ []

-- decodeLevelInput
decode_level_input : Option AdminLevelInput → M Response AdminLevelInput
unfolding complaint
decode_level_input body = do req ← decode body; or_400 (complaint (level_guards req)); pure req

unfoldable pub admin_list_levels : Handler
admin_list_levels = do
  levels ← wrap (λ _. fail 500 "could not load levels") list_all_levels
  pure (json 200 (admin_level_list levels))

level_write_err : StoreError → Response
level_write_err order_index_taken = fail 409 "order_index already in use"
level_write_err _ = fail 500 "could not save level"

unfoldable pub admin_create_level : Option AdminLevelInput → Handler
unfolding decode_level_input level_write_err
admin_create_level body = do
  new ← decode_level_input body
  id ← wrap level_write_err (create_level new)
  level ← wrap (λ _. fail 500 "level created but could not be loaded") (admin_level_by_id id)
  pure (json 201 (admin_level level))

level_update_err : StoreError → Response
level_update_err e = if is_not_found e then fail 404 "level not found" else level_write_err e

unfoldable pub admin_update_level : String → Option AdminLevelInput → Handler
unfolding decode_level_input level_update_err level_write_err
admin_update_level path body = do
  id ← parse_id path
  new ← decode_level_input body
  wrap level_update_err (update_level id new)
  level ← wrap (λ _. fail 500 "level updated but could not be loaded") (admin_level_by_id id)
  pure (json 200 (admin_level level))

unfoldable pub admin_delete_level : String → Handler
admin_delete_level path = do
  id ← parse_id path
  wrap (missing_or "level not found" "could not delete level") (delete_level id)
  pure (json 204 no_body)
