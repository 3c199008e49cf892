-- ===== src/Handlers/Admin/Hints.antt =====
-- internal/handlers/admin_hints.go
use crypticquest_backend.Base.{String, Option, List, [], ◌∷◌}
use crypticquest_backend.Engine.{pure, wrap, ◌>>=◌, ◌>>◌}
use crypticquest_backend.Store.Levels.{admin_level_by_id}
use crypticquest_backend.Store.Hints.{hints_for_level, replace_hints}
use crypticquest_backend.Text.{is_blank}
use crypticquest_backend.Http.{json, fail, Handler, hint_list}
use crypticquest_backend.Handlers.Player.{decode}
use crypticquest_backend.Handlers.Admin.{
  parse_id, is_longer, missing_or, Guard, refuse_if, complaint, or_400, max_hint_len,
}

unfoldable pub admin_get_hints : String → Handler
admin_get_hints path = do
  id ← parse_id path
  wrap (missing_or "level not found" "could not load hints") (admin_level_by_id id)
  hints ← wrap (λ _. fail 500 "could not load hints") (hints_for_level id)
  pure (json 200 (hint_list hints))

-- `for _, text := range req.Hints`
unfoldable pub hint_guards : List String → List Guard
hint_guards [] = []
hint_guards (text ∷ texts) =
    refuse_if (is_blank text) "hint text must not be empty"
    ∷ refuse_if (is_longer text max_hint_len) "hint text is too long"
    ∷ hint_guards texts

unfoldable pub admin_replace_hints : String → Option (List String) → Handler
admin_replace_hints path body = do
  id ← parse_id path
  texts ← decode body
  or_400 (complaint (hint_guards texts))
  wrap (missing_or "level not found" "could not save hints") (replace_hints id texts)
  hints ← wrap (λ _. fail 500 "hints saved but could not be loaded") (hints_for_level id)
  pure (json 200 (hint_list hints))
