-- ===== src/Handlers/Files.antt =====
-- internal/handlers/files.go: the gated downloads.
pub mod Gate
use crypticquest_backend.Base.{String, ℤ, Bool, true, false, not, if◌then◌else◌}
use crypticquest_backend.Schema.{UserRow}
use crypticquest_backend.Engine.{Result, ok, err, M, pure, raise, wrap, ◌>>=◌, ◌>>◌}
use crypticquest_backend.Store.Levels.{level_by_id}
use crypticquest_backend.Store.Tools.{is_tool_file_unlocked}
use crypticquest_backend.Files.{
  Directory, level_files, tool_files, Disk, OpenError, not_found, io_error, open_path,
}
use crypticquest_backend.Http.{Response, Handler, json, fail, file}
use crypticquest_backend.Handlers.Player.{path_id, level_err, gate}

-- serveFile: `disk` and whether the second Stat, for the modification time, succeeds.
abbrev pub file_answer : Directory → String → Bool → Result OpenError (Unit {0}) → Response
file_answer base path stat (err not_found) = fail 404 "file not found"
file_answer base path stat (err io_error) = fail 500 "could not serve file"
file_answer base path stat (ok _) =
    if stat then json 200 (file base path) else fail 500 "could not serve file"

unfoldable pub serve_file : Disk → Bool → Directory → String → Handler
unfolding open_path
serve_file disk stat base path = pure (file_answer base path stat (open_path disk base path))

unfoldable pub serve_level_file : Disk → Bool → UserRow → String → String → Handler
unfolding serve_file gate level_err
serve_level_file disk stat user id path = do
  id ← path_id "invalid level id" id
  level ← wrap (level_err "could not serve file") (level_by_id user.id id)
  gate "could not serve file" user level.order_index
  serve_file disk stat (level_files id) path

unfoldable pub serve_tool_file : Disk → Bool → UserRow → String → Handler
unfolding serve_file
serve_tool_file disk stat user path = do
  unlocked ← wrap (λ _. fail 500 "could not serve file") (is_tool_file_unlocked user.id path)
  if not unlocked then raise (fail 403 "tool locked") else pure tt
  serve_file disk stat tool_files path
