-- ===== src/Tests/Routes.antt =====
-- The theorems on all routes at the database of the tests.
use crypticquest_backend.Base.{
  ◌^◌, ◌≡◌, refl, pos, ◌==◌, string_key, none, some, true, has, List, ◌⊎◌, false, if◌then◌else◌, [],
  ◌∷◌, int_eq,
}
use crypticquest_backend.Engine.{ok, err}
use crypticquest_backend.Store.Sessions.{find_session, scan_time}
use crypticquest_backend.Store.Integrity.{IsConsistent}
use crypticquest_backend.Text.{parse_int, codes, codes_eq}
use crypticquest_backend.Files.{
  Disk, Root, Stat, OpenError, level_files, tool_files, open_path, is_element, split_path,
  valid_path,
}
use crypticquest_backend.Files.Confined.{stays_below, open_path_confined}
use crypticquest_backend.Http.{response, fail}
use crypticquest_backend.Store.Tools.{Tool, unlocked_tools}
use crypticquest_backend.Handlers.Player.Gate.{gated}
use crypticquest_backend.Handlers.Files.{file_answer, serve_level_file, serve_tool_file}
use crypticquest_backend.Handlers.Files.Gate.{
  may_download, serve_level_file_exact, serve_tool_file_exact,
}
use crypticquest_backend.Routes.{Outside, AdminRoute, Route, routes}
use crypticquest_backend.Routes.Content.{content, routes_content}
use crypticquest_backend.Routes.Integrity.{routes-IsConsistent}
use crypticquest_backend.Tests.{db, tables, tables-IsConsistent, ada}

-- One file of Gate.
abbrev disk : Disk
disk = record {
  root = λ base. Root.opened;
  file = λ base path. if path == "input.txt" then some Stat.regular else none;
}

abbrev outside : Outside
outside = record {
  clock = record { at_expiry = 10 ^ 15; at_threshold = 10 ^ 15; at_refresh = 10 ^ 15 };
  now = 10 ^ 15;
  lower = λ c. c;
  listing = λ id. some [];
  hash = λ password. some "h";
  check = λ stored password. stored == password;
  token = some "t-new";
  temp = some "temp";
  disk = disk;
  stat = true;
}

-- Gate has hints and a tool hangs on Door.
abbrev delete_gate : Route
delete_gate = Route.admin (AdminRoute.delete_level "1")

-- Ada is no admin.
routes_content_example :
    content (routes outside (some "t-ada") delete_gate db).1.tables ≡ content tables
unfolding find_session scan_time int_eq
routes_content_example = routes_content outside (some "t-ada") delete_gate db refl

routes-IsConsistent_example : IsConsistent (routes outside (some "t-root") delete_gate db).1.tables
routes-IsConsistent_example =
    routes-IsConsistent outside (some "t-root") delete_gate db tables-IsConsistent

serve_level_file_exact_example :
    (response (serve_level_file disk true ada "1" "input.txt" db).0
      ≡ gated (parse_int "1") ada tables "invalid level id" (λ i _.
        file_answer (level_files i) "input.txt" true (open_path disk (level_files i) "input.txt")))
    × ((serve_level_file disk true ada "1" "input.txt" db).1.tables ≡ tables)
serve_level_file_exact_example = serve_level_file_exact disk true ada "1" "input.txt" db refl

serve_tool_file_exact_example :
    let may = may_download (pos 2) "map.pdf" tables in
    (response (serve_tool_file disk true ada "map.pdf" db).0 ≡ (
      if may
      then file_answer tool_files "map.pdf" true (open_path disk tool_files "map.pdf")
      else fail 403 "tool locked"))
    × ((serve_tool_file disk true ada "map.pdf" db).1.tables ≡ tables)
    × ((tools : List Tool) × ((unlocked_tools (pos 2) db).0 ≡ ok tools)
        × (has (λ x. x.content == "map.pdf") tools ≡ may))
serve_tool_file_exact_example = serve_tool_file_exact disk true ada "map.pdf" db refl

-- Ada has solved Door, on which the map hangs; the admin has not.
map_downloads :
    (may_download (pos 2) "map.pdf" tables ≡ true) × (may_download (pos 1) "map.pdf" tables ≡ false)
unfolding int_eq
map_downloads = (refl, refl)

-- Another disk, with a file at every path that leaves the base.
abbrev leaky : Disk
leaky = record {
  root = λ base. Root.opened;
  file = λ base path.
      if path == "input.txt"
      then some Stat.regular
      else if stays_below path
      then none
      else some Stat.regular;
}

open_path_confined_example :
    (open_path leaky (level_files (pos 1)) "../2/input.txt"
      ≡ open_path disk (level_files (pos 1)) "../2/input.txt")
    × ((stays_below "../2/input.txt" ≡ true)
        ⊎ (open_path leaky (level_files (pos 1)) "../2/input.txt" ≡ err OpenError.not_found))
open_path_confined_example =
    open_path_confined leaky disk (level_files (pos 1)) "../2/input.txt" refl (λ p h. rw h refl)

-- "a/../b" stays below and is refused nevertheless; "a/../../b" climbs out.
climbs :
    (stays_below "a/../b" ≡ true) × (stays_below "a/../../b" ≡ false) × (stays_below "/a" ≡ false)
unfolding split_path codes_eq
climbs = (refl, refl, refl)

traversal :
    (open_path disk (level_files (pos 1)) "../2/input.txt" ≡ err OpenError.not_found)
    × (split_path (codes "a/b") ≡ codes "a" ∷ codes "b" ∷ [])
unfolding open_path codes_eq split_path is_element valid_path
traversal = (refl, refl)
