-- ===== src/Handlers/Player/Gate.antt =====
-- Who gets what from GetLevel and GetHints (internal/handlers/levels.go, hints.go).
use crypticquest_backend.Base.{
  ◌≡◌, int_key, ℤ, String, Option, none, some, List, [], arith, if◌then◌else◌,
}
use crypticquest_backend.Schema.{Tables, UserRow, LevelRow}
use crypticquest_backend.Engine.{Db, exec}
use crypticquest_backend.Store.Errors.{is_not_found, row_err}
use crypticquest_backend.Store.Progress.{current_level, is_level_accessible, rank}
use crypticquest_backend.Store.Levels.{find_level, level_by_id, level_detail}
use crypticquest_backend.Store.Hints.{hints_for_level, hints_of}
use crypticquest_backend.Store.Access.{accessible}
use crypticquest_backend.Text.{parse_int}
use crypticquest_backend.Http.{Response, response, json, fail, level, hint_list}
use crypticquest_backend.Handlers.Player.{get_level, get_hints, Listing}

-- The answer that a gated read owes to the tables: 400, 404, 403, or what the level has.
abbrev pub gated_level : Option LevelRow → UserRow → Tables → (LevelRow → Response) → Response
gated_level none user t answer = fail 404 "level not found"
gated_level (some l) user t answer =
    if accessible user.id l.order_index t then answer l else fail 403 "level locked"

abbrev pub gated : Option ℤ → UserRow → Tables → String → (ℤ → LevelRow → Response) → Response
gated none user t msg answer = fail 400 msg
gated (some id) user t msg answer = gated_level (find_level id t) user t (answer id)

-- With no fault to come, GetHints answers 400 for an id that is no int64, 404 for a level that does
-- not exist, 403 for one that the gate does not let the user through to, and the hints of the level
-- in their order otherwise; it changes no table.
pub get_hints_exact :
    (user : UserRow) (path : String) (d : Db)
    → d.faults ≡ []
    → (response (get_hints user path d).0
        ≡ gated
            (parse_int path)
            user
            d.tables
            "invalid level id"
            (λ id _. json 200 (hint_list (hints_of id d.tables))))
      × ((get_hints user path d).1.tables ≡ d.tables)
unfolding get_hints level_by_id is_level_accessible current_level hints_for_level exec row_err
    is_not_found rank level_detail
get_hints_exact user path d quiet = ground arith

abbrev pub list_answer : Option (List String) → UserRow → Tables → LevelRow → Response
list_answer none user t l = fail 500 "could not load level"
list_answer (some names) user t l = json 200 (level (level_detail user.id t l) names)

-- With no fault to come, GetLevel answers 400, 404 and 403 as GetHints does, and otherwise the
-- level's details with its file names, or 500 if its files cannot be listed; it changes no table.
pub get_level_exact :
    (listing : Listing) (user : UserRow) (path : String) (d : Db)
    → d.faults ≡ []
    → (response (get_level listing user path d).0
        ≡ gated
            (parse_int path)
            user
            d.tables
            "invalid level id"
            (λ id l. list_answer (listing id) user d.tables l))
      × ((get_level listing user path d).1.tables ≡ d.tables)
unfolding get_level level_by_id is_level_accessible current_level exec row_err is_not_found rank
    level_detail
get_level_exact listing user path d quiet = ground arith
