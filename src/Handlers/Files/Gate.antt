-- ===== src/Handlers/Files/Gate.antt =====
-- Who downloads what (internal/handlers/files.go).
use crypticquest_backend.Base.{
  refl, ◌∙◌, ℤ, true, none, some, List, ◌∷◌, map, order_by, rows_where, has-order_by, ◌≡◌, Bool,
  ◌&&◌, ◌==◌, int_key, string_key, String, [], has, arith, if◌then◌else◌,
}
use crypticquest_backend.Schema.{Tables, UserRow, ToolRow}
use crypticquest_backend.Engine.{Db, ok, exec}
use crypticquest_backend.Store.Errors.{row_err, is_not_found}
use crypticquest_backend.Store.Progress.{current_level, is_level_accessible, rank, has_progress}
use crypticquest_backend.Store.Levels.{level_by_id, level_detail}
use crypticquest_backend.Store.Tools.{
  Tool, player_tool, unlocked_tools, is_tool_file_unlocked, is_unlocked,
}
use crypticquest_backend.Text.{parse_int}
use crypticquest_backend.Files.{Disk, level_files, tool_files, open_path}
use crypticquest_backend.Http.{response, fail}
use crypticquest_backend.Handlers.Player.Gate.{gated}
use crypticquest_backend.Handlers.Files.{file_answer, serve_file, serve_level_file, serve_tool_file}

-- With no fault to come, ServeLevelFile answers 400, 404 and 403 as GetLevel does, without a look at
-- the disk, and otherwise what files.Open says of the path under the level's own directory; it changes no
-- table.
pub serve_level_file_exact :
    (disk : Disk) (stat : Bool) (user : UserRow) (id path : String) (d : Db)
    → d.faults ≡ []
    → (response (serve_level_file disk stat user id path d).0
        ≡ gated
            (parse_int id)
            user
            d.tables
            "invalid level id"
            (λ i _. file_answer (level_files i) path stat (open_path disk (level_files i) path)))
      × ((serve_level_file disk stat user id path d).1.tables ≡ d.tables)
unfolding serve_level_file serve_file level_by_id is_level_accessible current_level exec row_err
    is_not_found rank level_detail
serve_level_file_exact disk stat user id path d quiet = ground arith

-- By the rows: some tool has the path as its content, and hangs on no level or on one of which there
-- is a solve of this user.
abbrev pub may_download : ℤ → String → Tables → Bool
may_download user_id path t =
    has
      (λ x. (x.content == path) && (elim x.unlocks_at_level_id [
        | none ↦ true
        | some l ↦ has (λ p. (p.user_id == user_id) && (p.level_id == l)) t.user_progress
      ]))
      t.tools

has-map :
    (p : Tool → Bool) (f : ToolRow → Tool) (xs : List ToolRow)
    → has p (map f xs) ≡ has (λ x. p (f x)) xs
has-map p f [] = refl
has-map p f (x ∷ xs) = ground (arith, has-map p f xs)

has_among-rows_where :
    (p q : ToolRow → Bool) (xs : List ToolRow) → has p (rows_where q xs) ≡ has (λ x. p x && q x) xs
has_among-rows_where p q [] = refl
has_among-rows_where p q (x ∷ xs) = ground (arith, has_among-rows_where p q xs)

-- What ListTools shows, by its contents.
shown_content :
    (user_id : ℤ) (path : String) (t : Tables)
    → has
        (λ x. x.content == path)
        (map player_tool (order_by (λ x. x.id) (rows_where (is_unlocked user_id t) t.tools)))
      ≡ may_download user_id path t
unfolding player_tool is_unlocked has_progress
shown_content user_id path t =
    has-map (λ x. x.content == path) player_tool _
    ∙ has-order_by (λ x. x.id) (λ x. x.content == path) (rows_where (is_unlocked user_id t) t.tools)
    ∙ has_among-rows_where (λ x. x.content == path) (is_unlocked user_id t) t.tools

-- With no fault to come, ServeToolFile answers 403, whatever is on the disk, unless some tool has the
-- path as its content and hangs on no level or on one that this user has solved; these are the
-- contents of the tools that UnlockedTools lists for the user. Otherwise it answers what files.Open
-- says of the path under the tools' directory. It changes no table.
pub serve_tool_file_exact :
    (disk : Disk) (stat : Bool) (user : UserRow) (path : String) (d : Db)
    → d.faults ≡ []
    → let may = may_download user.id path d.tables in
      (response (serve_tool_file disk stat user path d).0 ≡ (
        if may
        then file_answer tool_files path stat (open_path disk tool_files path)
        else fail 403 "tool locked"))
      × ((serve_tool_file disk stat user path d).1.tables ≡ d.tables)
      × ((tools : List Tool) × ((unlocked_tools user.id d).0 ≡ ok tools)
          × (has (λ x. x.content == path) tools ≡ may))
unfolding serve_tool_file serve_file is_tool_file_unlocked unlocked_tools exec is_unlocked
    has_progress
serve_tool_file_exact disk stat user path d quiet = (
  ground arith,
  ground arith,
  (
    map player_tool
        (order_by (λ x. x.id) (rows_where (is_unlocked user.id d.tables) d.tables.tools)),
    ground arith,
    shown_content user.id path d.tables,
  ),
)
