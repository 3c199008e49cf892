-- ===== src/Handlers/Player.antt =====
-- The handlers behind RequireLogin: internal/handlers/me.go, levels.go, hints.go, tools.go and
-- submit.go. Each is given the user of the request's context, which RequireLogin has put there, so
-- that the 401 of a missing user does not arise.
pub mod Gate
pub mod Submit
pub mod FlagBlind
use crypticquest_backend.Base.{
  ℕ, String, ℤ, Bool, true, false, Option, none, some, List, not, if◌then◌else◌,
}
use crypticquest_backend.Schema.{UserRow}
use crypticquest_backend.Engine.{M, pure, raise, wrap, ◌>>=◌, ◌>>◌}
use crypticquest_backend.Store.Errors.{StoreError, is_not_found}
use crypticquest_backend.Store.Progress.{current_level, is_level_accessible, record_solved}
use crypticquest_backend.Store.Levels.{
  LevelDetail, list_accessible_levels, level_by_id, level_for_submit,
}
use crypticquest_backend.Store.Hints.{hints_for_level}
use crypticquest_backend.Store.Tools.{unlocked_tools}
use crypticquest_backend.Text.{LowerTable, to_lower, codes_eq, parse_int}
use crypticquest_backend.Http.{
  Response, Handler, json, fail, me, level_list, level, hint_list, correct, tool_list,
}

unfoldable pub me_handler : UserRow → Handler
me_handler user = do
  n ← wrap (λ _. fail 500 "could not load progress") (current_level user.id)
  pure (json 200 (me user.id user.username user.role n))

unfoldable pub list_levels : UserRow → Handler
list_levels user = do
  levels ← wrap (λ _. fail 500 "could not load levels") (list_accessible_levels user.id)
  pure (json 200 (level_list levels))

-- `strconv.ParseInt(r.PathValue("id"), 10, 64)`
abbrev pub id_or_400 : String → Option ℤ → M Response ℤ
id_or_400 msg none = raise (fail 400 msg)
id_or_400 msg (some id) = pure id

abbrev pub path_id : String → String → M Response ℤ
path_id msg path = id_or_400 msg (parse_int path)

-- 404 for a level that does not exist, `msg` for any other error.
unfoldable pub level_err : String → StoreError → Response
level_err msg e = if is_not_found e then fail 404 "level not found" else fail 500 msg

-- The gate of an existing level.
unfoldable pub gate : String → UserRow → ℤ → M Response (Unit {0})
gate msg user order_index = do
  accessible ← wrap (λ _. fail 500 msg) (is_level_accessible user.id order_index)
  if not accessible then raise (fail 403 "level locked") else pure tt

-- The names that files.List gives for the directory of a level; none is an error.
abbrev pub Listing : Type 0
Listing = ℤ → Option (List String)

abbrev pub list_files : Option (List String) → M Response (List String)
list_files none = raise (fail 500 "could not load level")
list_files (some names) = pure names

unfoldable pub get_level : Listing → UserRow → String → Handler
unfolding gate level_err
get_level listing user path = do
  id ← path_id "invalid level id" path
  detail ← wrap (level_err "could not load level") (level_by_id user.id id)
  gate "could not load level" user detail.order_index
  names ← list_files (listing id)
  pure (json 200 (level detail names))

unfoldable pub get_hints : UserRow → String → Handler
unfolding gate level_err
get_hints user path = do
  id ← path_id "invalid level id" path
  detail ← wrap (level_err "could not load hints") (level_by_id user.id id)
  gate "could not load hints" user detail.order_index
  hints ← wrap (λ _. fail 500 "could not load hints") (hints_for_level id)
  pure (json 200 (hint_list hints))

unfoldable pub list_tools : UserRow → Handler
list_tools user = do
  tools ← wrap (λ _. fail 500 "could not load tools") (unlocked_tools user.id)
  pure (json 200 (tool_list tools))

-- Both sides lowercased, nothing trimmed.
unfoldable pub is_correct : LowerTable → String → String → Bool
unfolding to_lower codes_eq
is_correct table answer flag = codes_eq (to_lower table answer) (to_lower table flag)

-- The decoded body's answer; none is a body that json.Decoder refuses.
abbrev pub decode : {A : Type 0} → Option A → M Response A
decode none = raise (fail 400 "invalid JSON body")
decode (some a) = pure a

record_if : Bool → UserRow → ℤ → M Response (Unit {0})
record_if right user id =
    if right
    then wrap (λ _. fail 500 "could not record progress") (record_solved user.id id)
    else pure tt

-- SubmitFlag from the lookup of the level on.
unfoldable pub submit_answer : LowerTable → UserRow → ℤ → String → Handler
unfolding gate level_err is_correct record_if
submit_answer table user id answer = do
  columns ← wrap (level_err "could not process submission") (level_for_submit id)
  gate "could not process submission" user columns.0
  let right = is_correct table answer columns.1
  record_if right user id
  pure (json 200 (correct right))

unfoldable pub submit_flag : LowerTable → UserRow → String → Option String → Handler
unfolding submit_answer
submit_flag table user path body = do
  id ← path_id "invalid level id" path
  answer ← decode body
  submit_answer table user id answer
