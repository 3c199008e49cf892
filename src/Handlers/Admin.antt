-- ===== src/Handlers/Admin.antt =====
-- The handlers behind RequireAdmin: what internal/handlers/admin_levels.go, admin_hints.go,
-- admin_tools.go and admin_users.go share, and validate.go.
pub mod Levels
pub mod Hints
pub mod Tools
pub mod Users
pub mod Integrity
use crypticquest_backend.Base.{
  ℕ, String, ℤ, pos, Bool, not, Option, none, some, List, leb, ltb, int_leb, if◌then◌else◌,
}
use crypticquest_backend.Engine.{M, raise, pure}
use crypticquest_backend.Store.Errors.{StoreError, is_not_found}
use crypticquest_backend.Text.{parse_int, byte_length, is_blank}
use crypticquest_backend.Http.{Response, fail}
use crypticquest_backend.Handlers.Player.{id_or_400}

abbrev pub max_title_len : ℕ
max_title_len = 200

abbrev pub max_flag_len : ℕ
max_flag_len = 200

abbrev pub max_level_desc_len : ℕ
max_level_desc_len = 20000

abbrev pub max_tool_desc_len : ℕ
max_tool_desc_len = 2000

abbrev pub max_tool_content_len : ℕ
max_tool_content_len = 2000

abbrev pub max_hint_len : ℕ
max_hint_len = 1000

-- parseID
abbrev pub parse_id : String → M Response ℤ
parse_id path = id_or_400 "invalid id" (parse_int path)

-- `len(s) > limit`
unfoldable pub is_longer : String → ℕ → Bool
is_longer s limit = ltb limit (byte_length s)

-- 404 with `missing` for ErrNotFound, 500 with `msg` for any other error.
unfoldable pub missing_or : String → String → StoreError → Response
missing_or missing msg e = if is_not_found e then fail 404 missing else fail 500 msg

-- The first complaint of a list of guards, none if there is none: a guard that holds is the error.
pub data Guard : Type 0 where
  refuse_if : Bool → String → Guard

unfoldable pub complaint : List Guard → Option String
complaint List.[] = none
complaint (List.◌∷◌ (refuse_if b msg) guards) =
    let rest = complaint guards in if b then some msg else rest

abbrev pub or_400 : Option String → M Response (Unit {0})
or_400 none = pure tt
or_400 (some msg) = raise (fail 400 msg)
