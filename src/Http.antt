-- ===== src/Http.antt =====
-- internal/respond/respond.go and internal/auth/cookie.go: what a handler answers. A response is
-- its status, the session cookies that were set on it, and the value that is encoded as JSON.
use crypticquest_backend.Base.{ℕ, String, string_key, Bool, List, [], ◌++◌, ℤ}
use crypticquest_backend.Files.{Directory}
use crypticquest_backend.Engine.{M, Result, ok, err}
use crypticquest_backend.Store.Users.{AdminUser}
use crypticquest_backend.Store.Levels.{LevelListItem, LevelDetail, AdminLevel}
use crypticquest_backend.Store.Hints.{Hint}
use crypticquest_backend.Store.Tools.{Tool}

-- A Set-Cookie header of the session cookie: a value with its expiry, or its deletion.
pub data Cookie : Type 0 where
  set : String → ℕ → Cookie
  clear : Cookie

-- The value passed to respond.JSON; `no_body` is a bare WriteHeader,
-- `healthy` the answer of the liveness check, and `file` what http.ServeContent streams.
pub data Body : Type 0 where
  no_body healthy : Body
  error : String → Body
  me : ℤ → String → String → ℕ → Body
  level_list : List LevelListItem → Body
  level : LevelDetail → List String → Body
  hint_list : List Hint → Body
  correct : Bool → Body
  tool_list : List Tool → Body
  registered : ℤ → String → Body
  logged_in : ℤ → String → String → Body
  admin_level_list : List AdminLevel → Body
  admin_level : AdminLevel → Body
  tool : Tool → Body
  user_list : List AdminUser → Body
  user : AdminUser → Body
  temp_password : String → Body
  file : Directory → String → Body

pub record Response : Type 0 where
  pub status : ℕ
  pub cookies : List Cookie
  pub body : Body

-- `respond.JSON(w, status, v)`
abbrev pub json : ℕ → Body → Response
json status body = record { status = status; cookies = []; body = body }

-- `respond.Error(w, status, msg)`
abbrev pub fail : ℕ → String → Response
fail status msg = json status (error msg)

-- Cookies that were set before the rest of the response was written.
abbrev pub with_cookies : List Cookie → Response → Response
with_cookies cookies r = record r { cookies = cookies ++ r.cookies }

-- A handler: an early `return` after writing a response is an error of the sequence of steps.
abbrev pub Handler : Type 0
Handler = M Response Response

abbrev pub response : Result Response Response → Response
response (ok r) = r
response (err r) = r

-- A handler that is called by another.
abbrev pub call : Handler → M Response Response
call h d = let (r, d') = h d in (ok (response r), d')

-- An error that is only logged.
abbrev pub attempt : {E F A : Type 0} → M E A → M F (Result E A)
attempt m d = let (r, d') = m d in (ok r, d')
