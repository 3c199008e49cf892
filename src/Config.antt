-- ===== src/Config.antt =====
-- internal/config/config.go and the settings of the session cookie in internal/auth/cookie.go. The
-- environment gives a value for each name that is set.
pub mod Origins
use crypticquest_backend.Base.{
  ℕ, String, ◌==◌, string_key, Bool, true, false, not, ◌||◌, Option, none, some, List, [], ◌∷◌, map,
  has, if◌then◌else◌,
}
use crypticquest_backend.Text.{LowerTable, to_lower, codes, codes_eq}
use crypticquest_backend.Text.Parts.{trim_space, split_on}
use crypticquest_backend.Http.{Cookie, set, clear}

-- `os.LookupEnv`
abbrev pub Env : Type 0
Env = String → Option String

pub record Config : Type 0 where
  pub port : String
  pub db_path : String
  pub files_dir : String
  pub allowed_origins : List String
  pub cookie_domain : String
  pub cookie_secure : Bool
  pub cookie_same_site : String
  pub admin_username : String
  pub admin_password : String

or_fallback : Option String → String → String
or_fallback none fallback = fallback
or_fallback (some v) fallback = v

unfoldable pub get_env : Env → String → String → String
unfolding or_fallback
get_env env key fallback = or_fallback (env key) fallback

-- The loop over the parts.
unfoldable pub kept_parts : List String → List String
unfolding trim_space
kept_parts [] = []
kept_parts (part ∷ parts) =
    let rest = kept_parts parts in let s = trim_space part in if s == "" then rest else s ∷ rest

-- `len(out) == 0`
unfoldable pub list_or : List String → List String → List String
list_or [] fallback = fallback
list_or (s ∷ out) fallback = s ∷ out

parse_list : Option String → List String → List String
parse_list none fallback = fallback
parse_list (some v) fallback =
    if trim_space v == "" then fallback else list_or (kept_parts (split_on b',' v)) fallback

unfoldable pub get_env_list : Env → String → List String → List String
unfolding parse_list list_or kept_parts split_on
get_env_list env key fallback = parse_list (env key) fallback

-- `strconv.ParseBool`; none is an error.
unfoldable pub parse_bool : String → Option Bool
parse_bool s =
    if has (λ w. s == w) ("1" ∷ "t" ∷ "T" ∷ "true" ∷ "TRUE" ∷ "True" ∷ [])
    then some true
    else if has (λ w. s == w) ("0" ∷ "f" ∷ "F" ∷ "false" ∷ "FALSE" ∷ "False" ∷ [])
    then some false
    else none

bool_or : Option Bool → Bool → Bool
bool_or none fallback = fallback
bool_or (some b) fallback = b

bool_of : Option String → Bool → Bool
unfolding parse_bool bool_or
bool_of none fallback = fallback
bool_of (some v) fallback = bool_or (parse_bool v) fallback

unfoldable pub get_env_bool : Env → String → Bool → Bool
unfolding bool_of
get_env_bool env key fallback = bool_of (env key) fallback

unfoldable pub load : Env → Config
unfolding get_env get_env_list get_env_bool
load env = record {
  port = get_env env "PORT" "8080";
  db_path = get_env env "DB_PATH" "ctf.db";
  files_dir = get_env env "FILES_DIR" "files";
  allowed_origins = get_env_list env "ALLOWED_ORIGIN" ("http://localhost:5173" ∷ []);
  cookie_domain = get_env env "COOKIE_DOMAIN" "";
  cookie_secure = get_env_bool env "COOKIE_SECURE" false;
  cookie_same_site = get_env env "COOKIE_SAMESITE" "Lax";
  admin_username = get_env env "ADMIN_USERNAME" "";
  admin_password = get_env env "ADMIN_PASSWORD" "";
}

pub data SameSite : Type 0 where
  none_mode strict_mode lax_mode : SameSite

pub record SessionCookie : Type 0 where
  pub domain : String
  pub secure : Bool
  pub same_site : SameSite

unfoldable pub parse_same_site : LowerTable → String → SameSite
unfolding to_lower codes_eq
parse_same_site table s =
    if codes_eq (to_lower table s) (codes "none")
    then none_mode
    else if codes_eq (to_lower table s) (codes "strict")
    then strict_mode
    else lax_mode

unfoldable pub new_session_cookie : LowerTable → String → Bool → String → SessionCookie
unfolding parse_same_site
new_session_cookie table domain secure same_site = record {
  domain = domain;
  secure = secure;
  same_site = parse_same_site table same_site;
}

-- An http.Cookie: `expires` is none for a zero time, and `deletes` is MaxAge = -1.
pub record HttpCookie : Type 0 where
  pub name : String
  pub value : String
  pub path : String
  pub domain : String
  pub expires : Option ℕ
  pub deletes : Bool
  pub http_only : Bool
  pub secure : Bool
  pub same_site : SameSite

-- SessionCookie.Set and SessionCookie.Clear.
unfoldable pub http_cookie : SessionCookie → Cookie → HttpCookie
http_cookie c (set token expires_at) = record {
  name = "session";
  value = token;
  path = "/";
  domain = c.domain;
  expires = some expires_at;
  deletes = false;
  http_only = true;
  secure = c.secure;
  same_site = c.same_site;
}
http_cookie c clear = record {
  name = "session";
  value = "";
  path = "/";
  domain = c.domain;
  expires = none;
  deletes = true;
  http_only = true;
  secure = c.secure;
  same_site = c.same_site;
}
