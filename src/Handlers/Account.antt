-- ===== src/Handlers/Account.antt =====
-- internal/handlers/register.go, login.go and logout.go. bcrypt and crypto/rand are not of this
-- repository: a handler is given what the hashing of the password, the comparison with a hash, the
-- token generator and the clock give it. A body is none when json.Decoder refuses it.
pub mod Login
pub mod Register
use crypticquest_backend.Base.{
  ℕ, ◌+◌, String, ◌==◌, string_key, Bool, true, false, not, ◌&&◌, ◌||◌, Option, none, some, List,
  [], ◌∷◌, leb, ltb, nat_eq, if◌then◌else◌, all,
}
use crypticquest_backend.Schema.{UserRow}
use crypticquest_backend.Engine.{M, pure, raise, wrap, ◌>>=◌, ◌>>◌}
use crypticquest_backend.Store.Errors.{StoreError, username_taken, is_not_found}
use crypticquest_backend.Store.Users.{create_user, user_by_username}
use crypticquest_backend.Store.Sessions.{create_session, delete_session}
use crypticquest_backend.Text.{codes, byte_length}
use crypticquest_backend.Http.{
  Cookie, set, clear, Response, json, fail, no_body, with_cookies, Handler, attempt, registered,
  logged_in,
}
use crypticquest_backend.Middleware.{session_ttl}
use crypticquest_backend.Handlers.Player.{decode}

-- The body of a registration or a login.
pub record Credentials : Type 0 where
  pub username : String
  pub password : String

-- A guard that answers 400.
abbrev pub require : Bool → String → M Response (Unit {0})
require true msg = pure tt
require false msg = raise (fail 400 msg)

-- `[a-zA-Z0-9._-]`
is_username_code : ℕ → Bool
is_username_code c =
    (leb b'a' c && leb c b'z')
    || (leb b'A' c && leb c b'Z')
    || (leb b'0' c && leb c b'9')
    || nat_eq c b'.'
    || nat_eq c b'_'
    || nat_eq c b'-'

-- `usernamePattern.MatchString`, one code point or more
matches_pattern : List ℕ → Bool
unfolding is_username_code
matches_pattern [] = false
matches_pattern (c ∷ cs) = all is_username_code (c ∷ cs)

unfoldable pub is_username : String → Bool
unfolding matches_pattern
is_username s = matches_pattern (codes s)

unfoldable pub within : ℕ → ℕ → String → Bool
within low high s = leb low (byte_length s) && leb (byte_length s) high

register_err : StoreError → Response
register_err username_taken = fail 409 "username already taken"
register_err _ = fail 500 "could not create account"

-- The result of a call outside the store, none being its error.
abbrev pub given : {A : Type 0} → Option A → String → M Response A
given none msg = raise (fail 500 msg)
given (some a) msg = pure a

unfoldable pub register : (String → Option String) → Option Credentials → Handler
unfolding register_err
register hash body = do
  req ← decode body
  require (within 3 32 req.username) "username must be 3-32 characters"
  require (is_username req.username) "username may contain only letters, digits, '.', '_' and '-'"
  require (within 8 72 req.password) "password must be 8-72 characters"
  h ← given (hash req.password) "could not process password"
  id ← wrap register_err (create_user req.username h)
  pure (json 201 (registered id req.username))

login_err : StoreError → Response
login_err e =
    if is_not_found e
    then fail 401 "invalid username or password"
    else fail 500 "could not process login"

check_password : Bool → M Response (Unit {0})
check_password right = if right then pure tt else raise (fail 401 "invalid username or password")

-- `check` is bcrypt's comparison of a stored hash with a password, `token` what the generator
-- gives, and `now` the reading of the clock.
unfoldable pub login : (String → String → Bool) → Option String → ℕ → Option Credentials → Handler
unfolding login_err check_password
login check token now body = do
  req ← decode body
  require (not ((req.username == "") || (req.password == ""))) "username and password are required"
  user ← wrap login_err (user_by_username req.username)
  check_password (check user.password_hash req.password)
  token ← given token "could not create session"
  wrap (λ _. fail 500 "could not create session") (create_session token user.id (now + session_ttl))
  pure (
      with_cookies (set token (now + session_ttl) ∷ [])
        (json 200 (logged_in user.id user.username user.role)))

-- A session that cannot be deleted is only logged.
forget : Option String → M Response (Unit {0})
forget none = pure tt
forget (some token) = if token == "" then pure tt else (do attempt (delete_session token); pure tt)

unfoldable pub logout : Option String → Handler
unfolding forget
logout cookie = do forget cookie; pure (with_cookies (clear ∷ []) (json 204 no_body))
