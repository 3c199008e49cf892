-- ===== src/Handlers/Account/Login.antt =====
-- Register, Login and Logout (internal/handlers): what they leave for the requests that follow.
use crypticquest_backend.Base.{
  ℕ, ◌+◌, ◌<◌, ◌≡◌, refl, String, ◌==◌, string_key, int_key, ℤ, Bool, true, false, ◌||◌, Option,
  none, some, [], ◌∷◌, inl, inr, Option-cases, arith, first_where, IsUnique-Distinct, same_refl,
  first_where_self,
}
use crypticquest_backend.Schema.{Tables, UserRow}
use crypticquest_backend.Engine.{Db, ok, err, exec}
use crypticquest_backend.Store.Errors.{row_err, is_not_found}
use crypticquest_backend.Store.Users.{user_by_username}
use crypticquest_backend.Store.Sessions.{
  Session, second, create_session, insert_session, find_session, format_time, scan_time,
}
use crypticquest_backend.Store.Sessions.Lookup.{find_session-insert}
use crypticquest_backend.Store.Integrity.{IsConsistent}
use crypticquest_backend.Http.{Response, json, fail, with_cookies, set, logged_in}
use crypticquest_backend.Middleware.{session_ttl}
use crypticquest_backend.Handlers.Account.{Credentials, login}

abbrev pub named : String → Tables → Option UserRow
named username t = first_where (λ u. u.username == username) t.users

-- The credentials are those of an account.
abbrev pub proven : (String → String → Bool) → String → Option UserRow → Bool
proven check password none = false
proven check password (some u) = check u.password_hash password

-- With no fault to come, a login with a username that does not exist and one with a wrong password
-- get one and the same answer, a 401 without a cookie, and change nothing.
pub login_refuses :
    (check : String → String → Bool) (token : Option String) (now : ℕ) (req : Credentials) (d : Db)
    → d.faults ≡ []
    → ((req.username == "") || (req.password == "")) ≡ false
    → proven check req.password (named req.username d.tables) ≡ false
    → login check token now (some req) d ≡ (err (fail 401 "invalid username or password"), d)
unfolding login user_by_username exec row_err is_not_found
login_refuses check token now req d quiet filled h = ground arith

-- A login that was answered with 200 …
pub record Opens (check : String → String → Bool) (given : Option String) (now : ℕ)
    (req : Credentials) (d d' : Db) (r : Response) : Type 0 where
  pub user : UserRow
  pub token : String
  pub session : Session
  pub new_token : given ≡ some token
  pub account : named req.username d.tables ≡ some user
  pub right : check user.password_hash req.password ≡ true
  pub answer :
      r
      ≡ with_cookies
          (set token (now + session_ttl) ∷ [])
          (json 200 (logged_in user.id user.username user.role))
  pub found : find_session token d'.tables ≡ some (session, user)
  pub lasts : now + session_ttl < session.expires_at + second
  pub users_same : d'.tables.users ≡ d.tables.users

insert_session_users :
    (token : String) (id : ℤ) (seconds : ℕ) (t t' : Tables) (now : ℕ)
    → insert_session token id seconds t now ≡ ok (tt, t')
    → t'.users ≡ t.users
unfolding insert_session
insert_session_users token id seconds t t' now h = ground arith

login-Opens_at :
    (check : String → String → Bool) (tok : String) (now : ℕ) (req : Credentials) (d : Db)
    (u : UserRow) (r : Response)
    → named req.username d.tables ≡ some u
    → (login check (some tok) now (some req) d).0 ≡ ok r
    → (check u.password_hash req.password ≡ true)
      × (r
          ≡ with_cookies
              (set tok (now + session_ttl) ∷ [])
              (json 200 (logged_in u.id u.username u.role)))
      × (insert_session tok u.id (format_time (now + session_ttl)) d.tables d.now
          ≡ ok (tt, (login check (some tok) now (some req) d).1.tables))
unfolding login user_by_username create_session exec row_err is_not_found
login-Opens_at check tok now req d u r e h = ground arith

-- The account and the token that a login needs.
login_needs :
    (check : String → String → Bool) (token : Option String) (now : ℕ) (req : Credentials) (d : Db)
    (r : Response)
    → (login check token now (some req) d).0 ≡ ok r
    → (u : UserRow) × (tok : String) × (named req.username d.tables ≡ some u) × (token ≡ some tok)
unfolding login user_by_username create_session exec row_err is_not_found
login_needs check token now req d r h = elim (Option-cases (named req.username d.tables)) [
  | inl missing ↦ absurd (ground arith)
  | inr (u, e) ↦ elim (Option-cases token) [
    | inl no_token ↦ absurd (ground arith)
    | inr (tok, given) ↦ (u, tok, e, given)
  ]
]

opened :
    (check : String → String → Bool) (tok : String) (now : ℕ) (req : Credentials) (d : Db)
    (u : UserRow) (r : Response)
    → IsConsistent d.tables
    → named req.username d.tables ≡ some u
    → (login check (some tok) now (some req) d).0 ≡ ok r
    → Opens check (some tok) now req d (login check (some tok) now (some req) d).1 r
opened check tok now req d u r c e h =
    let (right, answer, inserted) = login-Opens_at check tok now req d u r e h in
    let t' = (login check (some tok) now (some req) d).1.tables in
    record {
      user = u;
      token = tok;
      session = record {
        token = tok;
        user_id = u.id;
        expires_at = scan_time (format_time (now + session_ttl));
      };
      new_token = refl;
      account = e;
      right = right;
      answer = answer;
      found = find_session-insert tok u _ d.tables t' d.now inserted (
          first_where_self _ (λ x. x.id == u.id) d.tables.users u e (same_refl u.id)
            (IsUnique-Distinct (λ x. x.id) u.id d.tables.users c.users.0));
      lasts = unfold format_time scan_time in omega arith;
      users_same = insert_session_users tok u.id _ d.tables t' d.now inserted;
    }

-- A login that is answered with success has been given the password of an existing account, sets a
-- cookie with a new session's token for the session lifetime, and leaves tables in which that token
-- stands for the account and lasts for the lifetime but for the part of a second.
pub login-Opens :
    (check : String → String → Bool) (token : Option String) (now : ℕ) (req : Credentials) (d : Db)
    (r : Response)
    → IsConsistent d.tables
    → (login check token now (some req) d).0 ≡ ok r
    → Opens check token now req d (login check token now (some req) d).1 r
login-Opens check token now req d r c h =
    let (u, tok, e, given) = login_needs check token now req d r h in
    rw given (opened check tok now req d u r c e (rw (← given) h))
