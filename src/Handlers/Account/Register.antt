-- ===== src/Handlers/Account/Register.antt =====
-- Register and Logout (internal/handlers/register.go, logout.go), and a login followed by a request
-- behind RequireLogin.
use crypticquest_backend.Base.{
  ℕ, ◌+◌, ◌≤◌, ◌≡◌, refl, sym, ◌∙◌, String, ◌==◌, string_key, int_key, pos, suc, Bool, true, false,
  not, ◌&&◌, Option, none, some, List, [], ◌∷◌, ◌++◌, if◌then◌else◌, inl, inr, subst, Option-cases,
  Bool-cases, arith, has,
}
use mathlib.Core.List.{append-nil}
use crypticquest_backend.Schema.{UserRow}
use crypticquest_backend.Engine.{Db, ok, exec}
use crypticquest_backend.Store.Errors.{is_unique_violation}
use crypticquest_backend.Store.Users.{create_user, insert_user, role_player}
use crypticquest_backend.Store.Sessions.{second, delete_session, delete_session_rows, find_session}
use crypticquest_backend.Store.Sessions.Lookup.{find_session-delete}
use crypticquest_backend.Store.Integrity.{IsConsistent}
use crypticquest_backend.Store.Write.Open.{spares, Meanwhile, Meanwhile-IsOpen}
use crypticquest_backend.Store.Sessions.Open.{find_session-IsOpen, IsOpen-find_session}
use crypticquest_backend.Http.{
  Response, Handler, response, json, fail, with_cookies, clear, no_body, registered,
}
use crypticquest_backend.Middleware.{Clock, session_ttl}
use crypticquest_backend.Middleware.Sessions.{Admits, session_at, require_login-Admits}
use crypticquest_backend.Handlers.Account.{
  Credentials, register, login, logout, within, is_username,
}
use crypticquest_backend.Handlers.Account.Login.{named, login-Opens}

-- The guards of a registration, in their order, and what follows them.
abbrev pub registration : Credentials → Option String → Bool → ℕ → Response
registration req hash taken seq =
    if not (within 3 32 req.username)
    then fail 400 "username must be 3-32 characters"
    else if not (is_username req.username)
    then fail 400 "username may contain only letters, digits, '.', '_' and '-'"
    else if not (within 8 72 req.password)
    then fail 400 "password must be 8-72 characters"
    else elim hash [
      | none ↦ fail 500 "could not process password"
      | some h ↦
          if taken
          then fail 409 "username already taken"
          else json 201 (registered (pos (suc seq)) req.username)
    ]

-- The players that a registration adds.
abbrev pub joined : Credentials → Option String → Bool → ℕ → ℕ → List UserRow
joined req none taken seq now = []
joined req (some h) taken seq now =
    if within 3 32 req.username && is_username req.username && within 8 72 req.password && not taken
    then record {
      id = pos (suc seq);
      username = req.username;
      password_hash = h;
      role = role_player;
      created_at = now;
    }
      ∷ []
    else []

-- With no fault to come, a registration is refused with 400 for the first of a username of the wrong
-- length, one with a character that is not allowed and a password of the wrong length, with 500 if
-- the password cannot be hashed, and with 409 for a username that is taken; otherwise it answers 201
-- with the new id. It adds one player with the hash in the last case, and no account in the others.
pub register_exact :
    (hash : String → Option String) (req : Credentials) (d : Db)
    → d.faults ≡ []
    → let taken = has (λ u. u.username == req.username) d.tables.users in
      let h = hash req.password in
      (response (register hash (some req) d).0 ≡ registration req h taken d.tables.user_seq)
      × ((register hash (some req) d).1.tables.users
          ≡ d.tables.users ++ joined req h taken d.tables.user_seq d.now)
unfolding register create_user insert_user exec is_unique_violation
register_exact hash req d quiet =
    let nobody = append-nil d.tables.users in
    elim (Bool-cases (within 3 32 req.username)) [
      | inr f ↦ rw f (refl, ground (arith, nobody))
      | inl t ↦ elim (Bool-cases (is_username req.username)) [
        | inr f ↦ rw t (rw f (refl, ground (arith, nobody)))
        | inl t' ↦ elim (Bool-cases (within 8 72 req.password)) [
          | inr f ↦ rw t (rw t' (rw f (refl, ground (arith, nobody))))
          | inl t'' ↦ elim (Option-cases (hash req.password)) [
            | inl no_hash ↦ rw t (rw t' (rw t'' (rw no_hash (refl, ground (arith, nobody)))))
            | inr (h, hashed) ↦ rw t (rw t' (rw t'' (rw hashed (ground (arith, nobody)))))
          ]
        ]
      ]
    ]

-- With no fault to come, a logout with a session cookie answers 204, tells the browser to drop the
-- cookie, and leaves no session for its token, whether or not there was one.
logout_exact :
    (token : String) (d : Db)
    → d.faults ≡ []
    → ((logout (some token) d).0 ≡ ok (with_cookies (clear ∷ []) (json 204 no_body)))
      × (session_at (some token) (logout (some token) d).1.tables ≡ none)
unfolding logout delete_session delete_session_rows exec
logout_exact token d quiet = ground (arith, find_session-delete token d.tables)

-- A player who has logged in, on consistent tables and with a token that is not empty, stays logged in:
-- after any writes of the store, in any order and with any faults, that neither end or shorten this
-- session nor change this account (others may come, go and play, levels change, and the session may be
-- extended), a request with the token, while no fault is to come, the clock readings are in their order
-- and the session lifetime from the login on is not over but for a second, runs its handler as the
-- account that the password was given for.
pub login-Admits :
    (check : String → String → Bool) (token : String) (now : ℕ) (req : Credentials) (d : Db)
    (r : Response) (u : UserRow) (clock : Clock) (next : UserRow → Handler) (later : Db)
    → IsConsistent d.tables
    → (login check (some token) now (some req) d).0 ≡ ok r
    → named req.username d.tables ≡ some u
    → Meanwhile
        (spares token u.id (now + session_ttl))
        (login check (some token) now (some req) d).1
        later
    → later.faults ≡ []
    → (token == "") ≡ false
    → clock.at_threshold ≤ clock.at_refresh
    → clock.at_expiry + second ≤ now + session_ttl
    → (check u.password_hash req.password ≡ true) × Admits clock token next later u
login-Admits check token now req d r u clock next later c h account meanwhile quiet filled order
      time =
    let d₁ = (login check (some token) now (some req) d).1 in
    let o = login-Opens check (some token) now req d r c h in
    let same_token : o.token ≡ token = cc in
    let same_user : o.user ≡ u = cc (sym o.account ∙ account) in
    let opened =
      subst (λ v. find_session token d₁.tables ≡ some (o.session, v)) same_user
        (subst (λ tok. find_session tok d₁.tables ≡ some (o.session, o.user)) same_token o.found) in
    let (s, found, lasts) = find_session-IsOpen token u (now + session_ttl) later.tables (
      Meanwhile-IsOpen token u (now + session_ttl) meanwhile
        (IsOpen-find_session token u (now + session_ttl) d₁.tables o.session opened o.lasts)) in
    (
      subst (λ v. check v.password_hash req.password ≡ true) same_user o.right,
      require_login-Admits clock token next later s u quiet order (rw filled found)
          (omega (arith, lasts, time)),
    )
