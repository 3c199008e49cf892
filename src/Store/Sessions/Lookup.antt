-- ===== src/Store/Sessions/Lookup.antt =====
-- SessionByToken after the writes of internal/store/sessions.go.
use crypticquest_backend.Base.{
  ℕ, ◌≡◌, refl, String, ◌==◌, string_key, int_key, same_refl, ℤ, false, Option, none, some, List,
  [], ◌∷◌, if◌then◌else◌, inl, inr, Bool-cases, Option-cases, arith, has, first_where,
  first_where-rows_without, first_where-update_where, first_where_passes, first_where-append_one,
  first_where-none_of_has, eq_iff, rows_without, Distinct,
}
use crypticquest_backend.Schema.{Tables, UserRow, SessionRow}
use crypticquest_backend.Engine.{ok}
use crypticquest_backend.Store.Sessions.{
  Session, find_session, update_session_rows, insert_session, scan_time,
}

-- The session that is found is the token's.
pub find_session-token :
    (token : String) (t : Tables) (s : Session) (u : UserRow)
    → find_session token t ≡ some (s, u)
    → s.token ≡ token
unfolding find_session
find_session-token token t s u e =
    elim (Option-cases (first_where (λ x. x.token == token) t.sessions)) [
      | inl missing ↦ absurd (ground arith)
      | inr (x, found) ↦
          let same =
            (eq_iff x.token token).0
              (first_where_passes (λ x. x.token == token) t.sessions found) in
          ground (arith, same)
    ]

pub find_session-delete :
    (token : String) (t : Tables)
    → find_session token (record t { sessions = rows_without (λ s. s.token == token) t.sessions })
      ≡ none
unfolding find_session
find_session-delete token t =
    ground (arith, first_where-rows_without (λ s. s.token == token) t.sessions)

pub find_session-update :
    (token : String) (seconds : ℕ) (t t' : Tables) (now : ℕ) (s : Session) (u : UserRow)
    → update_session_rows token seconds t now ≡ ok (tt, t')
    → find_session token t ≡ some (s, u)
    → find_session token t' ≡ some (record s { expires_at = scan_time seconds }, u)
unfolding find_session update_session_rows
find_session-update token seconds t t' now s u e found =
    elim (Option-cases (first_where (λ x. x.token == token) t.sessions)) [
      | inl missing ↦ absurd (ground arith)
      | inr (x, p) ↦ ground (
        arith,
        first_where-update_where (λ x. x.token == token) (λ x. x.token == token)
            (λ x. record x { expires_at = seconds }) t.sessions (λ y. refl),
        first_where_passes (λ x. x.token == token) t.sessions p,
      )
    ]

-- A new session is found with its user, when the token is new and the user is there.
pub find_session-insert :
    (token : String) (u : UserRow) (seconds : ℕ) (t t' : Tables) (now : ℕ)
    → insert_session token u.id seconds t now ≡ ok (tt, t')
    → first_where (λ x. x.id == u.id) t.users ≡ some u
    → find_session token t'
      ≡ some (record { token = token; user_id = u.id; expires_at = scan_time seconds }, u)
unfolding find_session insert_session
find_session-insert token u seconds t t' now e known =
    let new : has (λ s. s.token == token) t.sessions ≡ false = ground arith in
    ground (
      arith,
      first_where-append_one (λ s. s.token == token) t.sessions
          (record { token = token; user_id = u.id; expires_at = seconds }) new (same_refl token),
    )

-- The session of a token after the sessions of a user are deleted.
abbrev pub unless_of : ℤ → Option (Session × UserRow) → Option (Session × UserRow)
unless_of id none = none
unless_of id (some (s, u)) = if s.user_id == id then none else some (s, u)

abbrev keep_unless : ℤ → Option SessionRow → Option SessionRow
keep_unless id none = none
keep_unless id (some s) = if s.user_id == id then none else some s

first_where-unless_of :
    (token : String) (id : ℤ) (sessions : List SessionRow)
    → Distinct (λ s. s.token) sessions
    → first_where (λ s. s.token == token) (rows_without (λ s. s.user_id == id) sessions)
      ≡ keep_unless id (first_where (λ s. s.token == token) sessions)
first_where-unless_of token id [] h = refl
first_where-unless_of token id (x ∷ xs) (n, h) = elim (Bool-cases (x.token == token)) [
  | inr f ↦ ground (arith, first_where-unless_of token id xs h)
  | inl t ↦
      let same = (eq_iff x.token token).0 t in
      let no_more : first_where (λ s. s.token == token) xs ≡ none =
        first_where-none_of_has (λ s. s.token == token) xs (rw (← same) n) in
      ground (arith, first_where-unless_of token id xs h, no_more)
]

-- With distinct tokens, deleting a user's sessions takes away the sessions of that user, and leaves
-- what every other token stands for as it was.
pub find_session-delete_user :
    (token : String) (id : ℤ) (t : Tables)
    → Distinct (λ s. s.token) t.sessions
    → find_session token (record t { sessions = rows_without (λ s. s.user_id == id) t.sessions })
      ≡ unless_of id (find_session token t)
unfolding find_session
find_session-delete_user token id t h = ground (arith, first_where-unless_of token id t.sessions h)
