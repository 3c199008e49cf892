-- ===== src/Store/Sessions/Open.antt =====
-- An open session in the tables of internal/store/sessions.go and users.go, and what each statement does
-- to it.
use crypticquest_backend.Base.{
  Key, same_symm, ℕ, ◌+◌, ◌≤◌, ◌<◌, ◌≡◌, refl, sym, ◌∙◌, ap, subst, Bool, Bool-cases, true, false,
  not, ◌||◌, ◌==◌, string_key, int_key, int_eq_iff, eq_iff, String, ℤ, Option-cases, some, List, [],
  ◌∷◌, ◌++◌, leb, leb→le, has, first_where, first_where-rows_where, first_where-update_where,
  first_where_passes, inl, inr, arith,
}
use crypticquest_backend.Schema.{Tables, UserRow, SessionRow}
use crypticquest_backend.Engine.Laws.{Leaves}
use crypticquest_backend.Store.Users.{insert_user, update_users, delete_user_row}
use crypticquest_backend.Store.Sessions.{
  Session, second, format_time, scan_time, find_session, insert_session, delete_session_rows,
  delete_user_session_rows, update_session_rows,
}

first_where-append {ℓ} :
    {A : Type ℓ} (p : A → Bool) (xs ys : List A) {x : A}
    → first_where p xs ≡ some x
    → first_where p (xs ++ ys) ≡ some x
first_where-append p [] ys e = absurd (cc)
first_where-append p (y ∷ xs) ys {x} e = ground (arith, first_where-append p xs ys {x = x})

differs {ℓ} : {K : Type ℓ} ⦃e : Key K⦄ → (a b : K) → (a == b) ≡ false → (b == a) ≡ false
differs a b ne = same_symm b a ∙ ne

module _ (token : String) (u : UserRow) (least : ℕ) where
  -- The rows that the session stands on.
  pub record IsOpen (t : Tables) : Type 0 where
    pub row : SessionRow
    pub at : first_where (λ s. s.token == token) t.sessions ≡ some row
    pub owner : row.user_id ≡ u.id
    pub account : first_where (λ x. x.id == u.id) t.users ≡ some u
    pub lasts : least < scan_time row.expires_at + second

  row_token : (t : Tables) (o : IsOpen t) → o.row.token ≡ token
  row_token t o =
      (eq_iff o.row.token token).0 (first_where_passes (λ s. s.token == token) t.sessions o.at)

  pub IsOpen-same_rows :
      (t t' : Tables) → t'.users ≡ t.users → t'.sessions ≡ t.sessions → IsOpen t → IsOpen t'
  IsOpen-same_rows t t' users sessions o = record {
    row = o.row;
    at = rw sessions o.at;
    owner = o.owner;
    account = rw users o.account;
    lasts = o.lasts;
  }

  -- With other rows in both tables.
  moved :
      (t t' : Tables) (o : IsOpen t)
      → first_where (λ s. s.token == token) t'.sessions ≡ some o.row
      → first_where (λ x. x.id == u.id) t'.users ≡ some u
      → IsOpen t'
  moved t t' o at account = record {
    row = o.row;
    at = at;
    owner = o.owner;
    account = account;
    lasts = o.lasts;
  }

  pub insert_user-IsOpen :
      (username hash role : String) (t : Tables) (now : ℕ)
      → IsOpen t
      → Leaves IsOpen (insert_user username hash role t now)
  unfolding insert_user
  insert_user-IsOpen username hash role t now o =
      elim (Bool-cases (has (λ x. x.username == username) t.users)) [
        | inl taken ↦ rw taken tt
        | inr new ↦
            rw new (moved t _ o o.at (first_where-append (λ x. x.id == u.id) t.users _ o.account))
      ]

  pub update_users-IsOpen :
      (f : UserRow → UserRow) (id : ℤ)
      → ((x : UserRow) → (f x).id ≡ x.id)
      → (id == u.id) ≡ false
      → (t : Tables) (now : ℕ) → IsOpen t
      → Leaves IsOpen (update_users f id t now)
  unfolding update_users
  update_users-IsOpen f id k ne t now o = moved t _ o o.at (
      first_where-update_where (λ x. x.id == u.id) (λ x. x.id == id) f t.users
        (λ x. ap (λ i. i == u.id) (k x))
      ∙ rw o.account (rw (differs id u.id ne) refl))

  pub delete_user_row-IsOpen :
      (id : ℤ)
      → (id == u.id) ≡ false
      → (t : Tables) (now : ℕ) → IsOpen t
      → Leaves IsOpen (delete_user_row id t now)
  unfolding delete_user_row
  delete_user_row-IsOpen id ne t now o = elim (Bool-cases (has (λ x. x.id == id) t.users)) [
    | inr missing ↦ rw missing o
    | inl there ↦ rw there (
        moved t _ o
          (first_where-rows_where (λ s. s.token == token) (λ s. not (s.user_id == id)) t.sessions
            o.at (rw (o.owner, differs id u.id ne) refl))
          (first_where-rows_where (λ x. x.id == u.id) (λ x. not (x.id == id)) t.users o.account
            (rw (differs id u.id ne) refl)))
  ]

  pub delete_user_session_rows-IsOpen :
      (id : ℤ)
      → (id == u.id) ≡ false
      → (t : Tables) (now : ℕ) → IsOpen t
      → Leaves IsOpen (delete_user_session_rows id t now)
  unfolding delete_user_session_rows
  delete_user_session_rows-IsOpen id ne t now o =
      moved t _ o
        (first_where-rows_where (λ s. s.token == token) (λ s. not (s.user_id == id)) t.sessions o.at
          (rw (o.owner, differs id u.id ne) refl))
        o.account

  pub insert_session-IsOpen :
      (other : String) (id : ℤ) (expiry : ℕ) (t : Tables) (now : ℕ)
      → IsOpen t
      → Leaves IsOpen (insert_session other id expiry t now)
  unfolding insert_session
  insert_session-IsOpen other id expiry t now o =
      elim (Bool-cases (has (λ s. s.token == other) t.sessions)) [
        | inl taken ↦ rw taken tt
        | inr new ↦ elim (Bool-cases (has (λ x. x.id == id) t.users)) [
          | inr missing ↦ rw (new, missing) tt
          | inl known ↦
              rw (new, known)
                (moved t _ o (first_where-append (λ s. s.token == token) t.sessions _ o.at)
                  o.account)
        ]
      ]

  pub delete_session_rows-IsOpen :
      (other : String)
      → (other == token) ≡ false
      → (t : Tables) (now : ℕ) → IsOpen t
      → Leaves IsOpen (delete_session_rows other t now)
  unfolding delete_session_rows
  delete_session_rows-IsOpen other ne t now o =
      moved t _ o
        (first_where-rows_where (λ s. s.token == token) (λ s. not (s.token == other)) t.sessions
          o.at (rw (row_token t o, differs other token ne) refl))
        o.account

  still_lasts : (expiry : ℕ) → least ≤ expiry → least < scan_time (format_time expiry) + second
  unfolding scan_time format_time
  still_lasts expiry h = omega arith

  pub update_session_rows-IsOpen :
      (other : String) (expiry : ℕ)
      → (not (other == token) || leb least expiry) ≡ true
      → (t : Tables) (now : ℕ) → IsOpen t
      → Leaves IsOpen (update_session_rows other (format_time expiry) t now)
  unfolding update_session_rows
  update_session_rows-IsOpen other expiry k t now o =
      let extended = λ (s : SessionRow). record s { expires_at = format_time expiry } in
      let found =
        first_where-update_where (λ s. s.token == token) (λ s. s.token == other) extended t.sessions
          (λ s. refl) in
      elim (Bool-cases (token == other)) [
        | inr ne ↦ moved t _ o (found ∙ rw o.at (rw (row_token t o, ne) refl)) o.account
        | inl own ↦ record {
          row = extended o.row;
          at = found ∙ rw o.at (rw (row_token t o, own) refl);
          owner = o.owner;
          account = o.account;
          lasts = still_lasts expiry (leb→le _ _ (ground (arith, same_symm token other)));
        }
      ]

  -- What SessionByToken finds of it.
  pub find_session-IsOpen :
      (t : Tables)
      → IsOpen t
      → (s : Session) × (find_session token t ≡ some (s, u)) × (least < s.expires_at + second)
  unfolding find_session
  find_session-IsOpen t o =
      let account : first_where (λ x. x.id == o.row.user_id) t.users ≡ some u =
        subst (λ i. first_where (λ x. x.id == i) t.users ≡ some u) (sym o.owner) o.account in
      (
        record {
          token = o.row.token;
          user_id = o.row.user_id;
          expires_at = scan_time o.row.expires_at;
        },
        ground (arith, o.at, account),
        o.lasts,
      )

  pub IsOpen-find_session :
      (t : Tables) (s : Session)
      → find_session token t ≡ some (s, u)
      → least < s.expires_at + second
      → IsOpen t
  unfolding find_session
  IsOpen-find_session t s e h =
      elim (Option-cases (first_where (λ x. x.token == token) t.sessions)) [
        | inl missing ↦ absurd (ground arith)
        | inr (x, p) ↦ elim (Option-cases (first_where (λ y. y.id == x.user_id) t.users)) [
          | inl nobody ↦ absurd (ground arith)
          | inr (y, q) ↦
              let same : y ≡ u = ground arith in
              let own : x.user_id ≡ u.id =
                sym (
                  (int_eq_iff y.id x.user_id).0
                    (first_where_passes (λ y. y.id == x.user_id) t.users q))
                ∙ ap (λ y. y.id) same in
              record {
                row = x;
                at = p;
                owner = own;
                account =
                    subst (λ i. first_where (λ y. y.id == i) t.users ≡ some u) own
                      (q ∙ ap some same);
                lasts = subst (λ n. least < n + second) (ground arith) h;
              }
        ]
      ]
