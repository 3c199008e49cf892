-- ===== src/Store/Integrity/Users.antt =====
-- The statements of internal/store/users.go keep the constraints.
use crypticquest_backend.Base.{
  ℕ, suc, ◌≡◌, refl, ◌∙◌, true, false, ◌==◌, string_key, int_key, int_eq_iff, ℤ, pos, List, [], ◌∷◌,
  ◌++◌, has, IsGiven, Bool-cases, inl, inr, not, arith, String, String, All-append_one,
  Distinct-append_one, has_next, All-IsGiven-suc, All-mono, has-append_one, rows_without,
  Distinct-rows_where, All-rows_where, All-rows_where_with, has-rows_where_eq, has-update_where,
  All-update_where, Distinct-update_where,
}
use crypticquest_backend.Schema.{Tables, UserRow}
use crypticquest_backend.Engine.Laws.{Leaves}
use crypticquest_backend.Store.Users.{insert_user, update_users, delete_user_row}
use crypticquest_backend.Store.Integrity.{IsConsistent, AreUsers, HasUser, pair, pair_key}

-- A row that is added.
AreUsers-append_one :
    (seq : ℕ) (users : List UserRow) (u : UserRow)
    → u.id ≡ pos (suc seq)
    → has (λ x. x.username == u.username) users ≡ false
    → AreUsers seq users
    → AreUsers (suc seq) (users ++ u ∷ [])
AreUsers-append_one seq users u e new (ids, names, given) = (
  Distinct-append_one (λ x. x.id) users u ids (rw e (has_next (λ x. x.id) seq users given)),
  Distinct-append_one (λ x. x.username) users u names new,
  All-append_one (λ x. IsGiven (suc seq) x.id) users (All-IsGiven-suc (λ x. x.id) seq users given)
      (rw e (omega arith)),
)

HasUser-append_one :
    (users : List UserRow) (u : UserRow) (id : ℤ) → HasUser users id → HasUser (users ++ u ∷ []) id
HasUser-append_one users u id h = rw (has-append_one (λ x. x.id == id) users u) (ground arith)

pub insert_user-IsConsistent :
    (username hash role : String) (t : Tables) (now : ℕ)
    → IsConsistent t
    → Leaves IsConsistent (insert_user username hash role t now)
unfolding insert_user
insert_user-IsConsistent username hash role t now c =
    elim (Bool-cases (has (λ u. u.username == username) t.users)) [
      | inl taken ↦ rw taken tt
      | inr new ↦ rw new (record {
        users = AreUsers-append_one t.user_seq t.users _ refl new c.users;
        levels = c.levels;
        tools = c.tools;
        hints = c.hints;
        progress = c.progress;
        tokens = c.tokens;
        session_users =
            All-mono _ _ t.sessions (λ s. HasUser-append_one t.users _ s.user_id) c.session_users;
        progress_users =
            All-mono _ _ t.user_progress (λ p. HasUser-append_one t.users _ p.user_id)
              c.progress_users;
        progress_levels = c.progress_levels;
        hint_levels = c.hint_levels;
        tool_levels = c.tool_levels;
      })
    ]

pub update_users-IsConsistent :
    (f : UserRow → UserRow) (id : ℤ)
    → ((u : UserRow) → (f u).id ≡ u.id)
    → ((u : UserRow) → (f u).username ≡ u.username)
    → (t : Tables) (now : ℕ) → IsConsistent t
    → Leaves IsConsistent (update_users f id t now)
unfolding update_users
update_users-IsConsistent f id ids names t now c =
    let kept = λ (i : ℤ) (h : HasUser t.users i).
      has-update_where (λ u. u.id == i) (λ u. u.id == id) f t.users (λ u. rw (ids u) refl) ∙ h in
    record {
      users = (
        Distinct-update_where (λ u. u.id) (λ u. u.id == id) f t.users ids c.users.0,
        Distinct-update_where (λ u. u.username) (λ u. u.id == id) f t.users names c.users.1,
        All-update_where _ _ (λ u. u.id == id) f t.users (λ u _ g. g) (λ u _ g. rw (ids u) g)
            c.users.2,
      );
      levels = c.levels;
      tools = c.tools;
      hints = c.hints;
      progress = c.progress;
      tokens = c.tokens;
      session_users = All-mono _ _ t.sessions (λ s. kept s.user_id) c.session_users;
      progress_users = All-mono _ _ t.user_progress (λ p. kept p.user_id) c.progress_users;
      progress_levels = c.progress_levels;
      hint_levels = c.hint_levels;
      tool_levels = c.tool_levels;
    }

-- Users other than the deleted one stay.
HasUser-rows_without :
    (users : List UserRow) (id i : ℤ)
    → not (i == id) ≡ true
    → HasUser users i
    → HasUser (rows_without (λ u. u.id == id) users) i
HasUser-rows_without users id i ne h =
    has-rows_where_eq (λ u. u.id == i) (λ u. not (u.id == id)) users
      (λ u e. rw ((int_eq_iff u.id i).0 e) ne)
    ∙ h

-- The tables after the deletion of a user that exists.
abbrev deleted_user : ℤ → Tables → Tables
deleted_user id t = record t {
  users = rows_without (λ u. u.id == id) t.users;
  sessions = rows_without (λ s. s.user_id == id) t.sessions;
  user_progress = rows_without (λ p. p.user_id == id) t.user_progress;
}

-- A row is deleted.
delete_user_row_deleted : (id : ℤ) (t : Tables) → IsConsistent t → IsConsistent (deleted_user id t)
delete_user_row_deleted id t c = record {
  users = (
    Distinct-rows_where (λ u. u.id) _ t.users c.users.0,
    Distinct-rows_where (λ u. u.username) _ t.users c.users.1,
    All-rows_where _ _ t.users c.users.2,
  );
  levels = c.levels;
  tools = c.tools;
  hints = c.hints;
  progress = (
    Distinct-rows_where (λ p. p.id) _ t.user_progress c.progress.0,
    Distinct-rows_where pair _ t.user_progress c.progress.1,
    All-rows_where _ _ t.user_progress c.progress.2,
  );
  tokens = Distinct-rows_where (λ s. s.token) _ t.sessions c.tokens;
  session_users =
      All-rows_where_with _ _ _ t.sessions (λ s. HasUser-rows_without t.users id s.user_id)
        c.session_users;
  progress_users =
      All-rows_where_with _ _ _ t.user_progress (λ p. HasUser-rows_without t.users id p.user_id)
        c.progress_users;
  progress_levels = All-rows_where _ _ t.user_progress c.progress_levels;
  hint_levels = c.hint_levels;
  tool_levels = c.tool_levels;
}

pub delete_user_row-IsConsistent :
    (id : ℤ) (t : Tables) (now : ℕ)
    → IsConsistent t
    → Leaves IsConsistent (delete_user_row id t now)
unfolding delete_user_row
delete_user_row-IsConsistent id t now c = elim (Bool-cases (has (λ u. u.id == id) t.users)) [
  | inl there ↦ rw there (delete_user_row_deleted id t c)
  | inr missing ↦ rw missing c
]
