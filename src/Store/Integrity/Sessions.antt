-- ===== src/Store/Integrity/Sessions.antt =====
-- The statements of internal/store/sessions.go keep the constraints.
use crypticquest_backend.Base.{
  ℕ, refl, ◌==◌, string_key, int_key, ℤ, List, has, All, Distinct, Bool, Bool-cases, inl, inr,
  String, String, All-append_one, Distinct-append_one, rows_without, Distinct-rows_where,
  All-rows_where, All-update_where, Distinct-update_where,
}
use crypticquest_backend.Schema.{Tables, SessionRow}
use crypticquest_backend.Engine.Laws.{Leaves}
use crypticquest_backend.Store.Sessions.{
  insert_session, delete_session_rows, delete_user_session_rows, update_session_rows,
}
use crypticquest_backend.Store.Integrity.{IsConsistent, HasUser, pair_key}

-- A statement that only writes the sessions keeps all but their own constraints.
with_sessions :
    (t : Tables) (sessions : List SessionRow)
    → IsConsistent t
    → Distinct (λ s. s.token) sessions
    → All (λ s. HasUser t.users s.user_id) sessions
    → IsConsistent (record t { sessions = sessions })
with_sessions t sessions c d h = record {
  users = c.users;
  levels = c.levels;
  tools = c.tools;
  hints = c.hints;
  progress = c.progress;
  tokens = d;
  session_users = h;
  progress_users = c.progress_users;
  progress_levels = c.progress_levels;
  hint_levels = c.hint_levels;
  tool_levels = c.tool_levels;
}

pub insert_session-IsConsistent :
    (token : String) (user_id : ℤ) (expires_at : ℕ) (t : Tables) (now : ℕ)
    → IsConsistent t
    → Leaves IsConsistent (insert_session token user_id expires_at t now)
unfolding insert_session
insert_session-IsConsistent token user_id expires_at t now c =
    elim (Bool-cases (has (λ s. s.token == token) t.sessions)) [
      | inl taken ↦ rw taken tt
      | inr new ↦ elim (Bool-cases (has (λ u. u.id == user_id) t.users)) [
        | inl known ↦ rw new (
            rw known (
              with_sessions t _ c (Distinct-append_one (λ s. s.token) t.sessions _ c.tokens new)
                (All-append_one _ t.sessions c.session_users known)))
        | inr unknown ↦ rw new (rw unknown tt)
      ]
    ]

without_sessions :
    (p : SessionRow → Bool) (t : Tables)
    → IsConsistent t
    → IsConsistent (record t { sessions = rows_without p t.sessions })
without_sessions p t c =
    with_sessions t _ c (Distinct-rows_where (λ s. s.token) _ t.sessions c.tokens)
      (All-rows_where _ _ t.sessions c.session_users)

pub delete_session_rows-IsConsistent :
    (token : String) (t : Tables) (now : ℕ)
    → IsConsistent t
    → Leaves IsConsistent (delete_session_rows token t now)
unfolding delete_session_rows
delete_session_rows-IsConsistent token t now c = without_sessions (λ s. s.token == token) t c

pub delete_user_session_rows-IsConsistent :
    (user_id : ℤ) (t : Tables) (now : ℕ)
    → IsConsistent t
    → Leaves IsConsistent (delete_user_session_rows user_id t now)
unfolding delete_user_session_rows
delete_user_session_rows-IsConsistent user_id t now c =
    without_sessions (λ s. s.user_id == user_id) t c

pub update_session_rows-IsConsistent :
    (token : String) (expires_at : ℕ) (t : Tables) (now : ℕ)
    → IsConsistent t
    → Leaves IsConsistent (update_session_rows token expires_at t now)
unfolding update_session_rows
update_session_rows-IsConsistent token expires_at t now c =
    with_sessions t _ c
      (Distinct-update_where (λ s. s.token) (λ s. s.token == token) _ t.sessions (λ s. refl)
        c.tokens)
      (All-update_where _ _ (λ s. s.token == token) _ t.sessions (λ s _ h. h) (λ s _ h. h)
        c.session_users)
