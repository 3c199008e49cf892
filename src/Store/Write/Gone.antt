-- ===== src/Store/Write/Gone.antt =====
-- Accounts that are gone (DeleteUser of internal/store/users.go): their ids are not given out again.
use crypticquest_backend.Base.{
  string_key, ℕ, suc, ◌+◌, ◌≡◌, refl, sym, ◌∙◌, subst, Bool-cases, true, false, ◌&&◌, ◌==◌, int_key,
  int_eq_iff, same_symm, ℤ, pos, String, List, [], ◌∷◌, has, has-All, has-append_one,
  has-update_where, All-mono, IsGiven, IsGiven-suc, next_is_new, inl, inr, arith,
}
use crypticquest_backend.Schema.{Tables, UserRow}
use crypticquest_backend.Engine.{exec, wrap}
use crypticquest_backend.Engine.Laws.{
  Leaves, Keeps, Keeps-exec, Keeps-bind, Keeps-wrap, keeps_rules,
}
use crypticquest_backend.Store.Errors.{affected, database}
use crypticquest_backend.Store.Users
use crypticquest_backend.Store.Users.{insert_user, update_users, delete_user_row, solved_count}
use crypticquest_backend.Store.Sessions
use crypticquest_backend.Store.Sessions.{
  insert_session, delete_session_rows, delete_user_session_rows, update_session_rows,
}
use crypticquest_backend.Store.Progress.{has_progress}
use crypticquest_backend.Store.Hints
use crypticquest_backend.Store.Hints.{clear_hints, insert_hint, insert_hints}
use crypticquest_backend.Store.Tools
use crypticquest_backend.Store.Tools.{ToolInput, insert_tool, update_tool_rows, delete_tool_row}
use crypticquest_backend.Store.Integrity.{IsConsistent}
use crypticquest_backend.Store.Write.{Write, perform}
use crypticquest_backend.Store.Write.Apart.{is_apart}

-- The id was given out, and no account has it.
abbrev pub IsGone : ℤ → Tables → Type 0
IsGone v t = (has (λ u. u.id == v) t.users ≡ false) × IsGiven t.user_seq v

module _ (v : ℤ) where
  insert_user-IsGone :
      (username hash role : String) (t : Tables) (now : ℕ)
      → IsGone v t
      → Leaves (IsGone v) (insert_user username hash role t now)
  unfolding insert_user
  insert_user-IsGone username hash role t now (h, g) =
      elim (Bool-cases (has (λ x. x.username == username) t.users)) [
        | inl taken ↦ rw taken tt
        | inr new ↦ rw new (
          has-append_one (λ u. u.id == v) t.users _
              ∙ rw h (same_symm (pos (suc t.user_seq)) v ∙ next_is_new t.user_seq v g),
          IsGiven-suc t.user_seq v g,
        )
      ]

  update_users-IsGone :
      (f : UserRow → UserRow) (id : ℤ)
      → ((x : UserRow) → ((f x).id == v) ≡ (x.id == v))
      → (t : Tables) (now : ℕ) → IsGone v t
      → Leaves (IsGone v) (update_users f id t now)
  unfolding update_users
  update_users-IsGone f id k t now (h, g) =
      (has-update_where (λ u. u.id == v) (λ u. u.id == id) f t.users k ∙ h, g)

  insert_session-IsGone :
      (token : String) (user_id : ℤ) (expiry : ℕ) (t : Tables) (now : ℕ)
      → IsGone v t
      → Leaves (IsGone v) (insert_session token user_id expiry t now)
  unfolding insert_session
  insert_session-IsGone token user_id expiry t now h = ground (arith, h)

  delete_session_rows-IsGone :
      (token : String) (t : Tables) (now : ℕ)
      → IsGone v t
      → Leaves (IsGone v) (delete_session_rows token t now)
  unfolding delete_session_rows
  delete_session_rows-IsGone token t now h = h

  delete_user_session_rows-IsGone :
      (id : ℤ) (t : Tables) (now : ℕ)
      → IsGone v t
      → Leaves (IsGone v) (delete_user_session_rows id t now)
  unfolding delete_user_session_rows
  delete_user_session_rows-IsGone id t now h = h

  update_session_rows-IsGone :
      (token : String) (expiry : ℕ) (t : Tables) (now : ℕ)
      → IsGone v t
      → Leaves (IsGone v) (update_session_rows token expiry t now)
  unfolding update_session_rows
  update_session_rows-IsGone token expiry t now h = h

  clear_hints-IsGone :
      (id : ℤ) (t : Tables) (now : ℕ) → IsGone v t → Leaves (IsGone v) (clear_hints id t now)
  unfolding clear_hints
  clear_hints-IsGone id t now h = h

  insert_hint-IsGone :
      (id order_index : ℤ) (text : String) (t : Tables) (now : ℕ)
      → IsGone v t
      → Leaves (IsGone v) (insert_hint id order_index text t now)
  unfolding insert_hint
  insert_hint-IsGone id order_index text t now h = ground (arith, h)

  insert_tool-IsGone :
      (new : ToolInput) (t : Tables) (now : ℕ)
      → IsGone v t
      → Leaves (IsGone v) (insert_tool new t now)
  unfolding insert_tool
  insert_tool-IsGone new t now h = ground (arith, h)

  update_tool_rows-IsGone :
      (id : ℤ) (new : ToolInput) (t : Tables) (now : ℕ)
      → IsGone v t
      → Leaves (IsGone v) (update_tool_rows id new t now)
  unfolding update_tool_rows
  update_tool_rows-IsGone id new t now h = ground (arith, h)

  delete_tool_row-IsGone :
      (id : ℤ) (t : Tables) (now : ℕ) → IsGone v t → Leaves (IsGone v) (delete_tool_row id t now)
  unfolding delete_tool_row
  delete_tool_row-IsGone id t now h = h

ruleset statements = (
  keeps_rules, Keeps-exec, insert_user-IsGone, insert_session-IsGone, delete_session_rows-IsGone,
  delete_user_session_rows-IsGone, update_session_rows-IsGone, clear_hints-IsGone,
  insert_hint-IsGone, insert_tool-IsGone, update_tool_rows-IsGone, delete_tool_row-IsGone,
)

module _ (v : ℤ) where
  insert_hints-Keeps :
      (level_id : ℤ) (i : ℕ) (texts : List String)
      → Keeps (IsGone v) (insert_hints level_id i texts)
  unfolding insert_hints
  insert_hints-Keeps level_id i [] = search statements
  insert_hints-Keeps level_id i (text ∷ texts) =
      Keeps-bind (wrap database (exec (insert_hint level_id (pos (i + 1)) text))) _
        (search statements) (λ _. insert_hints-Keeps level_id (i + 1) texts)

  -- Nothing but a new account can be given an id, and it gets a new one.
  pub apart-Keeps : (w : Write) → is_apart w ≡ true → Keeps (IsGone v) (perform w)
  unfolding perform
  apart-Keeps (Write.create_user username hash) h = unfold Users.create_user in search statements
  apart-Keeps (Write.ensure_admin username hash) h =
      unfold Users.ensure_admin in search statements depth 9
  apart-Keeps (Write.set_user_role id role) h =
      unfold Users.set_user_role in
      Keeps-bind _ affected
        (Keeps-wrap database _ (Keeps-exec _ (update_users-IsGone v _ id (λ x. refl))))
        (λ n. search keeps_rules)
  apart-Keeps (Write.update_password_hash id hash) h =
      unfold Users.update_password_hash in
      Keeps-bind _ affected
        (Keeps-wrap database _ (Keeps-exec _ (update_users-IsGone v _ id (λ x. refl))))
        (λ n. search keeps_rules)
  apart-Keeps (Write.delete_user_sessions id) h =
      unfold Sessions.delete_user_sessions in search statements
  apart-Keeps (Write.delete_tool id) h = unfold Tools.delete_tool in search statements depth 8
  apart-Keeps (Write.create_session token user_id expires_at) h =
      unfold Sessions.create_session in search statements
  apart-Keeps (Write.refresh_session token expires_at) h =
      unfold Sessions.refresh_session in search statements
  apart-Keeps (Write.delete_session token) h = unfold Sessions.delete_session in search statements
  apart-Keeps (Write.replace_hints level_id texts) h =
      unfold Hints.replace_hints in search (statements, insert_hints-Keeps) depth 8
  apart-Keeps (Write.create_tool new) h = unfold Tools.create_tool in search statements
  apart-Keeps (Write.update_tool id new) h = unfold Tools.update_tool in search statements depth 8
  apart-Keeps (Write.set_user_progress_to_level id level) h = absurd (cc h)
  apart-Keeps (Write.delete_user id) h = absurd (cc h)
  apart-Keeps (Write.delete_level id) h = absurd (cc h)
  apart-Keeps (Write.record_solved user_id level_id) h = absurd (cc h)
  apart-Keeps (Write.create_level new) h = absurd (cc h)
  apart-Keeps (Write.update_level id new) h = absurd (cc h)

-- Who is gone has no solves.
pub has_progress-IsGone :
    (v i : ℤ) (t : Tables) → IsConsistent t → IsGone v t → has_progress v i t ≡ false
unfolding has_progress
has_progress-IsGone v i t c (h, g) =
    has-All (λ p. (p.user_id == v) && (p.level_id == i)) t.user_progress
      (All-mono _ _ t.user_progress
        (λ p there. elim (Bool-cases (p.user_id == v)) [
          | inr f ↦ rw f refl
          | inl e ↦
              let here : has (λ u. u.id == v) t.users ≡ true =
                subst (λ j. has (λ u. u.id == j) t.users ≡ true) ((int_eq_iff p.user_id v).0 e)
                  there in
              absurd (cc (sym here ∙ h))
        ])
        c.progress_users)
