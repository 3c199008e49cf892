-- ===== src/Store/Write/Content.antt =====
-- The writes of internal/store that leave the accounts and the sessions alone: those on levels, hints,
-- tools and solves.
use crypticquest_backend.Base.{
  ℕ, suc, ◌+◌, ◌≡◌, refl, Bool, true, false, String, ℤ, pos, List, [], ◌∷◌, arith,
}
use crypticquest_backend.Schema.{Tables, UserRow, SessionRow, LevelRow}
use crypticquest_backend.Engine.{Db, Result, SqlError, ok, err, exec, wrap}
use crypticquest_backend.Engine.Laws.{Leaves, Keeps, Keeps-exec, Keeps-bind, keeps_rules}
use crypticquest_backend.Store.Errors.{database}
use crypticquest_backend.Store.Progress
use crypticquest_backend.Store.Progress.{
  insert_progress, insert_or_ignore_progress, clear_progress, insert_progress_select,
  insert_first_levels, mark_solved, next_row,
}
use crypticquest_backend.Store.Levels
use crypticquest_backend.Store.Levels.{
  AdminLevelInput, insert_level, update_level_rows, delete_level_row,
}
use crypticquest_backend.Store.Hints
use crypticquest_backend.Store.Hints.{clear_hints, insert_hint, insert_hints}
use crypticquest_backend.Store.Tools
use crypticquest_backend.Store.Tools.{ToolInput, insert_tool, update_tool_rows, delete_tool_row}
use crypticquest_backend.Store.Write.{
  Write, perform, set_user_progress_to_level, delete_level, delete_tool, record_solved,
  create_level, update_level, replace_hints, create_tool, update_tool,
}

abbrev pub is_content : Write → Bool
is_content (set_user_progress_to_level id level) = true
is_content (delete_level id) = true
is_content (delete_tool id) = true
is_content (record_solved user_id level_id) = true
is_content (create_level new) = true
is_content (update_level id new) = true
is_content (replace_hints level_id texts) = true
is_content (create_tool new) = true
is_content (update_tool id new) = true
is_content _ = false

abbrev pub accounts : Tables → List UserRow × List SessionRow
accounts t = (t.users, t.sessions)

abbrev HasAccounts : List UserRow × List SessionRow → Tables → Type 0
HasAccounts a t = accounts t ≡ a

module _ (a : List UserRow × List SessionRow) where
  insert_or_ignore_progress-HasAccounts :
      (user_id level_id : ℤ) (t : Tables) (now : ℕ)
      → HasAccounts a t
      → Leaves (HasAccounts a) (insert_or_ignore_progress user_id level_id t now)
  unfolding insert_or_ignore_progress insert_progress
  insert_or_ignore_progress-HasAccounts user_id level_id t now h = ground (arith, h)

  clear_progress-HasAccounts :
      (user_id : ℤ) (t : Tables) (now : ℕ)
      → HasAccounts a t
      → Leaves (HasAccounts a) (clear_progress user_id t now)
  unfolding clear_progress
  clear_progress-HasAccounts user_id t now h = h

  insert_level-HasAccounts :
      (new : AdminLevelInput) (t : Tables) (now : ℕ)
      → HasAccounts a t
      → Leaves (HasAccounts a) (insert_level new t now)
  unfolding insert_level
  insert_level-HasAccounts new t now h = ground (arith, h)

  update_level_rows-HasAccounts :
      (id : ℤ) (new : AdminLevelInput) (t : Tables) (now : ℕ)
      → HasAccounts a t
      → Leaves (HasAccounts a) (update_level_rows id new t now)
  unfolding update_level_rows
  update_level_rows-HasAccounts id new t now h = ground (arith, h)

  delete_level_row-HasAccounts :
      (id : ℤ) (t : Tables) (now : ℕ)
      → HasAccounts a t
      → Leaves (HasAccounts a) (delete_level_row id t now)
  unfolding delete_level_row
  delete_level_row-HasAccounts id t now h = ground (arith, h)

  clear_hints-HasAccounts :
      (id : ℤ) (t : Tables) (now : ℕ)
      → HasAccounts a t
      → Leaves (HasAccounts a) (clear_hints id t now)
  unfolding clear_hints
  clear_hints-HasAccounts id t now h = h

  insert_hint-HasAccounts :
      (id order_index : ℤ) (text : String) (t : Tables) (now : ℕ)
      → HasAccounts a t
      → Leaves (HasAccounts a) (insert_hint id order_index text t now)
  unfolding insert_hint
  insert_hint-HasAccounts id order_index text t now h = ground (arith, h)

  insert_tool-HasAccounts :
      (new : ToolInput) (t : Tables) (now : ℕ)
      → HasAccounts a t
      → Leaves (HasAccounts a) (insert_tool new t now)
  unfolding insert_tool
  insert_tool-HasAccounts new t now h = ground (arith, h)

  update_tool_rows-HasAccounts :
      (id : ℤ) (new : ToolInput) (t : Tables) (now : ℕ)
      → HasAccounts a t
      → Leaves (HasAccounts a) (update_tool_rows id new t now)
  unfolding update_tool_rows
  update_tool_rows-HasAccounts id new t now h = ground (arith, h)

  delete_tool_row-HasAccounts :
      (id : ℤ) (t : Tables) (now : ℕ)
      → HasAccounts a t
      → Leaves (HasAccounts a) (delete_tool_row id t now)
  unfolding delete_tool_row
  delete_tool_row-HasAccounts id t now h = h

  insert_progress-HasAccounts :
      (user_id level_id : ℤ) (t : Tables) (now : ℕ)
      → HasAccounts a t
      → Leaves (HasAccounts a) (insert_progress user_id level_id t now)
  unfolding insert_progress
  insert_progress-HasAccounts user_id level_id t now h = ground (arith, h)

  next_row-HasAccounts :
      (r : Result SqlError (Unit {0} × Tables))
      (rest : Tables → Result SqlError (Unit {0} × Tables))
      → Leaves (HasAccounts a) r
      → ((t : Tables) → HasAccounts a t → Leaves (HasAccounts a) (rest t))
      → Leaves (HasAccounts a) (next_row r rest)
  next_row-HasAccounts (err e) rest h k = tt
  next_row-HasAccounts (ok (_, t)) rest h k = k t h

  insert_progress_select-HasAccounts :
      (user_id : ℤ) (ls : List LevelRow) (t : Tables) (now : ℕ)
      → HasAccounts a t
      → Leaves (HasAccounts a) (insert_progress_select user_id ls t now)
  unfolding insert_progress_select
  insert_progress_select-HasAccounts user_id [] t now h = h
  insert_progress_select-HasAccounts user_id (l ∷ ls) t now h =
      next_row-HasAccounts (insert_progress user_id l.id t now) _
        (insert_progress-HasAccounts user_id l.id t now h)
        (λ t' k. insert_progress_select-HasAccounts user_id ls t' now k)

  insert_first_levels-HasAccounts :
      (user_id : ℤ) (limit : ℕ) (t : Tables) (now : ℕ)
      → HasAccounts a t
      → Leaves (HasAccounts a) (insert_first_levels user_id limit t now)
  unfolding insert_first_levels
  insert_first_levels-HasAccounts user_id limit t now h =
      insert_progress_select-HasAccounts user_id _ t now h

ruleset statements = (
  keeps_rules, Keeps-exec, insert_first_levels-HasAccounts, insert_or_ignore_progress-HasAccounts,
  clear_progress-HasAccounts, insert_level-HasAccounts, update_level_rows-HasAccounts,
  delete_level_row-HasAccounts, clear_hints-HasAccounts, insert_hint-HasAccounts,
  insert_tool-HasAccounts, update_tool_rows-HasAccounts, delete_tool_row-HasAccounts,
)

module _ (a : List UserRow × List SessionRow) where
  insert_hints-Keeps :
      (level_id : ℤ) (i : ℕ) (texts : List String)
      → Keeps (HasAccounts a) (insert_hints level_id i texts)
  unfolding insert_hints
  insert_hints-Keeps level_id i [] = search statements
  insert_hints-Keeps level_id i (text ∷ texts) =
      Keeps-bind (wrap database (exec (insert_hint level_id (pos (i + 1)) text))) _
        (search statements) (λ _. insert_hints-Keeps level_id (i + 1) texts)

  mark_solved-Keeps : (id level : ℤ) → Keeps (HasAccounts a) (mark_solved id level)
  unfolding mark_solved
  mark_solved-Keeps id (pos (suc n)) = search statements
  mark_solved-Keeps id _ = search statements

  perform-Keeps : (w : Write) → is_content w ≡ true → Keeps (HasAccounts a) (perform w)
  unfolding perform
  perform-Keeps (set_user_progress_to_level id level) h =
      unfold Progress.set_user_progress_to_level in search (statements, mark_solved-Keeps) depth 8
  perform-Keeps (delete_level id) h = unfold Levels.delete_level in search statements depth 8
  perform-Keeps (delete_tool id) h = unfold Tools.delete_tool in search statements depth 8
  perform-Keeps (record_solved user_id level_id) h =
      unfold Progress.record_solved in search statements
  perform-Keeps (create_level new) h = unfold Levels.create_level in search statements
  perform-Keeps (update_level id new) h = unfold Levels.update_level in search statements depth 8
  perform-Keeps (replace_hints level_id texts) h =
      unfold Hints.replace_hints in search (statements, insert_hints-Keeps) depth 8
  perform-Keeps (create_tool new) h = unfold Tools.create_tool in search statements
  perform-Keeps (update_tool id new) h = unfold Tools.update_tool in search statements depth 8
  perform-Keeps (Write.create_user username hash) h = absurd (cc h)
  perform-Keeps (Write.ensure_admin username hash) h = absurd (cc h)
  perform-Keeps (Write.set_user_role id role) h = absurd (cc h)
  perform-Keeps (Write.update_password_hash id hash) h = absurd (cc h)
  perform-Keeps (Write.delete_user id) h = absurd (cc h)
  perform-Keeps (Write.delete_user_sessions id) h = absurd (cc h)
  perform-Keeps (Write.create_session token id expiry) h = absurd (cc h)
  perform-Keeps (Write.refresh_session token expiry) h = absurd (cc h)
  perform-Keeps (Write.delete_session token) h = absurd (cc h)

-- Such a write leaves the accounts and the sessions as they were, whether it succeeds or fails.
pub perform-accounts :
    (w : Write) (d : Db) → is_content w ≡ true → accounts (perform w d).1.tables ≡ accounts d.tables
perform-accounts w d h = (perform-Keeps (accounts d.tables) w h).at d refl
