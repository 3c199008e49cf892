-- ===== src/Store/Write/Apart.antt =====
-- The writes of internal/store that leave the levels and the solves alone: those on accounts, sessions,
-- hints and tools.
use crypticquest_backend.Base.{
  ℕ, ◌+◌, ◌≡◌, refl, Bool, true, false, String, ℤ, pos, List, [], ◌∷◌, arith,
}
use crypticquest_backend.Schema.{Tables, UserRow, LevelRow, ProgressRow}
use crypticquest_backend.Engine.{Db, exec, wrap}
use crypticquest_backend.Engine.Laws.{Leaves, Keeps, Keeps-exec, Keeps-bind, keeps_rules}
use crypticquest_backend.Store.Errors.{database}
use crypticquest_backend.Store.Users
use crypticquest_backend.Store.Users.{insert_user, update_users}
use crypticquest_backend.Store.Sessions
use crypticquest_backend.Store.Sessions.{
  insert_session, delete_session_rows, delete_user_session_rows, update_session_rows,
}
use crypticquest_backend.Store.Hints
use crypticquest_backend.Store.Hints.{clear_hints, insert_hint, insert_hints}
use crypticquest_backend.Store.Tools
use crypticquest_backend.Store.Tools.{ToolInput, insert_tool, update_tool_rows, delete_tool_row}
use crypticquest_backend.Store.Write.{
  Write, perform, create_user, ensure_admin, set_user_role, update_password_hash,
  set_user_progress_to_level, delete_user, delete_user_sessions, delete_level, delete_tool,
  create_session, refresh_session, delete_session, record_solved, create_level, update_level,
  replace_hints, create_tool, update_tool,
}

abbrev pub is_apart : Write → Bool
is_apart (set_user_progress_to_level id level) = false
is_apart (delete_user id) = false
is_apart (delete_level id) = false
is_apart (record_solved user_id level_id) = false
is_apart (create_level new) = false
is_apart (update_level id new) = false
is_apart _ = true

-- What the game goes by.
abbrev pub game : Tables → List LevelRow × List ProgressRow
game t = (t.levels, t.user_progress)

abbrev IsGame : List LevelRow × List ProgressRow → Tables → Type 0
IsGame g t = game t ≡ g

module _ (g : List LevelRow × List ProgressRow) where
  insert_user-IsGame :
      (username hash role : String) (t : Tables) (now : ℕ)
      → IsGame g t
      → Leaves (IsGame g) (insert_user username hash role t now)
  unfolding insert_user
  insert_user-IsGame username hash role t now h = ground (arith, h)

  update_users-IsGame :
      (f : UserRow → UserRow) (id : ℤ) (t : Tables) (now : ℕ)
      → IsGame g t
      → Leaves (IsGame g) (update_users f id t now)
  unfolding update_users
  update_users-IsGame f id t now h = h

  insert_session-IsGame :
      (token : String) (user_id : ℤ) (expiry : ℕ) (t : Tables) (now : ℕ)
      → IsGame g t
      → Leaves (IsGame g) (insert_session token user_id expiry t now)
  unfolding insert_session
  insert_session-IsGame token user_id expiry t now h = ground (arith, h)

  delete_session_rows-IsGame :
      (token : String) (t : Tables) (now : ℕ)
      → IsGame g t
      → Leaves (IsGame g) (delete_session_rows token t now)
  unfolding delete_session_rows
  delete_session_rows-IsGame token t now h = h

  delete_user_session_rows-IsGame :
      (id : ℤ) (t : Tables) (now : ℕ)
      → IsGame g t
      → Leaves (IsGame g) (delete_user_session_rows id t now)
  unfolding delete_user_session_rows
  delete_user_session_rows-IsGame id t now h = h

  update_session_rows-IsGame :
      (token : String) (expiry : ℕ) (t : Tables) (now : ℕ)
      → IsGame g t
      → Leaves (IsGame g) (update_session_rows token expiry t now)
  unfolding update_session_rows
  update_session_rows-IsGame token expiry t now h = h

  clear_hints-IsGame :
      (id : ℤ) (t : Tables) (now : ℕ) → IsGame g t → Leaves (IsGame g) (clear_hints id t now)
  unfolding clear_hints
  clear_hints-IsGame id t now h = h

  insert_hint-IsGame :
      (id order_index : ℤ) (text : String) (t : Tables) (now : ℕ)
      → IsGame g t
      → Leaves (IsGame g) (insert_hint id order_index text t now)
  unfolding insert_hint
  insert_hint-IsGame id order_index text t now h = ground (arith, h)

  insert_tool-IsGame :
      (new : ToolInput) (t : Tables) (now : ℕ)
      → IsGame g t
      → Leaves (IsGame g) (insert_tool new t now)
  unfolding insert_tool
  insert_tool-IsGame new t now h = ground (arith, h)

  update_tool_rows-IsGame :
      (id : ℤ) (new : ToolInput) (t : Tables) (now : ℕ)
      → IsGame g t
      → Leaves (IsGame g) (update_tool_rows id new t now)
  unfolding update_tool_rows
  update_tool_rows-IsGame id new t now h = ground (arith, h)

  delete_tool_row-IsGame :
      (id : ℤ) (t : Tables) (now : ℕ) → IsGame g t → Leaves (IsGame g) (delete_tool_row id t now)
  unfolding delete_tool_row
  delete_tool_row-IsGame id t now h = h

ruleset statements = (
  keeps_rules, Keeps-exec, insert_user-IsGame, update_users-IsGame, insert_session-IsGame,
  delete_session_rows-IsGame, delete_user_session_rows-IsGame, update_session_rows-IsGame,
  clear_hints-IsGame, insert_hint-IsGame, insert_tool-IsGame, update_tool_rows-IsGame,
  delete_tool_row-IsGame,
)

module _ (g : List LevelRow × List ProgressRow) where
  insert_hints-Keeps :
      (level_id : ℤ) (i : ℕ) (texts : List String)
      → Keeps (IsGame g) (insert_hints level_id i texts)
  unfolding insert_hints
  insert_hints-Keeps level_id i [] = search statements
  insert_hints-Keeps level_id i (text ∷ texts) =
      Keeps-bind (wrap database (exec (insert_hint level_id (pos (i + 1)) text))) _
        (search statements) (λ _. insert_hints-Keeps level_id (i + 1) texts)

  perform-Keeps : (w : Write) → is_apart w ≡ true → Keeps (IsGame g) (perform w)
  unfolding perform
  perform-Keeps (create_user username hash) h = unfold Users.create_user in search statements
  perform-Keeps (ensure_admin username hash) h =
      unfold Users.ensure_admin in search statements depth 9
  perform-Keeps (set_user_role id role) h = unfold Users.set_user_role in search statements depth 8
  perform-Keeps (update_password_hash id hash) h =
      unfold Users.update_password_hash in search statements depth 8
  perform-Keeps (delete_user_sessions id) h =
      unfold Sessions.delete_user_sessions in search statements
  perform-Keeps (delete_tool id) h = unfold Tools.delete_tool in search statements depth 8
  perform-Keeps (create_session token user_id expires_at) h =
      unfold Sessions.create_session in search statements
  perform-Keeps (refresh_session token expires_at) h =
      unfold Sessions.refresh_session in search statements
  perform-Keeps (delete_session token) h = unfold Sessions.delete_session in search statements
  perform-Keeps (replace_hints level_id texts) h =
      unfold Hints.replace_hints in search (statements, insert_hints-Keeps) depth 8
  perform-Keeps (create_tool new) h = unfold Tools.create_tool in search statements
  perform-Keeps (update_tool id new) h = unfold Tools.update_tool in search statements depth 8
  perform-Keeps (set_user_progress_to_level id level) h = absurd (cc h)
  perform-Keeps (delete_user id) h = absurd (cc h)
  perform-Keeps (delete_level id) h = absurd (cc h)
  perform-Keeps (record_solved user_id level_id) h = absurd (cc h)
  perform-Keeps (create_level new) h = absurd (cc h)
  perform-Keeps (update_level id new) h = absurd (cc h)

-- Such a write leaves the levels and the solves as they were, whether it succeeds or fails.
pub perform-game :
    (w : Write) (d : Db) → is_apart w ≡ true → game (perform w d).1.tables ≡ game d.tables
perform-game w d h = (perform-Keeps (game d.tables) w h).at d refl
