-- ===== src/Store/Write/Integrity.antt =====
-- Every write of internal/store keeps the schema's constraints, along any sequence of writes.
use crypticquest_backend.Base.{ℕ, suc, ◌+◌, refl, Bool, String, ℤ, pos, List, [], ◌∷◌}
use crypticquest_backend.Schema.{fresh}
use crypticquest_backend.Engine.{Db, exec, wrap}
use crypticquest_backend.Engine.Laws.{Keeps, Keeps-exec, Keeps-bind, Keeps-wrap, keeps_rules}
use crypticquest_backend.Store.Errors.{affected, database}
use crypticquest_backend.Store.Users
use crypticquest_backend.Store.Sessions
use crypticquest_backend.Store.Progress
use crypticquest_backend.Store.Progress.{mark_solved}
use crypticquest_backend.Store.Levels
use crypticquest_backend.Store.Hints
use crypticquest_backend.Store.Hints.{insert_hint, insert_hints}
use crypticquest_backend.Store.Tools
use crypticquest_backend.Store.Integrity.{IsConsistent}
use crypticquest_backend.Store.Integrity.Users.{
  insert_user-IsConsistent, update_users-IsConsistent, delete_user_row-IsConsistent,
}
use crypticquest_backend.Store.Integrity.Sessions.{
  insert_session-IsConsistent, delete_session_rows-IsConsistent,
  delete_user_session_rows-IsConsistent, update_session_rows-IsConsistent,
}
use crypticquest_backend.Store.Integrity.Progress.{
  insert_or_ignore_progress-IsConsistent, clear_progress-IsConsistent,
  insert_first_levels-IsConsistent,
}
use crypticquest_backend.Store.Integrity.Levels.{
  insert_level-IsConsistent, update_level_rows-IsConsistent, delete_level_row-IsConsistent,
}
use crypticquest_backend.Store.Integrity.Tools.{
  clear_hints-IsConsistent, insert_hint-IsConsistent, insert_tool-IsConsistent,
  update_tool_rows-IsConsistent, delete_tool_row-IsConsistent,
}
use crypticquest_backend.Store.Write.{
  Write, perform, create_user, ensure_admin, set_user_role, update_password_hash,
  set_user_progress_to_level, delete_user, delete_user_sessions, delete_level, delete_tool,
  create_session, refresh_session, delete_session, record_solved, create_level, update_level,
  replace_hints, create_tool, update_tool,
}

ruleset statements = (
  keeps_rules, Keeps-exec, insert_user-IsConsistent, delete_user_row-IsConsistent,
  insert_session-IsConsistent, delete_session_rows-IsConsistent,
  delete_user_session_rows-IsConsistent, update_session_rows-IsConsistent,
  insert_or_ignore_progress-IsConsistent, clear_progress-IsConsistent,
  insert_first_levels-IsConsistent, insert_level-IsConsistent, update_level_rows-IsConsistent,
  delete_level_row-IsConsistent, clear_hints-IsConsistent, insert_hint-IsConsistent,
  insert_tool-IsConsistent, update_tool_rows-IsConsistent, delete_tool_row-IsConsistent,
)

insert_hints-Keeps :
    (level_id : ℤ) (i : ℕ) (texts : List String)
    → Keeps IsConsistent (insert_hints level_id i texts)
unfolding insert_hints
insert_hints-Keeps level_id i [] = search statements
insert_hints-Keeps level_id i (text ∷ texts) =
    Keeps-bind (wrap database (exec (insert_hint level_id (pos (i + 1)) text))) _
      (search statements) (λ _. insert_hints-Keeps level_id (i + 1) texts)

mark_solved-Keeps : (id level : ℤ) → Keeps IsConsistent (mark_solved id level)
unfolding mark_solved
mark_solved-Keeps id (pos (suc n)) = search statements
mark_solved-Keeps id _ = search statements

pub perform-Keeps : (w : Write) → Keeps IsConsistent (perform w)
unfolding perform
perform-Keeps (create_user username hash) = unfold Users.create_user in search statements
perform-Keeps (ensure_admin username hash) = unfold Users.ensure_admin in search statements depth 9
perform-Keeps (set_user_role id role) =
    unfold Users.set_user_role in
    Keeps-bind _ affected
      (Keeps-wrap database _
        (Keeps-exec _ (update_users-IsConsistent _ id (λ u. refl) (λ u. refl))))
      (λ n. search statements)
perform-Keeps (update_password_hash id hash) =
    unfold Users.update_password_hash in
    Keeps-bind _ affected
      (Keeps-wrap database _
        (Keeps-exec _ (update_users-IsConsistent _ id (λ u. refl) (λ u. refl))))
      (λ n. search statements)
perform-Keeps (set_user_progress_to_level id level) =
    unfold Progress.set_user_progress_to_level in search (statements, mark_solved-Keeps) depth 8
perform-Keeps (delete_user id) = unfold Users.delete_user in search statements depth 8
perform-Keeps (delete_user_sessions id) = unfold Sessions.delete_user_sessions in search statements
perform-Keeps (delete_level id) = unfold Levels.delete_level in search statements depth 8
perform-Keeps (delete_tool id) = unfold Tools.delete_tool in search statements depth 8
perform-Keeps (create_session token user_id expires_at) =
    unfold Sessions.create_session in search statements
perform-Keeps (refresh_session token expires_at) =
    unfold Sessions.refresh_session in search statements
perform-Keeps (delete_session token) = unfold Sessions.delete_session in search statements
perform-Keeps (record_solved user_id level_id) = unfold Progress.record_solved in search statements
perform-Keeps (create_level new) = unfold Levels.create_level in search statements
perform-Keeps (update_level id new) = unfold Levels.update_level in search statements depth 8
perform-Keeps (replace_hints level_id texts) =
    unfold Hints.replace_hints in search (statements, insert_hints-Keeps) depth 8
perform-Keeps (create_tool new) = unfold Tools.create_tool in search statements
perform-Keeps (update_tool id new) = unfold Tools.update_tool in search statements depth 8

-- Whatever a write is, whether it succeeds, fails or is hit by a fault, the tables keep every
-- constraint of the schema.
pub perform-IsConsistent :
    (w : Write) (d : Db) → IsConsistent d.tables → IsConsistent (perform w d).1.tables
perform-IsConsistent w d c = (perform-Keeps w).at d c

-- A run of the program, as far as the database sees it: the clock moves on, statements may be hit
-- by faults, and handlers make writes, in any order.
pub data Reach (d : Db) : Db → Type 0 where
  here : Reach d d
  wait :
      {d' : Db} (now : ℕ) (faults : List Bool)
      → Reach d d'
      → Reach d (record d' { now = now; faults = faults })
  write : {d' : Db} (w : Write) → Reach d d' → Reach d (perform w d').1

Reach-keeps : {d d' : Db} → Reach d d' → IsConsistent d.tables → IsConsistent d'.tables
Reach-keeps here c = c
Reach-keeps (wait now faults r) c = Reach-keeps r c
Reach-keeps (write {d'} w r) c = perform-IsConsistent w d' (Reach-keeps r c)

fresh-IsConsistent : IsConsistent fresh
fresh-IsConsistent = record {
  users = (tt, tt, tt);
  levels = (tt, tt, tt);
  tools = (tt, tt);
  hints = (tt, tt);
  progress = (tt, tt, tt);
  tokens = tt;
  session_users = tt;
  progress_users = tt;
  progress_levels = tt;
  hint_levels = tt;
  tool_levels = tt;
}

-- From the tables that the migrations create, the constraints of the schema hold in every database
-- that writes of the store reach, in any order and with any faults.
pub Reach-IsConsistent :
    (now : ℕ) (faults : List Bool) (d : Db)
    → Reach (record { tables = fresh; now = now; faults = faults }) d
    → IsConsistent d.tables
Reach-IsConsistent now faults d r = Reach-keeps r fresh-IsConsistent
