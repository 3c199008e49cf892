-- ===== src/Store/Write/Open.antt =====
-- What becomes of an open session while other writes of internal/store run.
use crypticquest_backend.Base.{
  ℕ, ◌≡◌, refl, ap, Bool, true, false, not, ◌||◌, ◌==◌, string_key, int_key, String, ℤ, List, leb,
  arith,
}
use crypticquest_backend.Schema.{UserRow}
use crypticquest_backend.Engine.{Db}
use crypticquest_backend.Engine.Laws.{Keeps, Keeps-exec, Keeps-bind, Keeps-wrap, keeps_rules}
use crypticquest_backend.Store.Errors.{affected, database}
use crypticquest_backend.Store.Users
use crypticquest_backend.Store.Users.{insert_user, update_users, delete_user_row}
use crypticquest_backend.Store.Sessions
use crypticquest_backend.Store.Sessions.{
  Session, second, format_time, scan_time, find_session, insert_session, delete_session_rows,
  delete_user_session_rows, update_session_rows,
}
use crypticquest_backend.Store.Write.{Write, perform}
use crypticquest_backend.Store.Write.Content.{is_content, perform-accounts}
use crypticquest_backend.Store.Sessions.Open.{
  IsOpen, IsOpen-same_rows, insert_user-IsOpen, update_users-IsOpen, delete_user_row-IsOpen,
  delete_user_session_rows-IsOpen, insert_session-IsOpen, delete_session_rows-IsOpen,
  update_session_rows-IsOpen,
}

-- The writes that neither end or shorten the session nor change its account: of those on the sessions and the
-- accounts, the ones on others, and an extension of the session itself.
abbrev pub spares : String → ℤ → ℕ → Write → Bool
spares token user_id least (Write.delete_session other) = not (other == token)
spares token user_id least (Write.refresh_session other expiry) =
    not (other == token) || leb least expiry
spares token user_id least (Write.delete_user_sessions id) = not (id == user_id)
spares token user_id least (Write.delete_user id) = not (id == user_id)
spares token user_id least (Write.set_user_role id role) = not (id == user_id)
spares token user_id least (Write.update_password_hash id hash) = not (id == user_id)
spares token user_id least _ = true

-- The clock moves on, statements may be hit by faults, and handlers make such writes, in any order.
pub data Meanwhile (spared : Write → Bool) (d : Db) : Db → Type 0 where
  here : Meanwhile spared d d
  wait :
      {d' : Db} (now : ℕ) (faults : List Bool)
      → Meanwhile spared d d'
      → Meanwhile spared d (record d' { now = now; faults = faults })
  write :
      {d' : Db} (w : Write)
      → Meanwhile spared d d'
      → spared w ≡ true
      → Meanwhile spared d (perform w d').1

false_of_not : (b : Bool) → not b ≡ true → b ≡ false
false_of_not b h = ground arith

ruleset statements = (keeps_rules, Keeps-exec, insert_user-IsOpen, insert_session-IsOpen)

module _ (token : String) (u : UserRow) (least : ℕ) where
  content-Keeps : (w : Write) → is_content w ≡ true → Keeps (IsOpen token u least) (perform w)
  content-Keeps w h = record {
    at = λ d o.
        let e = perform-accounts w d h in
        IsOpen-same_rows token u least d.tables _ (ap (λ a. a.0) e) (ap (λ a. a.1) e) o;
  }

  perform-Keeps :
      (w : Write) → spares token u.id least w ≡ true → Keeps (IsOpen token u least) (perform w)
  unfolding perform
  perform-Keeps (Write.create_user username hash) h = unfold Users.create_user in search statements
  perform-Keeps (Write.ensure_admin username hash) h =
      unfold Users.ensure_admin in search statements depth 9
  perform-Keeps (Write.create_session other id expiry) h =
      unfold Sessions.create_session in search statements
  perform-Keeps (Write.set_user_role id role) h =
      unfold Users.set_user_role in
      Keeps-bind _ affected
        (Keeps-wrap database _
          (Keeps-exec _ (update_users-IsOpen token u least _ id (λ x. refl) (false_of_not _ h))))
        (λ n. search keeps_rules)
  perform-Keeps (Write.update_password_hash id hash) h =
      unfold Users.update_password_hash in
      Keeps-bind _ affected
        (Keeps-wrap database _
          (Keeps-exec _ (update_users-IsOpen token u least _ id (λ x. refl) (false_of_not _ h))))
        (λ n. search keeps_rules)
  perform-Keeps (Write.delete_user id) h =
      unfold Users.delete_user in
      Keeps-bind _ affected
        (Keeps-wrap database _
          (Keeps-exec _ (delete_user_row-IsOpen token u least id (false_of_not _ h))))
        (λ n. search keeps_rules)
  perform-Keeps (Write.delete_user_sessions id) h =
      unfold Sessions.delete_user_sessions in
      Keeps-wrap database _
        (Keeps-exec _ (delete_user_session_rows-IsOpen token u least id (false_of_not _ h)))
  perform-Keeps (Write.delete_session other) h =
      unfold Sessions.delete_session in
      Keeps-wrap database _
        (Keeps-exec _ (delete_session_rows-IsOpen token u least other (false_of_not _ h)))
  perform-Keeps (Write.refresh_session other expiry) h =
      unfold Sessions.refresh_session in
      Keeps-wrap database _ (Keeps-exec _ (update_session_rows-IsOpen token u least other expiry h))
  perform-Keeps (Write.set_user_progress_to_level id level) h =
      content-Keeps (Write.set_user_progress_to_level id level) refl
  perform-Keeps (Write.delete_level id) h = content-Keeps (Write.delete_level id) refl
  perform-Keeps (Write.delete_tool id) h = content-Keeps (Write.delete_tool id) refl
  perform-Keeps (Write.record_solved user_id level_id) h =
      content-Keeps (Write.record_solved user_id level_id) refl
  perform-Keeps (Write.create_level new) h = content-Keeps (Write.create_level new) refl
  perform-Keeps (Write.update_level id new) h = content-Keeps (Write.update_level id new) refl
  perform-Keeps (Write.replace_hints level_id texts) h =
      content-Keeps (Write.replace_hints level_id texts) refl
  perform-Keeps (Write.create_tool new) h = content-Keeps (Write.create_tool new) refl
  perform-Keeps (Write.update_tool id new) h = content-Keeps (Write.update_tool id new) refl

  -- The session stays open through all of them.
  pub Meanwhile-IsOpen :
      {d d' : Db}
      → Meanwhile (spares token u.id least) d d'
      → IsOpen token u least d.tables
      → IsOpen token u least d'.tables
  Meanwhile-IsOpen here o = o
  Meanwhile-IsOpen (wait now faults r) o = Meanwhile-IsOpen r o
  Meanwhile-IsOpen (write {d'} w r h) o = (perform-Keeps w h).at d' (Meanwhile-IsOpen r o)
