-- ===== src/Store/Write/Played.antt =====
-- Play under any write of internal/store: which ones keep it linear, and under which conditions.
use crypticquest_backend.Base.{
  ℕ, ◌≡◌, refl, sym, subst, true, false, ◌==◌, int_key, some, All, int_leb, arith,
}
use crypticquest_backend.Schema.{Tables, LevelRow}
use crypticquest_backend.Engine.{SqlError, Db, M, Statement, exec, wrap, ◌>>=◌, pure}
use crypticquest_backend.Engine.Laws.{Leaves, Keeps, keeps_continue, keeps_rules}
use crypticquest_backend.Store.Errors.{StoreError, affected, database}
use crypticquest_backend.Store.Users
use crypticquest_backend.Store.Progress
use crypticquest_backend.Store.Levels
use crypticquest_backend.Store.Levels.{find_level}
use crypticquest_backend.Store.Integrity.{IsConsistent}
use crypticquest_backend.Store.Access.{accessible}
use crypticquest_backend.Store.Access.Count.{solved_in}
use crypticquest_backend.Store.Progress.{has_progress}
use crypticquest_backend.Store.Access.Linear.{AreLinear}
use crypticquest_backend.Store.Access.Edit.{
  IsPlayed, is_solved, delete_level_row-IsPlayed, insert_or_ignore_progress-IsPlayed,
  delete_user_row-IsPlayed, update_level_rows-IsPlayed, insert_level-IsPlayed,
}
use crypticquest_backend.Store.Write.Apart.{is_apart, game, perform-game}
use crypticquest_backend.Store.Write.{
  Write, perform, create_user, ensure_admin, set_user_role, update_password_hash,
  set_user_progress_to_level, delete_user, delete_user_sessions, delete_level, delete_tool,
  create_session, refresh_session, delete_session, record_solved, create_level, update_level,
  replace_hints, create_tool, update_tool,
}

-- A solve is of an accessible level, a new level stands before no solved one, and an updated one keeps
-- its place. SetUserProgressToLevel is left out here.
abbrev pub IsSafe : Write → Tables → Type 0
IsSafe (record_solved user_id id) t =
    (l : LevelRow) × (find_level id t ≡ some l) × (accessible user_id l.order_index t ≡ true)
IsSafe (create_level new) t =
    All (λ l. int_leb new.order_index l.order_index ≡ true → is_solved t l ≡ false) t.levels
IsSafe (update_level id new) t =
    All (λ l. (l.id == id) ≡ true → l.order_index ≡ new.order_index) t.levels
IsSafe (set_user_progress_to_level id level) t = ⊥
IsSafe _ t = Unit

pub IsPlayed-same_game : (t t' : Tables) → game t' ≡ game t → IsPlayed t → IsPlayed t'
unfolding has_progress
IsPlayed-same_game t t' e h v = subst (λ g. AreLinear (λ l. solved_in v g.1 l.id) g.0) (sym e) (h v)

apart-IsPlayed :
    (w : Write) (d : Db) → is_apart w ≡ true → IsPlayed d.tables → IsPlayed (perform w d).1.tables
apart-IsPlayed w d a h = IsPlayed-same_game _ _ (perform-game w d a) h

module _ {A : Type 0} (P : Tables → Type 0) where
  after_exec :
      (f : Statement A) (d : Db) → P d.tables → Leaves P (f d.tables d.now) → P (exec f d).1.tables
  unfolding exec
  after_exec f d h k = ground (arith, k)

  after_bind :
      {E B : Type 0} (m : M E A) (f : A → M E B) (d : Db)
      → P (m d).1.tables
      → ((a : A) → Keeps P (f a))
      → P ((m >>= f) d).1.tables
  after_bind m f d h k = let (r, d') = m d in keeps_continue r f d' k h

pub affected_write :
    (P : Tables → Type 0) (w : SqlError → StoreError) (f : Statement ℕ) (d : Db)
    → P d.tables
    → Leaves P (f d.tables d.now)
    → P ((wrap w (exec f) >>= affected) d).1.tables
affected_write P w f d h k =
    after_bind P (wrap w (exec f)) affected d (after_exec P f d h k) (λ n. search keeps_rules)

-- Whatever a write is, SetUserProgressToLevel aside, and whether it succeeds, fails or is hit by a fault:
-- on consistent tables play stays linear for every user, if a recorded solve is of an accessible level,
-- a new level has no solved one behind it, and an updated level keeps its place.
pub perform-IsPlayed :
    (w : Write) (d : Db)
    → IsConsistent d.tables
    → IsPlayed d.tables
    → IsSafe w d.tables
    → IsPlayed (perform w d).1.tables
unfolding perform
perform-IsPlayed (record_solved user_id id) d c h (l, found, open_gate) =
    unfold Progress.record_solved in
    after_exec IsPlayed _ d h
      (insert_or_ignore_progress-IsPlayed user_id id d.tables l d.now c found open_gate h)
perform-IsPlayed (create_level new) d c h free =
    unfold Levels.create_level in
    after_bind IsPlayed (Levels.create_level new) (λ _. pure tt) d
      (after_exec IsPlayed (Levels.insert_level new) d h
        (insert_level-IsPlayed new d.tables d.now c free h))
      (λ _. search keeps_rules)
perform-IsPlayed (update_level id new) d c h stays =
    unfold Levels.update_level in
    affected_write IsPlayed Levels.map_level_write_err (Levels.update_level_rows id new) d h
      (update_level_rows-IsPlayed id new d.tables d.now stays h)
perform-IsPlayed (delete_level id) d c h _ =
    unfold Levels.delete_level in
    affected_write IsPlayed database (Levels.delete_level_row id) d h
      (delete_level_row-IsPlayed id d.tables d.now h)
perform-IsPlayed (delete_user id) d c h _ =
    unfold Users.delete_user in
    affected_write IsPlayed database (Users.delete_user_row id) d h
      (delete_user_row-IsPlayed id d.tables d.now h)
perform-IsPlayed (set_user_progress_to_level id level) d c h s = absurd s
perform-IsPlayed (create_user username hash) d c h _ =
    apart-IsPlayed (create_user username hash) d refl h
perform-IsPlayed (ensure_admin username hash) d c h _ =
    apart-IsPlayed (ensure_admin username hash) d refl h
perform-IsPlayed (set_user_role id role) d c h _ = apart-IsPlayed (set_user_role id role) d refl h
perform-IsPlayed (update_password_hash id hash) d c h _ =
    apart-IsPlayed (update_password_hash id hash) d refl h
perform-IsPlayed (delete_user_sessions id) d c h _ =
    apart-IsPlayed (delete_user_sessions id) d refl h
perform-IsPlayed (delete_tool id) d c h _ = apart-IsPlayed (delete_tool id) d refl h
perform-IsPlayed (create_session token id expiry) d c h _ =
    apart-IsPlayed (create_session token id expiry) d refl h
perform-IsPlayed (refresh_session token expiry) d c h _ =
    apart-IsPlayed (refresh_session token expiry) d refl h
perform-IsPlayed (delete_session token) d c h _ = apart-IsPlayed (delete_session token) d refl h
perform-IsPlayed (replace_hints id texts) d c h _ = apart-IsPlayed (replace_hints id texts) d refl h
perform-IsPlayed (create_tool new) d c h _ = apart-IsPlayed (create_tool new) d refl h
perform-IsPlayed (update_tool id new) d c h _ = apart-IsPlayed (update_tool id new) d refl h
