-- ===== src/Store/Write/Atomic.antt =====
-- A write of internal/store that fails leaves the tables as they were.
use crypticquest_backend.Base.{
  ℕ, zero, suc, ◌≡◌, refl, true, ℤ, arith, has-count_where, update_where_none, rows_without_none,
  ◌==◌, int_key, string_key,
}
use crypticquest_backend.Schema.{Tables, UserRow}
use crypticquest_backend.Engine.{
  Db, Statement, SqlError, Result, ok, err, exec, wrap, ◌>>=◌, continue, wrap_result,
}
use crypticquest_backend.Engine.Atomic.{
  IsAtomic, IsAtomic-exec, IsAtomic-wrap, IsAtomic-transaction, IsAtomic-bind, IsReading-pure,
  IsReading-IsAtomic, IsAtomic-if, IsAtomic-then_pure, exec-eq-ok, IsReading-wrap, IsReading-query,
}
use crypticquest_backend.Store.Errors.{StoreError, affected, database}
use crypticquest_backend.Store.Users
use crypticquest_backend.Store.Sessions
use crypticquest_backend.Store.Progress
use crypticquest_backend.Store.Levels
use crypticquest_backend.Store.Hints
use crypticquest_backend.Store.Tools
use crypticquest_backend.Store.Write.{
  Write, perform, create_user, ensure_admin, set_user_role, update_password_hash,
  set_user_progress_to_level, delete_user, delete_user_sessions, delete_level, delete_tool,
  create_session, refresh_session, delete_session, record_solved, create_level, update_level,
  replace_hints, create_tool, update_tool,
}

-- A statement that meets no row changes nothing.
abbrev MeetsNone : Statement ℕ → Type 0
MeetsNone f = (t : Tables) (now : ℕ) (t' : Tables) → f t now ≡ ok (0, t') → t' ≡ t

affected_unchanged :
    (w : SqlError → StoreError) (t : Tables) (r : Result SqlError ℕ) (d : Db) (e : StoreError)
    → ((x : SqlError) → r ≡ err x → d.tables ≡ t)
    → (r ≡ ok 0 → d.tables ≡ t)
    → (continue (wrap_result w r) affected d).0 ≡ err e
    → (continue (wrap_result w r) affected d).1.tables ≡ t
affected_unchanged w t (err x) d e failed none h = failed x refl
affected_unchanged w t (ok zero) d e failed none h = none refl
affected_unchanged w t (ok (suc n)) d e failed none h = ground arith

IsAtomic-affected :
    (w : SqlError → StoreError) (f : Statement ℕ)
    → MeetsNone f
    → IsAtomic (wrap w (exec f) >>= affected)
IsAtomic-affected w f k = record {
  unchanged = λ d e h.
      affected_unchanged w d.tables (exec f d).0 (exec f d).1 e ((IsAtomic-exec f).unchanged d)
        (λ p. k d.tables d.now _ (exec-eq-ok f d 0 p)) h;
}

update_users-MeetsNone : (f : UserRow → UserRow) (id : ℤ) → MeetsNone (Users.update_users f id)
unfolding Users.update_users
update_users-MeetsNone f id t now t' h = ground (
  arith,
  has-count_where (λ u. u.id == id) t.users,
  update_where_none (λ u. u.id == id) f t.users,
)

delete_user_row-MeetsNone : (id : ℤ) → MeetsNone (Users.delete_user_row id)
unfolding Users.delete_user_row
delete_user_row-MeetsNone id t now t' h = ground (arith, has-count_where (λ u. u.id == id) t.users)

delete_level_row-MeetsNone : (id : ℤ) → MeetsNone (Levels.delete_level_row id)
unfolding Levels.delete_level_row
delete_level_row-MeetsNone id t now t' h =
    ground (arith, has-count_where (λ l. l.id == id) t.levels)

update_level_rows-MeetsNone :
    (id : ℤ) (new : Levels.AdminLevelInput) → MeetsNone (Levels.update_level_rows id new)
unfolding Levels.update_level_rows
update_level_rows-MeetsNone id new t now t' h = ground (
  arith,
  has-count_where (λ l. l.id == id) t.levels,
  update_where_none (λ l. l.id == id) (Levels.set_level new) t.levels,
)

update_tool_rows-MeetsNone :
    (id : ℤ) (new : Tools.ToolInput) → MeetsNone (Tools.update_tool_rows id new)
unfolding Tools.update_tool_rows
update_tool_rows-MeetsNone id new t now t' h = ground (
  arith,
  has-count_where (λ l. l.id == id) t.tools,
  update_where_none (λ l. l.id == id) (Tools.set_tool new) t.tools,
)

delete_tool_row-MeetsNone : (id : ℤ) → MeetsNone (Tools.delete_tool_row id)
unfolding Tools.delete_tool_row
delete_tool_row-MeetsNone id t now t' h =
    ground (
      arith,
      has-count_where (λ l. l.id == id) t.tools,
      rows_without_none (λ l. l.id == id) t.tools,
    )

perform-IsAtomic : (w : Write) → IsAtomic (perform w)
unfolding perform
perform-IsAtomic (create_user username hash) =
    unfold Users.create_user in IsAtomic-then_pure _ tt (IsAtomic-wrap _ _ (IsAtomic-exec _))
perform-IsAtomic (ensure_admin username hash) =
    unfold Users.ensure_admin in
    IsAtomic-then_pure _ tt (
      IsAtomic-bind _ _ (IsReading-wrap database _ (IsReading-query Users.count_admins)) (λ n.
        IsAtomic-if _ _ _ (IsReading-IsAtomic _ (IsReading-pure _))
          (IsAtomic-then_pure _ true (IsAtomic-wrap _ _ (IsAtomic-exec _)))))
perform-IsAtomic (set_user_role id role) =
    unfold Users.set_user_role in IsAtomic-affected database _ (update_users-MeetsNone _ id)
perform-IsAtomic (update_password_hash id hash) =
    unfold Users.update_password_hash in IsAtomic-affected database _ (update_users-MeetsNone _ id)
perform-IsAtomic (set_user_progress_to_level id level) =
    unfold Progress.set_user_progress_to_level in IsAtomic-transaction _ _
perform-IsAtomic (delete_user id) =
    unfold Users.delete_user in IsAtomic-affected database _ (delete_user_row-MeetsNone id)
perform-IsAtomic (delete_user_sessions id) =
    unfold Sessions.delete_user_sessions in IsAtomic-wrap _ _ (IsAtomic-exec _)
perform-IsAtomic (delete_level id) =
    unfold Levels.delete_level in IsAtomic-affected database _ (delete_level_row-MeetsNone id)
perform-IsAtomic (delete_tool id) =
    unfold Tools.delete_tool in IsAtomic-affected database _ (delete_tool_row-MeetsNone id)
perform-IsAtomic (create_session token user_id expires_at) =
    unfold Sessions.create_session in IsAtomic-wrap _ _ (IsAtomic-exec _)
perform-IsAtomic (refresh_session token expires_at) =
    unfold Sessions.refresh_session in IsAtomic-wrap _ _ (IsAtomic-exec _)
perform-IsAtomic (delete_session token) =
    unfold Sessions.delete_session in IsAtomic-wrap _ _ (IsAtomic-exec _)
perform-IsAtomic (record_solved user_id level_id) =
    unfold Progress.record_solved in IsAtomic-wrap _ _ (IsAtomic-exec _)
perform-IsAtomic (create_level new) =
    unfold Levels.create_level in IsAtomic-then_pure _ tt (IsAtomic-wrap _ _ (IsAtomic-exec _))
perform-IsAtomic (update_level id new) =
    unfold Levels.update_level in
    IsAtomic-affected Levels.map_level_write_err _ (update_level_rows-MeetsNone id new)
perform-IsAtomic (replace_hints level_id texts) =
    unfold Hints.replace_hints in IsAtomic-transaction _ _
perform-IsAtomic (create_tool new) =
    unfold Tools.create_tool in IsAtomic-then_pure _ tt (IsAtomic-wrap _ _ (IsAtomic-exec _))
perform-IsAtomic (update_tool id new) =
    unfold Tools.update_tool in
    IsAtomic-affected Tools.map_tool_write_err _ (update_tool_rows-MeetsNone id new)

-- A write that returns an error, of whatever kind and after whatever faults, has changed no table.
pub perform_atomic :
    (w : Write) (d : Db) (e : StoreError)
    → (perform w d).0 ≡ err e
    → (perform w d).1.tables ≡ d.tables
perform_atomic w d e h = (perform-IsAtomic w).unchanged d e h
