-- ===== src/Handlers/Admin/Users/Keeps.antt =====
-- What the statements behind internal/handlers/admin_users.go do to the row of an admin.
use crypticquest_backend.Base.{
  ℕ, zero, suc, ◌≡◌, refl, String, ◌==◌, string_key, int_key, int_eq_iff, ℤ, pos, negsuc, Bool,
  true, false, ◌&&◌, List, [], ◌∷◌, has, rows_without, update_where, arith, inl, inr, ◌⊎◌,
}
use crypticquest_backend.Schema.{Tables, UserRow, LevelRow}
use crypticquest_backend.Engine.{SqlError, Result, ok, err, exec}
use crypticquest_backend.Engine.Laws.{
  Keeps, Leaves, Keeps-exec, Keeps-wrap, Keeps-bind, Keeps-query_row, Keeps-transaction, Keeps-pure,
  keeps_rules,
}
use crypticquest_backend.Store.Errors.{database, affected}
use crypticquest_backend.Store.Users.{
  role_admin, update_users, set_user_role, update_password_hash, delete_user, delete_user_row,
}
use crypticquest_backend.Store.Sessions.{delete_user_session_rows}
use crypticquest_backend.Store.Progress.{
  set_user_progress_to_level, mark_solved, insert_progress, insert_first_levels,
  insert_progress_select, next_row, clear_progress,
}

-- The user is there, as an admin.
abbrev pub is_admin_row : ℤ → UserRow → Bool
is_admin_row i u = (u.id == i) && (u.role == role_admin)

abbrev pub IsAdmin : ℤ → Tables → Type 0
IsAdmin i t = has (is_admin_row i) t.users ≡ true

other_id : (i id j : ℤ) → (id == i) ≡ false → (j == id) ≡ true → (j == i) ≡ false
other_id i id j n h = rw ((int_eq_iff j id).0 h) n

-- UPDATE users of another row, or of a column that leaves an admin an admin.
has-update_users :
    (i id : ℤ) (f : UserRow → UserRow) (users : List UserRow)
    → ((u : UserRow) → (f u).id ≡ u.id)
    → ((id == i) ≡ false)
      ⊎ ((u : UserRow) → (u.role == role_admin) ≡ true → ((f u).role == role_admin) ≡ true)
    → has (is_admin_row i) users ≡ true
    → has (is_admin_row i) (update_where (λ u. u.id == id) f users) ≡ true
has-update_users i id f [] k o h = h
has-update_users i id f (u ∷ us) k (inl n) h =
    ground (arith, k u, other_id i id u.id n, has-update_users i id f us k (inl n))
has-update_users i id f (u ∷ us) k (inr g) h =
    ground (arith, k u, g u, has-update_users i id f us k (inr g))

has-delete_user :
    (i id : ℤ) (users : List UserRow)
    → (id == i) ≡ false
    → has (is_admin_row i) users ≡ true
    → has (is_admin_row i) (rows_without (λ u. u.id == id) users) ≡ true
has-delete_user i id [] n h = h
has-delete_user i id (u ∷ us) n h = ground (arith, other_id i id u.id n, has-delete_user i id us n)

module _ (i : ℤ) where
  update_users-Keeps :
      (id : ℤ) (f : UserRow → UserRow)
      → ((u : UserRow) → (f u).id ≡ u.id)
      → ((id == i) ≡ false)
        ⊎ ((u : UserRow) → (u.role == role_admin) ≡ true → ((f u).role == role_admin) ≡ true)
      → Keeps (IsAdmin i) (exec (update_users f id))
  unfolding update_users
  update_users-Keeps id f k o = Keeps-exec _ (λ t now h. has-update_users i id f t.users k o h)

  delete_user_row-Keeps :
      (id : ℤ) → (id == i) ≡ false → Keeps (IsAdmin i) (exec (delete_user_row id))
  unfolding delete_user_row
  delete_user_row-Keeps id n =
      Keeps-exec _ (λ t now h. ground (arith, has-delete_user i id t.users n))

  pub delete_user_session_rows-Keeps :
      (id : ℤ) → Keeps (IsAdmin i) (exec (delete_user_session_rows id))
  unfolding delete_user_session_rows
  delete_user_session_rows-Keeps id = Keeps-exec _ (λ t now h. h)

  clear_progress-Keeps : (id : ℤ) → Keeps (IsAdmin i) (exec (clear_progress id))
  unfolding clear_progress
  clear_progress-Keeps id = Keeps-exec _ (λ t now h. h)

  insert_progress-Leaves :
      (user_id level_id : ℤ) (t : Tables) (now : ℕ)
      → IsAdmin i t
      → Leaves (IsAdmin i) (insert_progress user_id level_id t now)
  unfolding insert_progress
  insert_progress-Leaves user_id level_id t now h = ground arith

  Leaves-rest :
      (user_id : ℤ) (ls : List LevelRow) (now : ℕ) (r : Result SqlError (Unit {0} × Tables))
      → ((t : Tables) → IsAdmin i t → Leaves (IsAdmin i) (insert_progress_select user_id ls t now))
      → Leaves (IsAdmin i) r
      → Leaves (IsAdmin i) (next_row r (λ t'. insert_progress_select user_id ls t' now))
  Leaves-rest user_id ls now (ok (u, t)) k h = k t h
  Leaves-rest user_id ls now (err e) k h = tt

  select-Leaves :
      (user_id : ℤ) (ls : List LevelRow) (t : Tables) (now : ℕ)
      → IsAdmin i t
      → Leaves (IsAdmin i) (insert_progress_select user_id ls t now)
  unfolding insert_progress_select
  select-Leaves user_id [] t now h = h
  select-Leaves user_id (l ∷ ls) t now h =
      Leaves-rest user_id ls now (insert_progress user_id l.id t now)
        (λ t' h'. select-Leaves user_id ls t' now h') (insert_progress-Leaves user_id l.id t now h)

  mark_solved-Keeps : (id level : ℤ) → Keeps (IsAdmin i) (mark_solved id level)
  unfolding mark_solved insert_first_levels
  mark_solved-Keeps id (pos (suc n)) =
      Keeps-wrap database _ (Keeps-exec _ (λ t now h. select-Leaves id _ t now h))
  mark_solved-Keeps id (pos zero) = Keeps-pure _
  mark_solved-Keeps id (negsuc n) = Keeps-pure _

  affected-Keeps : (n : ℕ) → Keeps (IsAdmin i) (affected n)
  affected-Keeps n = search keeps_rules

  pub set_user_role-Keeps :
      (id : ℤ) (role : String)
      → ((id == i) ≡ false) ⊎ ((role == role_admin) ≡ true)
      → Keeps (IsAdmin i) (set_user_role id role)
  unfolding set_user_role
  set_user_role-Keeps id role (inl n) =
      Keeps-bind _ _ (Keeps-wrap database _ (update_users-Keeps id _ (λ u. refl) (inl n)))
        affected-Keeps
  set_user_role-Keeps id role (inr a) =
      Keeps-bind _ _ (Keeps-wrap database _ (update_users-Keeps id _ (λ u. refl) (inr (λ u h. a))))
        affected-Keeps

  pub update_password_hash-Keeps :
      (id : ℤ) (hash : String) → Keeps (IsAdmin i) (update_password_hash id hash)
  unfolding update_password_hash
  update_password_hash-Keeps id hash =
      Keeps-bind _ _ (Keeps-wrap database _ (update_users-Keeps id _ (λ u. refl) (inr (λ u h. h))))
        affected-Keeps

  pub delete_user-Keeps : (id : ℤ) → (id == i) ≡ false → Keeps (IsAdmin i) (delete_user id)
  unfolding delete_user
  delete_user-Keeps id n =
      Keeps-bind _ _ (Keeps-wrap database _ (delete_user_row-Keeps id n)) affected-Keeps

  pub set_progress-Keeps : (id level : ℤ) → Keeps (IsAdmin i) (set_user_progress_to_level id level)
  unfolding set_user_progress_to_level
  set_progress-Keeps id level = Keeps-transaction _ _ (
      Keeps-bind _ _ (Keeps-wrap _ _ (Keeps-query_row _)) (λ _.
        Keeps-bind _ _ (Keeps-wrap _ _ (clear_progress-Keeps id)) (λ _. mark_solved-Keeps id _)))
