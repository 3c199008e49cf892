-- ===== src/Server/Bootstrap.antt =====
-- The first admin (cmd/server/main.go, EnsureAdmin of internal/store/users.go).
use crypticquest_backend.Base.{
  suc, ◌≡◌, refl, String, ◌==◌, string_key, pos, Bool, ◌||◌, Option, none, some, Option-cases, inl,
  inr, ◌+◌, length, List, [], ◌∷◌, ◌++◌, ltb, has, count_where, if◌then◌else◌, arith,
}
use mathlib.Core.List.{append-nil}
use crypticquest_backend.Schema.{Tables, UserRow}
use crypticquest_backend.Engine.{Db, exec}
use crypticquest_backend.Store.Users.{ensure_admin, insert_user, count_admins, role_admin}
use crypticquest_backend.Server.{bootstrap_admin}

abbrev pub has_admin : Tables → Bool
has_admin t = has (λ u. u.role == role_admin) t.users

counted_admin :
    (users : List UserRow)
    → ltb 0 (count_where (λ u. u.role == role_admin) users) ≡ has (λ u. u.role == role_admin) users
counted_admin [] = refl
counted_admin (u ∷ us) = ground (arith, counted_admin us)

-- The accounts that a start adds: none without both variables or a hash, none if there is an admin,
-- whoever has the configured name, and none if the name is taken.
abbrev pub first_admin : String → String → Option String → Db → List UserRow
first_admin username password none d = []
first_admin username password (some h) d =
    if (username == "")
      || (password == "")
      || has_admin d.tables
      || has (λ u. u.username == username) d.tables.users
    then []
    else record {
      id = pos (suc d.tables.user_seq);
      username = username;
      password_hash = h;
      role = role_admin;
      created_at = d.now;
    }
      ∷ []

-- With no fault to come, the start of the server leaves every account as it was, and adds one, an
-- admin with the configured name and the password's hash, exactly if both variables are set, the
-- password can be hashed, there is no admin yet and nobody has the name. In particular a restart
-- with an admin there changes no account, also if the configured name is that of an account. No
-- other table changes.
pub bootstrap_admin_exact :
    (username password : String) (hash : String → Option String) (d : Db)
    → d.faults ≡ []
    → let added = first_admin username password (hash password) d in
      (bootstrap_admin username password hash d).1.tables ≡ record d.tables {
        users = d.tables.users ++ added;
        user_seq = d.tables.user_seq + length added;
      }
unfolding bootstrap_admin ensure_admin insert_user count_admins exec
bootstrap_admin_exact username password hash d quiet =
    let nobody = append-nil d.tables.users in
    elim (Option-cases (hash password)) [
      | inl failed ↦ rw failed (ground (arith, nobody))
      | inr (h, hashed) ↦ rw hashed (ground (arith, nobody, counted_admin d.tables.users))
    ]
