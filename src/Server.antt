-- ===== src/Server.antt =====
-- cmd/server/main.go: bootstrapAdmin, which runs before the server listens.
pub mod Bootstrap
use crypticquest_backend.Base.{
  String, Bool, ◌||◌, ◌==◌, string_key, Option, none, some, if◌then◌else◌,
}
use crypticquest_backend.Engine.{M, pure, ◌>>=◌, ◌>>◌}
use crypticquest_backend.Store.Errors.{StoreError}
use crypticquest_backend.Store.Users.{ensure_admin}
use crypticquest_backend.Http.{attempt}

-- The result is only logged. A hash is none where auth.HashPassword fails.
ensure : String → Option String → M StoreError (Unit {0})
ensure username none = pure tt
ensure username (some hash) = do attempt (ensure_admin username hash); pure tt

unfoldable pub bootstrap_admin :
    String → String → (String → Option String) → M StoreError (Unit {0})
unfolding ensure
bootstrap_admin username password hash =
    if (username == "") || (password == "") then pure tt else ensure username (hash password)
