-- ===== src/Routes/Keeps.antt =====
-- What public routes and those of players (internal/handlers/routes.go) keep: whatever the five writes
-- that they make keep.
use crypticquest_backend.Base.{
  ℕ, String, ◌==◌, string_key, ℤ, Bool, true, false, not, ◌||◌, Option, none, some, List,
}
use crypticquest_backend.Schema.{Tables, UserRow}
use crypticquest_backend.Engine.Laws.{
  Keeps, Keeps-query, Keeps-query_row, Keeps-wrap, Keeps-if, Keeps-bind, Keeps-pure, Keeps-raise,
}
use crypticquest_backend.Store.Users.{create_user, user_by_username}
use crypticquest_backend.Store.Sessions.{create_session, delete_session}
use crypticquest_backend.Store.Progress.{current_level, is_level_accessible, record_solved}
use crypticquest_backend.Store.Levels.{list_accessible_levels, level_by_id, level_for_submit}
use crypticquest_backend.Store.Hints.{hints_for_level}
use crypticquest_backend.Store.Tools.{unlocked_tools, is_tool_file_unlocked}
use crypticquest_backend.Handlers.Steps.{Keeps-id, Keeps-decode, Keeps-given, Keeps-attempt}
use crypticquest_backend.Handlers.Player.{
  me_handler, get_level, submit_flag, submit_answer, gate, list_files,
}
use crypticquest_backend.Handlers.Player
use crypticquest_backend.Handlers.Account
use crypticquest_backend.Handlers.Account.{require}
use crypticquest_backend.Handlers.Files.{serve_level_file, serve_tool_file, serve_file}
use crypticquest_backend.Routes.{
  Outside, PublicRoute, health, logout, register, login, PlayerRoute, me, levels, tools, level,
  hints, submit, level_file, tool_file, serve_public, serve_player,
}

module _ {P : Tables → Type 0}
    (creates_user : (username hash : String) → Keeps P (create_user username hash))
    (creates_session : (token : String) (user_id : ℤ) (expiry : ℕ)
      → Keeps P (create_session token user_id expiry))
    (deletes_session : (token : String) → Keeps P (delete_session token))
    (records : (user_id id : ℤ) → Keeps P (record_solved user_id id)) where
  current_level-Keeps : (user_id : ℤ) → Keeps P (current_level user_id)
  unfolding current_level
  current_level-Keeps user_id = Keeps-bind _ _ (Keeps-wrap _ _ (Keeps-query _)) (λ n. Keeps-pure _)

  is_level_accessible-Keeps :
      (user_id order_index : ℤ) → Keeps P (is_level_accessible user_id order_index)
  unfolding is_level_accessible
  is_level_accessible-Keeps user_id order_index =
      Keeps-bind _ _ (current_level-Keeps user_id)
        (λ n. Keeps-bind _ _ (Keeps-wrap _ _ (Keeps-query _)) (λ r. Keeps-pure _))

  gate-Keeps :
      (msg : String) (user : UserRow) (order_index : ℤ) → Keeps P (gate msg user order_index)
  unfolding gate
  gate-Keeps msg user order_index =
      Keeps-bind _ _ (Keeps-wrap _ _ (is_level_accessible-Keeps user.id order_index))
        (λ b. Keeps-if _ _ _ (Keeps-raise _) (Keeps-pure _))

  require-Keeps : (b : Bool) (msg : String) → Keeps P (require b msg)
  require-Keeps true msg = Keeps-pure _
  require-Keeps false msg = Keeps-raise _

  list_files-Keeps : (names : Option (List String)) → Keeps P (list_files names)
  list_files-Keeps none = Keeps-raise _
  list_files-Keeps (some names) = Keeps-pure _

  pub public-Keeps :
      (o : Outside) (cookie : Option String) (r : PublicRoute) → Keeps P (serve_public o cookie r)
  unfolding Account.register Account.login Account.logout user_by_username
  public-Keeps o cookie health = Keeps-pure _
  public-Keeps o none logout = Keeps-pure _
  public-Keeps o (some token) logout =
      Keeps-bind _ _
        (Keeps-if _ _ _ (Keeps-pure _)
          (Keeps-bind _ _ (Keeps-attempt _ (deletes_session token)) (λ _. Keeps-pure _)))
        (λ _. Keeps-pure _)
  public-Keeps o cookie (register body) = Keeps-decode body _ (λ req.
      Keeps-bind _ _ (require-Keeps (Account.within 3 32 req.username) _) (λ _.
        Keeps-bind _ _ (require-Keeps (Account.is_username req.username) _) (λ _.
          Keeps-bind _ _ (require-Keeps (Account.within 8 72 req.password) _) (λ _.
            Keeps-given (o.hash req.password) _ _ (λ h.
              Keeps-bind _ _ (Keeps-wrap _ _ (creates_user req.username h))
                (λ id. Keeps-pure _))))))
  public-Keeps o cookie (login body) = Keeps-decode body _ (λ req.
      Keeps-bind _ _ (require-Keeps (not ((req.username == "") || (req.password == ""))) _) (λ _.
        Keeps-bind _ _ (Keeps-wrap _ _ (Keeps-wrap _ _ (Keeps-query_row _))) (λ user.
          Keeps-bind _ _ (Keeps-if _ _ _ (Keeps-pure _) (Keeps-raise _)) (λ _.
            Keeps-given o.token _ _ (λ token.
              Keeps-bind _ _ (Keeps-wrap _ _ (creates_session token _ _)) (λ _. Keeps-pure _))))))

  pub player-Keeps :
      (o : Outside) (r : PlayerRoute) (user : UserRow) → Keeps P (serve_player o r user)
  unfolding me_handler Player.list_levels Player.list_tools get_level Player.get_hints submit_flag
      submit_answer list_accessible_levels level_by_id level_for_submit hints_for_level
      unlocked_tools serve_level_file serve_tool_file serve_file is_tool_file_unlocked
  player-Keeps o me user =
      Keeps-bind _ _ (Keeps-wrap _ _ (current_level-Keeps _)) (λ n. Keeps-pure _)
  player-Keeps o levels user =
      Keeps-bind _ _
        (Keeps-wrap _ _
          (Keeps-bind _ _ (current_level-Keeps _) (λ n. Keeps-wrap _ _ (Keeps-query _))))
        (λ ls. Keeps-pure _)
  player-Keeps o tools user =
      Keeps-bind _ _ (Keeps-wrap _ _ (Keeps-wrap _ _ (Keeps-query _))) (λ ts. Keeps-pure _)
  player-Keeps o (level path) user = Keeps-id _ _ _ (λ id.
      Keeps-bind _ _ (Keeps-wrap _ _ (Keeps-wrap _ _ (Keeps-query_row _))) (λ detail.
        Keeps-bind _ _ (gate-Keeps _ user _)
          (λ _. Keeps-bind _ _ (list_files-Keeps _) (λ names. Keeps-pure _))))
  player-Keeps o (hints path) user = Keeps-id _ _ _ (λ id.
      Keeps-bind _ _ (Keeps-wrap _ _ (Keeps-wrap _ _ (Keeps-query_row _))) (λ detail.
        Keeps-bind _ _ (gate-Keeps _ user _) (λ _.
          Keeps-bind _ _ (Keeps-wrap _ _ (Keeps-wrap _ _ (Keeps-query _))) (λ hs. Keeps-pure _))))
  player-Keeps o (submit path body) user = Keeps-id _ _ _ (λ id. Keeps-decode body _ (λ answer.
      Keeps-bind _ _ (Keeps-wrap _ _ (Keeps-wrap _ _ (Keeps-query_row _))) (λ columns.
        Keeps-bind _ _ (gate-Keeps _ user _) (λ _.
          Keeps-bind _ _ (Keeps-if _ _ _ (Keeps-wrap _ _ (records user.id id)) (Keeps-pure _))
            (λ _. Keeps-pure _)))))
  player-Keeps o (level_file id path) user = Keeps-id _ _ _ (λ i.
      Keeps-bind _ _ (Keeps-wrap _ _ (Keeps-wrap _ _ (Keeps-query_row _)))
        (λ detail. Keeps-bind _ _ (gate-Keeps _ user _) (λ _. Keeps-pure _)))
  player-Keeps o (tool_file path) user =
      Keeps-bind _ _ (Keeps-wrap _ _ (Keeps-wrap _ _ (Keeps-query _))) (λ unlocked.
        Keeps-bind _ _ (Keeps-if _ _ _ (Keeps-raise _) (Keeps-pure _)) (λ _. Keeps-pure _))
