-- ===== src/Store/Integrity.antt =====
-- The constraints of migrations/*.up.sql as an invariant of the tables: primary keys and UNIQUE
-- columns are distinct, AUTOINCREMENT keys lie below their counters, and foreign keys refer to rows.
pub mod Users
pub mod Sessions
pub mod Levels
pub mod Tools
pub mod Progress
use crypticquest_backend.Base.{
  ℕ, ◌≡◌, true, ◌==◌, Key, string_key, int_key, int_eq_iff, ℤ, Option, none, some, List, has, All,
  Distinct, IsGiven, Bool, ◌&&◌, ◌↔◌, arith,
}
use crypticquest_backend.Schema.{
  Tables, UserRow, SessionRow, ToolRow, LevelRow, HintRow, ProgressRow,
}

abbrev pub pair_beq : ℤ × ℤ → ℤ × ℤ → Bool
pair_beq (a, b) (c, d) = (a == c) && (b == d)

pub pair_beq_iff : (p q : ℤ × ℤ) → (pair_beq p q ≡ true) ↔ (p ≡ q)
pair_beq_iff (a, b) (c, d) = ground (arith, int_eq_iff a c, int_eq_iff b d)

instance abbrev pub pair_key : Key (ℤ × ℤ)
pair_key = record { same = pair_beq; same_iff = pair_beq_iff }

abbrev pub HasUser : List UserRow → ℤ → Type 0
HasUser users id = has (λ u. u.id == id) users ≡ true

abbrev pub HasLevel : List LevelRow → ℤ → Type 0
HasLevel levels id = has (λ l. l.id == id) levels ≡ true

abbrev pub HasLevelOrNull : List LevelRow → Option ℤ → Type 0
HasLevelOrNull levels none = Unit
HasLevelOrNull levels (some id) = HasLevel levels id

abbrev pub AreUsers : ℕ → List UserRow → Type 0
AreUsers seq users =
    Distinct (λ u. u.id) users
    × Distinct (λ u. u.username) users
    × All (λ u. IsGiven seq u.id) users

abbrev pub AreLevels : ℕ → List LevelRow → Type 0
AreLevels seq levels =
    Distinct (λ l. l.id) levels
    × Distinct (λ l. l.order_index) levels
    × All (λ l. IsGiven seq l.id) levels

abbrev pub AreTools : ℕ → List ToolRow → Type 0
AreTools seq tools = Distinct (λ x. x.id) tools × All (λ x. IsGiven seq x.id) tools

abbrev pub AreHints : ℕ → List HintRow → Type 0
AreHints seq hints = Distinct (λ x. x.id) hints × All (λ x. IsGiven seq x.id) hints

abbrev pub pair : ProgressRow → ℤ × ℤ
pair p = (p.user_id, p.level_id)

abbrev pub AreSolves : ℕ → List ProgressRow → Type 0
AreSolves seq progress =
    Distinct (λ p. p.id) progress × Distinct pair progress × All (λ p. IsGiven seq p.id) progress

-- Every constraint of the schema.
pub record IsConsistent (t : Tables) : Type 0 where
  pub users : AreUsers t.user_seq t.users
  pub levels : AreLevels t.level_seq t.levels
  pub tools : AreTools t.tool_seq t.tools
  pub hints : AreHints t.hint_seq t.hints
  pub progress : AreSolves t.progress_seq t.user_progress
  pub tokens : Distinct (λ s. s.token) t.sessions
  pub session_users : All (λ s. HasUser t.users s.user_id) t.sessions
  pub progress_users : All (λ p. HasUser t.users p.user_id) t.user_progress
  pub progress_levels : All (λ p. HasLevel t.levels p.level_id) t.user_progress
  pub hint_levels : All (λ x. HasLevel t.levels x.level_id) t.hints
  pub tool_levels : All (λ x. HasLevelOrNull t.levels x.unlocks_at_level_id) t.tools
