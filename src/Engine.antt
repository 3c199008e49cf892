-- ===== src/Engine.antt =====
-- The database handle of internal/store (store.go) and the transactions that the store opens on
-- it. Every statement may also fail for a reason outside the tables (I/O, a locked file): the list
-- `faults` says of each coming statement whether it does; past its end none does.
pub mod Laws
pub mod Atomic
pub mod Quiet
use crypticquest_backend.Base.{ℕ, Bool, Option, none, some, List, [], ◌∷◌, if◌then◌else◌}
use crypticquest_backend.Schema.{Tables}

-- What the driver reports; `no_rows` is sql.ErrNoRows.
pub data SqlError : Type 0 where
  no_rows unique_violation foreign_key_violation failure : SqlError

pub data Result (E A : Type 0) : Type 0 where
  ok : A → Result E A
  err : E → Result E A

pub record Db : Type 0 where
  pub tables : Tables
  pub now : ℕ
  pub faults : List Bool

abbrev pub M : Type 0 → Type 0 → Type 0
M E A = Db → Result E A × Db

-- A statement reads the tables and the engine's clock, and gives a result with the tables after it.
abbrev pub Statement : Type 0 → Type 0
Statement A = Tables → ℕ → Result SqlError (A × Tables)

module _ {A : Type 0} where
  -- One statement that is not hit by a fault. A statement that fails changes nothing.
  abbrev pub run : Statement A → M SqlError A
  run f d = elim (f d.tables d.now) [
    | err e ↦ (err e, d)
    | ok (a, t) ↦ (ok a, record d { tables = t })
  ]

  abbrev run_or_fail : Statement A → Bool → Db → Result SqlError A × Db
  run_or_fail f b d = if b then (err failure, d) else run f d

  unfoldable pub exec : Statement A → M SqlError A
  exec f d = elim d.faults [
    | [] ↦ run f d
    | b ∷ rest ↦ run_or_fail f b (record d { faults = rest })
  ]

  -- A query that returns rows, or one value.
  abbrev pub query : (Tables → A) → Statement A
  query f t now = ok (f t, t)

  -- QueryRow(…).Scan: no row is an error.
  abbrev row_or_error : Tables → Option A → Result SqlError (A × Tables)
  row_or_error t none = err no_rows
  row_or_error t (some a) = ok (a, t)

  abbrev pub query_row : (Tables → Option A) → Statement A
  query_row f t now = row_or_error t (f t)

-- The steps of a method: the error of a step ends it.
module _ {E A : Type 0} where
  abbrev pub pure : A → M E A
  pure a d = (ok a, d)

  abbrev pub raise : E → M E A
  raise e d = (err e, d)

  abbrev pub wrap_result : {F : Type 0} → (E → F) → Result E A → Result F A
  wrap_result w (ok a) = ok a
  wrap_result w (err e) = err (w e)

  -- `if err != nil { return …, wrap(err) }`
  abbrev pub wrap : {F : Type 0} → (E → F) → M E A → M F A
  wrap w m d = let (r, d') = m d in (wrap_result w r, d')

module _ {E A B : Type 0} where
  abbrev pub continue : Result E A → (A → M E B) → M E B
  continue (ok a) f d = f a d
  continue (err e) f d = (err e, d)

  infixl 5 ◌>>=◌ ◌>>◌
  abbrev pub ◌>>=◌ : M E A → (A → M E B) → M E B
  ◌>>=◌ m f d = let (r, d') = m d in continue r f d'

  abbrev pub ◌>>◌ : M E A → M E B → M E B
  m >> n = m >>= λ _. n

abbrev restore : Tables → Db → Db
restore t d = record d { tables = t }

module _ {E A : Type 0} where
  -- `tx.Commit()`; when it fails nothing of the transaction stays.
  abbrev commit : (SqlError → E) → Tables → A → Result SqlError (Unit {0}) → Db → Result E A × Db
  commit w t a (ok _) d = (ok a, d)
  commit w t a (err e) d = (err (w e), restore t d)

  -- The deferred `tx.Rollback()` undoes the statements of a body that returned early.
  abbrev finish : (SqlError → E) → Tables → Result E A → Db → Result E A × Db
  finish w t (err e) d = (err e, restore t d)
  finish w t (ok a) d = let (r, d') = exec (query (λ _. tt)) d in commit w t a r d'

  abbrev begun : (SqlError → E) → M E A → Result SqlError (Unit {0}) → Db → Result E A × Db
  begun w m (err e) d = (err (w e), d)
  begun w m (ok _) d = let (r, d') = m d in finish w d.tables r d'

  -- `tx, err := s.db.Begin(); defer tx.Rollback(); …; return tx.Commit()`
  unfoldable pub transaction : (SqlError → E) → M E A → M E A
  transaction w m d = let (r, d') = exec (query (λ _. tt)) d in begun w m r d'
