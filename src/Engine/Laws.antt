-- ===== src/Engine/Laws.antt =====
-- What a sequence of statements keeps and what it leaves behind when it fails (internal/store).
use crypticquest_backend.Base.{ℕ, Bool, true, false, Option, arith, if◌then◌else◌}
use crypticquest_backend.Schema.{Tables}
use crypticquest_backend.Engine.{
  SqlError, Result, ok, err, Db, M, Statement, exec, query, query_row, pure, raise, wrap, ◌>>=◌,
  continue, transaction, begun, finish, commit,
}

-- What holds of the tables that a statement leaves, when it succeeds.
abbrev pub Leaves : {A : Type 0} → (Tables → Type 0) → Result SqlError (A × Tables) → Type 0
Leaves P (ok (a, t)) = P t
Leaves P (err e) = Unit

-- An action keeps `P`, whether it returns or fails, and whichever statements are hit by a fault.
pub record Keeps {E A : Type 0} (P : Tables → Type 0) (m : M E A) : Type 0 where
  pub at : (d : Db) → P d.tables → P (m d).1.tables

module _ {A : Type 0} {P : Tables → Type 0} where
  pub Keeps-exec :
      (f : Statement A) → ((t : Tables) (now : ℕ) → P t → Leaves P (f t now)) → Keeps P (exec f)
  unfolding exec
  Keeps-exec f k = record { at = λ d h. ground (arith, k d.tables d.now) }

  pub Keeps-query : (f : Tables → A) → Keeps P (exec (query f))
  Keeps-query f = Keeps-exec (query f) (λ t now h. h)

  pub Keeps-query_row : (f : Tables → Option A) → Keeps P (exec (query_row f))
  Keeps-query_row f = Keeps-exec (query_row f) (λ t now h. ground arith)

module _ {E A : Type 0} {P : Tables → Type 0} where
  pub Keeps-pure : (a : A) → Keeps P (pure {E = E} a)
  Keeps-pure a = record { at = λ d h. h }

  pub Keeps-raise : (e : E) → Keeps P (raise {A = A} e)
  Keeps-raise e = record { at = λ d h. h }

  pub Keeps-wrap : {F : Type 0} (w : E → F) (m : M E A) → Keeps P m → Keeps P (wrap w m)
  Keeps-wrap w m k = record { at = λ d h. k.at d h }

  pub Keeps-if : (b : Bool) (m n : M E A) → Keeps P m → Keeps P n → Keeps P (if b then m else n)
  Keeps-if true m n km kn = km
  Keeps-if false m n km kn = kn

module _ {E A : Type 0} (P : Tables → Type 0) where
  keeps_commit :
      (w : SqlError → E) (t : Tables) (a : A) (r : Result SqlError (Unit {0})) (d : Db)
      → P t
      → P d.tables
      → P (commit w t a r d).1.tables
  keeps_commit w t a (ok u) d h k = k
  keeps_commit w t a (err e) d h k = h

  keeps_finish :
      (w : SqlError → E) (t : Tables) (r : Result E A) (d : Db)
      → P t
      → P d.tables
      → P (finish w t r d).1.tables
  keeps_finish w t (err e) d h k = h
  keeps_finish w t (ok a) d h k =
      let (r, d') = exec (query (λ _. tt)) d in
      keeps_commit w t a r d' h ((Keeps-query {A = Unit {0}} {P = P} (λ _. tt)).at d k)

  keeps_begun :
      (w : SqlError → E) (m : M E A) (r : Result SqlError (Unit {0})) (d : Db)
      → Keeps P m
      → P d.tables
      → P (begun w m r d).1.tables
  keeps_begun w m (err e) d k h = h
  keeps_begun w m (ok u) d k h = let (r, d') = m d in keeps_finish w d.tables r d' h (k.at d h)

module _ {E A : Type 0} {P : Tables → Type 0} where
  pub Keeps-transaction : (w : SqlError → E) (m : M E A) → Keeps P m → Keeps P (transaction w m)
  unfolding transaction
  Keeps-transaction w m k = record {
    at = λ d h.
        let (r, d') = exec (query (λ _. tt)) d in
        keeps_begun P w m r d' k ((Keeps-query {A = Unit {0}} {P = P} (λ _. tt)).at d h);
  }

module _ {E A B : Type 0} {P : Tables → Type 0} where
  pub keeps_continue :
      (r : Result E A) (f : A → M E B) (d : Db)
      → ((a : A) → Keeps P (f a))
      → P d.tables
      → P (continue r f d).1.tables
  keeps_continue (ok a) f d k h = (k a).at d h
  keeps_continue (err e) f d k h = h

  pub Keeps-bind :
      (m : M E A) (f : A → M E B) → Keeps P m → ((a : A) → Keeps P (f a)) → Keeps P (m >>= f)
  Keeps-bind m f km kf = record {
    at = λ d h. let (r, d') = m d in keeps_continue r f d' kf (km.at d h);
  }

pub ruleset keeps_rules = (
  Keeps-query, Keeps-query_row, Keeps-pure, Keeps-raise, Keeps-wrap, Keeps-if, Keeps-transaction,
  Keeps-bind,
)
