-- ===== src/Engine/Atomic.antt =====
-- Which sequences of statements leave nothing behind when they fail (internal/store).
use crypticquest_backend.Base.{◌≡◌, refl, ◌∙◌, Bool, true, false, Option, arith, if◌then◌else◌}
use crypticquest_backend.Schema.{Tables}
use crypticquest_backend.Engine.{
  SqlError, Result, ok, err, Db, M, Statement, exec, query, query_row, pure, raise, wrap, ◌>>=◌,
  continue, wrap_result, transaction, begun, finish, commit,
}

-- An action that fails has changed nothing.
pub record IsAtomic {E A : Type 0} (m : M E A) : Type 0 where
  pub unchanged : (d : Db) (e : E) → (m d).0 ≡ err e → (m d).1.tables ≡ d.tables

-- An action that only reads.
pub record IsReading {E A : Type 0} (m : M E A) : Type 0 where
  pub unchanged : (d : Db) → (m d).1.tables ≡ d.tables

module _ {A : Type 0} where
  pub IsAtomic-exec : (f : Statement A) → IsAtomic (exec f)
  unfolding exec
  IsAtomic-exec f = record { unchanged = λ d e h. ground arith }

  pub IsReading-query : (f : Tables → A) → IsReading (exec (query f))
  unfolding exec
  IsReading-query f = record { unchanged = λ d. ground arith }

  pub IsReading-query_row : (f : Tables → Option A) → IsReading (exec (query_row f))
  unfolding exec
  IsReading-query_row f = record { unchanged = λ d. ground arith }

-- Where an error comes from.
wrap_result-eq-err :
    {E F A : Type 0} (w : E → F) (r : Result E A) (f : F)
    → wrap_result w r ≡ err f
    → (e : E) × (r ≡ err e)
wrap_result-eq-err w (ok a) f h = cc
wrap_result-eq-err w (err e) f h = (e, refl)

module _ {E A : Type 0} where
  pub IsAtomic-wrap : {F : Type 0} (w : E → F) (m : M E A) → IsAtomic m → IsAtomic (wrap w m)
  IsAtomic-wrap w m k = record {
    unchanged = λ d f h. let (e, p) = wrap_result-eq-err w (m d).0 f h in k.unchanged d e p;
  }

  pub IsReading-wrap : {F : Type 0} (w : E → F) (m : M E A) → IsReading m → IsReading (wrap w m)
  IsReading-wrap w m k = record { unchanged = λ d. k.unchanged d }

  atomic_commit :
      (w : SqlError → E) (t : Tables) (a : A) (r : Result SqlError (Unit {0})) (d : Db) (e : E)
      → (commit w t a r d).0 ≡ err e
      → (commit w t a r d).1.tables ≡ t
  atomic_commit w t a (ok u) d e h = cc
  atomic_commit w t a (err x) d e h = refl

  atomic_finish :
      (w : SqlError → E) (t : Tables) (r : Result E A) (d : Db) (e : E)
      → (finish w t r d).0 ≡ err e
      → (finish w t r d).1.tables ≡ t
  atomic_finish w t (err x) d e h = refl
  atomic_finish w t (ok a) d e h =
      let (r, d') = exec (query (λ _. tt)) d in atomic_commit w t a r d' e h

  atomic_begun :
      (w : SqlError → E) (m : M E A) (r : Result SqlError (Unit {0})) (d : Db) (e : E)
      → (begun w m r d).0 ≡ err e
      → (begun w m r d).1.tables ≡ d.tables
  atomic_begun w m (err x) d e h = refl
  atomic_begun w m (ok u) d e h = let (r, d') = m d in atomic_finish w d.tables r d' e h

  -- Whatever the body did before it failed, a transaction that fails has changed nothing.
  pub IsAtomic-transaction : (w : SqlError → E) (m : M E A) → IsAtomic (transaction w m)
  unfolding transaction
  IsAtomic-transaction w m = record {
    unchanged = λ d e h.
        let (r, d') = exec (query (λ _. tt)) d in
        atomic_begun w m r d' e h ∙ (IsReading-query {A = Unit {0}} (λ _. tt)).unchanged d;
  }

module _ {E A B : Type 0} where
  atomic_continue :
      (r : Result E A) (f : A → M E B) (d : Db) (e : E)
      → ((a : A) → IsAtomic (f a))
      → (continue r f d).0 ≡ err e
      → (continue r f d).1.tables ≡ d.tables
  atomic_continue (ok a) f d e k h = (k a).unchanged d e h
  atomic_continue (err x) f d e k h = refl

  -- Reads before an atomic action leave it atomic.
  pub IsAtomic-bind :
      (m : M E A) (f : A → M E B) → IsReading m → ((a : A) → IsAtomic (f a)) → IsAtomic (m >>= f)
  IsAtomic-bind m f km kf = record {
    unchanged = λ d e h. let (r, d') = m d in atomic_continue r f d' e kf h ∙ km.unchanged d;
  }

  reading_continue :
      (r : Result E A) (f : A → M E B) (d : Db)
      → ((a : A) → IsReading (f a))
      → (continue r f d).1.tables ≡ d.tables
  reading_continue (ok a) f d k = (k a).unchanged d
  reading_continue (err x) f d k = refl

  pub IsReading-bind :
      (m : M E A) (f : A → M E B) → IsReading m → ((a : A) → IsReading (f a)) → IsReading (m >>= f)
  IsReading-bind m f km kf = record {
    unchanged = λ d. let (r, d') = m d in reading_continue r f d' kf ∙ km.unchanged d;
  }

  continue-pure :
      (r : Result E A) (b : B) (d : Db) (e : E)
      → (continue r (λ _. pure b) d).0 ≡ err e
      → (e' : E) × (r ≡ err e') × ((continue {B = B} r (λ _. pure b) d).1 ≡ d)
  continue-pure (ok a) b d e h = absurd (cc)
  continue-pure (err x) b d e h = (x, refl, refl)

  -- What follows an atomic action without failing leaves it atomic.
  pub IsAtomic-then_pure : (m : M E A) (b : B) → IsAtomic m → IsAtomic (m >>= λ _. pure b)
  IsAtomic-then_pure m b k = record {
    unchanged =
        λ d e h. let (e', p, q) = continue-pure (m d).0 b (m d).1 e h in rw q (k.unchanged d e' p);
  }

module _ {A : Type 0} where
  -- A statement that succeeded ran on the tables before it.
  pub exec-eq-ok :
      (f : Statement A) (d : Db) (a : A)
      → (exec f d).0 ≡ ok a
      → f d.tables d.now ≡ ok (a, (exec f d).1.tables)
  unfolding exec
  exec-eq-ok f d a h = ground arith

module _ {E A : Type 0} where
  pub IsReading-IsAtomic : (m : M E A) → IsReading m → IsAtomic m
  IsReading-IsAtomic m k = record { unchanged = λ d e h. k.unchanged d }

  pub IsAtomic-if :
      (b : Bool) (m n : M E A) → IsAtomic m → IsAtomic n → IsAtomic (if b then m else n)
  IsAtomic-if true m n km kn = km
  IsAtomic-if false m n km kn = kn

  pub IsReading-pure : (a : A) → IsReading (pure {E = E} a)
  IsReading-pure a = record { unchanged = λ d. refl }

  pub IsReading-raise : (e : E) → IsReading (raise {A = A} e)
  IsReading-raise e = record { unchanged = λ d. refl }

  pub IsReading-if :
      (b : Bool) (m n : M E A) → IsReading m → IsReading n → IsReading (if b then m else n)
  IsReading-if true m n km kn = km
  IsReading-if false m n km kn = kn

pub ruleset reading_rules = (
  IsReading-query, IsReading-query_row, IsReading-wrap, IsReading-pure, IsReading-raise,
  IsReading-if, IsReading-bind,
)
