-- ===== src/Engine/Quiet.antt =====
-- Runs of the database handle (internal/store/store.go) without faults, and that a run with faults
-- that succeeds is one of those.
use crypticquest_backend.Base.{
  ℕ, ◌≡◌, refl, ◌∙◌, ap, subst, subst₂, Bool, true, false, [], arith, if◌then◌else◌,
}
use crypticquest_backend.Schema.{Tables}
use crypticquest_backend.Engine.{
  SqlError, Result, ok, err, Db, M, Statement, exec, query, pure, raise, wrap, wrap_result, ◌>>=◌,
  continue, transaction, begun, finish, commit,
}
use crypticquest_backend.Engine.Atomic.{exec-eq-ok, IsReading-query}

abbrev pub quiet_db : Tables → ℕ → Db
quiet_db t now = record { tables = t; now = now; faults = [] }

pub bind_runs :
    {E A B : Type 0} (m : M E A) (f : A → M E B) {d d' : Db} {a : A}
    → m d ≡ (ok a, d')
    → (m >>= f) d ≡ f a d'
bind_runs m f e = rw e refl

-- A sequence that succeeds has succeeded in its first part and in the rest.
pub continue-eq-ok :
    {E A B : Type 0} (r : Result E A) (f : A → Db → Result E B × Db) (d : Db) (b : B)
    → (continue r f d).0 ≡ ok b
    → (a : A) × (r ≡ ok a) × ((f a d).0 ≡ ok b)
continue-eq-ok (ok a) f d b h = (a, refl, h)
continue-eq-ok (err e) f d b h = cc

-- What a transaction without faults makes of its body.
pub transaction_runs :
    {E A : Type 0} (w : SqlError → E) (m : M E A) (t : Tables) (now : ℕ) {a : A} {t' : Tables}
    → m (quiet_db t now) ≡ (ok a, quiet_db t' now)
    → transaction w m (quiet_db t now) ≡ (ok a, quiet_db t' now)
unfolding transaction exec
transaction_runs w m t now e = rw e refl

pub transaction_fails :
    {E A : Type 0} (w : SqlError → E) (m : M E A) (t : Tables) (now : ℕ) {e : E}
    → (m (quiet_db t now)).0 ≡ err e
    → ((transaction w m (quiet_db t now)).0 ≡ err e)
      × ((transaction w m (quiet_db t now)).1.tables ≡ t)
unfolding transaction exec
transaction_fails w m t now h = rw h (refl, refl)

-- A run that succeeds goes the same way without the faults.
pub record IsQuiet {E A : Type 0} (m : M E A) : Type 0 where
  pub time : (d : Db) → (m d).1.now ≡ d.now
  pub same :
      (d : Db) (a : A)
      → (m d).0 ≡ ok a
      → m (quiet_db d.tables d.now) ≡ (ok a, quiet_db (m d).1.tables d.now)

exec_runs :
    {A : Type 0} (f : Statement A) (t t' : Tables) (now : ℕ) (a : A)
    → f t now ≡ ok (a, t')
    → exec f (quiet_db t now) ≡ (ok a, quiet_db t' now)
unfolding exec
exec_runs f t t' now a h = ground arith

exec_time : {A : Type 0} (f : Statement A) (d : Db) → (exec f d).1.now ≡ d.now
unfolding exec
exec_time f d = ground arith

pub IsQuiet-exec : {A : Type 0} (f : Statement A) → IsQuiet (exec f)
IsQuiet-exec f = record {
  time = λ d. exec_time f d;
  same = λ d a h. exec_runs f d.tables _ d.now a (exec-eq-ok f d a h);
}

module _ {E A : Type 0} where
  pub IsQuiet-pure : (a : A) → IsQuiet (pure {E = E} a)
  IsQuiet-pure a = record { time = λ d. refl; same = λ d b h. cc }

  pub IsQuiet-raise : (e : E) → IsQuiet (raise {A = A} e)
  IsQuiet-raise e = record { time = λ d. refl; same = λ d b h. absurd (cc) }

  wrap-eq-ok : {F : Type 0} (w : E → F) (r : Result E A) (a : A) → wrap_result w r ≡ ok a → r ≡ ok a
  wrap-eq-ok w (ok b) a h = cc
  wrap-eq-ok w (err e) a h = absurd (cc)

  pub IsQuiet-wrap : {F : Type 0} (w : E → F) (m : M E A) → IsQuiet m → IsQuiet (wrap w m)
  IsQuiet-wrap w m q = record {
    time = λ d. q.time d;
    same = λ d a h. rw (q.same d a (wrap-eq-ok w (m d).0 a h)) refl;
  }

  pub IsQuiet-if : (b : Bool) (m n : M E A) → IsQuiet m → IsQuiet n → IsQuiet (if b then m else n)
  IsQuiet-if true m n qm qn = qm
  IsQuiet-if false m n qm qn = qn

module _ {E A B : Type 0} where
  quiet_continue :
      (r : Result E A) (f : A → M E B) (d : Db) (now : ℕ)
      → ((a : A) → IsQuiet (f a))
      → d.now ≡ now
      → (continue r f d).1.now ≡ now
  quiet_continue (ok a) f d now q h = (q a).time d ∙ h
  quiet_continue (err e) f d now q h = h

  -- What follows the first part, whose outcome is `r` and `d`.
  quiet_rest :
      (r : Result E A) (f : A → M E B) (d : Db) (now : ℕ) (b : B)
      → ((a : A) → IsQuiet (f a))
      → d.now ≡ now
      → (continue r f d).0 ≡ ok b
      → (a : A) × (r ≡ ok a)
        × (f a (quiet_db d.tables now) ≡ (ok b, quiet_db (continue r f d).1.tables now))
  quiet_rest (ok a) f d now b q t h = (
    a,
    refl,
    subst (λ n. f a (quiet_db d.tables n) ≡ (ok b, quiet_db (f a d).1.tables n)) t
        ((q a).same d b h),
  )
  quiet_rest (err e) f d now b q t h = cc

  pub IsQuiet-bind :
      (m : M E A) (f : A → M E B) → IsQuiet m → ((a : A) → IsQuiet (f a)) → IsQuiet (m >>= f)
  IsQuiet-bind m f qm qf = record {
    time = λ d. quiet_continue (m d).0 f (m d).1 d.now qf (qm.time d);
    same = λ d b h.
        let (a, e, rest) = quiet_rest (m d).0 f (m d).1 d.now b qf (qm.time d) h in
        bind_runs m f (qm.same d a e) ∙ rest;
  }

module _ {E A : Type 0} (w : SqlError → E) where
  commit-eq-ok :
      (t : Tables) (a b : A) (r : Result SqlError (Unit {0})) (d : Db)
      → (commit w t a r d).0 ≡ ok b
      → (a ≡ b) × ((commit w t a r d).1.tables ≡ d.tables)
  commit-eq-ok t a b (ok u) d h = (cc, refl)
  commit-eq-ok t a b (err e) d h = absurd (cc)

  finish-eq-ok :
      (t : Tables) (r : Result E A) (b : A) (d : Db)
      → (finish w t r d).0 ≡ ok b
      → (r ≡ ok b) × ((finish w t r d).1.tables ≡ d.tables)
  finish-eq-ok t (err e) b d h = absurd (cc)
  finish-eq-ok t (ok a) b d h =
      let (r, d') = exec (query (λ _. tt)) d in
      let (same, kept) = commit-eq-ok t a b r d' h in
      (ap ok same, kept ∙ (IsReading-query {A = Unit {0}} (λ _. tt)).unchanged d)

  begun-eq-ok :
      (m : M E A) (r : Result SqlError (Unit {0})) (b : A) (d : Db)
      → (begun w m r d).0 ≡ ok b
      → ((m d).0 ≡ ok b) × ((begun w m r d).1.tables ≡ (m d).1.tables)
  begun-eq-ok m (err e) b d h = absurd (cc)
  begun-eq-ok m (ok u) b d h = let (r, d') = m d in finish-eq-ok d.tables r b d' h

  -- A transaction that succeeds has run its body to the end.
  pub transaction-eq-ok :
      (m : M E A) (b : A) (d : Db)
      → IsQuiet m
      → (transaction w m d).0 ≡ ok b
      → m (quiet_db d.tables d.now) ≡ (ok b, quiet_db (transaction w m d).1.tables d.now)
  unfolding transaction
  transaction-eq-ok m b d q h =
      let (r, d₁) = exec (query (λ _. tt)) d in
      let (ran, kept) = begun-eq-ok m r b d₁ h in
      let started : d₁.tables ≡ d.tables = (IsReading-query {A = Unit {0}} (λ _. tt)).unchanged d in
      let time : d₁.now ≡ d.now = exec_time (query {A = Unit {0}} (λ _. tt)) d in
      subst₂ (λ t n. m (quiet_db t n) ≡ (ok b, quiet_db (begun w m r d₁).1.tables n)) started time
        (rw kept (q.same d₁ b ran))

pub ruleset quiet_rules =
    (IsQuiet-exec, IsQuiet-pure, IsQuiet-raise, IsQuiet-wrap, IsQuiet-if, IsQuiet-bind)
