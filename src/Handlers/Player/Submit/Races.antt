-- ===== src/Handlers/Player/Submit/Races.antt =====
-- Submissions whose statements run in any order (internal/handlers/submit.go).
use crypticquest_backend.Base.{◌≡◌, subst, true, int_key, ℤ, List, [], ◌∷◌, ◌++◌, All, All-mono}
use crypticquest_backend.Schema.{Tables}
use crypticquest_backend.Engine.{Db}
use crypticquest_backend.Store.Write.{Write, perform}
use crypticquest_backend.Store.Write.Integrity.{perform-IsConsistent}
use crypticquest_backend.Store.Write.Played.{IsPlayed-same_game, perform-IsPlayed}
use crypticquest_backend.Store.Write.Apart.{is_apart, perform-game}
use crypticquest_backend.Store.Integrity.{IsConsistent}
use crypticquest_backend.Store.Access.Linear.{IsLinear}
use crypticquest_backend.Text.{LowerTable}
use crypticquest_backend.Handlers.Player.Submit.Interleaved.{
  Phase, answered, Run, start, arrive, step, fail, aside, leave,
}
use crypticquest_backend.Handlers.Player.Submit.Grows.{Grows, apart-Grows, delete_user-Grows}
use crypticquest_backend.Handlers.Player.Submit.Sound.{
  IsSound, IsPlay, IsSound-Grows, advance-Keeps,
}

All-middle : (P : Phase → Type 0) (xs ys : List Phase) (p : Phase) → All P (xs ++ p ∷ ys) → P p
All-middle P [] ys p (h, hs) = h
All-middle P (x ∷ xs) ys p (h, hs) = All-middle P xs ys p hs

All-replace :
    (P Q : Phase → Type 0) (xs ys : List Phase) (p q : Phase)
    → ((x : Phase) → P x → Q x)
    → All P (xs ++ p ∷ ys)
    → Q q
    → All Q (xs ++ q ∷ ys)
All-replace P Q [] ys p q f (h, hs) k = (k, All-mono P Q ys f hs)
All-replace P Q (x ∷ xs) ys p q f (h, hs) k = (f x h, All-replace P Q xs ys p q f hs k)

-- A write of another request.
aside-Keeps :
    (w : Write) (d : Db)
    → is_apart w ≡ true
    → IsPlay d.tables
    → IsPlay (perform w d).1.tables × Grows d.tables (perform w d).1.tables
aside-Keeps w d h s =
    let e = perform-game w d h in
    (
      record {
        consistent = perform-IsConsistent w d s.consistent;
        linear = IsPlayed-same_game d.tables _ e s.linear;
      },
      apart-Grows w d h,
    )

-- The deletion of an account.
leave-Keeps :
    (id : ℤ) (d : Db)
    → IsPlay d.tables
    → IsPlay (perform (Write.delete_user id) d).1.tables
      × Grows d.tables (perform (Write.delete_user id) d).1.tables
leave-Keeps id d s = (
  record {
    consistent = perform-IsConsistent (Write.delete_user id) d s.consistent;
    linear = perform-IsPlayed (Write.delete_user id) d s.consistent s.linear tt;
  },
  delete_user-Grows id d s.consistent,
)

Run-Keeps :
    (table : LowerTable) (t₀ t : Tables) (ps : List Phase)
    → IsPlay t₀
    → Run table t₀ t ps
    → IsPlay t × All (IsSound t) ps
Run-Keeps table t₀ t ps s start = (s, tt)
Run-Keeps table t₀ t ps s (arrive u i answer r) =
    let (s', h) = Run-Keeps table t₀ _ _ s r in (s', (tt, h))
Run-Keeps table t₀ t ps s (step now xs ys p r e) =
    let (s', h) = Run-Keeps table t₀ _ _ s r in
    let h' = subst (All (IsSound _)) e h in
    let (s'', g, k) = advance-Keeps table now _ p s' (All-middle _ xs ys p h') in
    (s'', All-replace _ _ xs ys p _ (λ x. IsSound-Grows _ _ x g) h' k)
Run-Keeps table t₀ t ps s (fail xs ys p r e) =
    let (s', h) = Run-Keeps table t₀ _ _ s r in
    (s', All-replace _ _ xs ys p answered (λ x k. k) (subst (All (IsSound _)) e h) tt)
Run-Keeps table t₀ t ps s (aside w now faults r e) =
    let (s', h) = Run-Keeps table t₀ _ _ s r in
    let (s'', g) = aside-Keeps w (record { tables = _; now = now; faults = faults }) e s' in
    (s'', All-mono _ _ ps (λ p. IsSound-Grows _ _ p g) h)
Run-Keeps table t₀ t ps s (leave id now faults r) =
    let (s', h) = Run-Keeps table t₀ _ _ s r in
    let (s'', g) = leave-Keeps id (record { tables = _; now = now; faults = faults }) s' in
    (s'', All-mono _ _ ps (λ p. IsSound-Grows _ _ p g) h)

-- Whatever statements of other submissions come between the statements of one, among any writes that
-- add, change or delete accounts (SetUserProgressToLevel aside), sessions, hints and tools, and
-- whichever of them fail: the tables stay consistent and play stays linear for every user, when both
-- hold at the start.
pub Run-IsLinear :
    (table : LowerTable) (t₀ t : Tables) (ps : List Phase)
    → IsConsistent t₀
    → ((v : ℤ) → IsLinear v t₀)
    → Run table t₀ t ps
    → IsConsistent t × ((v : ℤ) → IsLinear v t)
Run-IsLinear table t₀ t ps c linear r =
    let (s, h) = Run-Keeps table t₀ t ps (record { consistent = c; linear = linear }) r in
    (s.consistent, s.linear)
