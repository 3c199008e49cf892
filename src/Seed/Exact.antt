-- ===== src/Seed/Exact.antt =====
-- What load (cmd/seed/main.go) leaves, and which files it refuses.
use crypticquest_backend.Base.{
  ℕ, suc, ◌≡◌, ◌⊎◌, refl, sym, ◌∙◌, ap, subst, fun_ext, String, ◌==◌, string_key, int_key,
  same_refl, ℤ, pos, Bool-cases, inl, inr, true, false, not, Option, none, some, List, [], ◌∷◌, has,
  rows_where, All, Distinct, arith,
}
use crypticquest_backend.Schema.{Tables, ProgressRow}
use crypticquest_backend.Engine.{Db, Result, ok, err, exec, ◌>>=◌}
use crypticquest_backend.Engine.Quiet.{
  quiet_db, bind_runs, continue-eq-ok, transaction_runs, transaction_fails,
}
use crypticquest_backend.Store.Integrity.{IsConsistent, HasLevel}
use crypticquest_backend.Seed.{
  SeedLevel, SeedFile, SeedError, transaction_failed, LevelIds, level_id, load_levels, load_tools,
  clear, load, load_content, refers, clear_levels, clear_hints, clear_tools, reset_counters,
}
use crypticquest_backend.Seed.Content.{level_rows, key_id, content, IsKnown, IsSeed}
use crypticquest_backend.Seed.Levels.{
  IsNew, ids_after, with_levels, load_levels_runs, load_levels-AreNew,
}
use crypticquest_backend.Seed.Tools.{with_tools, load_tools_runs, load_tools-IsKnown}

key_id-none :
    (n : ℕ) (ls : List SeedLevel) (key : String)
    → has (λ l. l.key == key) ls ≡ false
    → key_id n ls key ≡ none
key_id-none n [] key h = refl
key_id-none n (l ∷ ls) key h = ground (arith, key_id-none (suc n) ls key)

or_else : Option ℤ → Option ℤ → Option ℤ
or_else none o = o
or_else (some i) o = some i

level_id-after :
    (ids : LevelIds) (n : ℕ) (ls : List SeedLevel) (key : String)
    → Distinct (λ l. l.key) ls
    → level_id (ids_after ids n ls) key ≡ or_else (key_id n ls key) (level_id ids key)
unfolding or_else
level_id-after ids n [] key d = refl
level_id-after ids n (l ∷ ls) key (q, d) =
    level_id-after ((l.key, pos (suc n)) ∷ ids) (suc n) ls key d
    ∙ elim (Bool-cases (l.key == key)) [
      | inr e ↦ rw e refl
      | inl e ↦
          let same : l.key ≡ key = (string_key.same_iff l.key key).0 e in
          rw (e, key_id-none (suc n) ls key (subst (λ k. has (λ m. m.key == k) ls ≡ false) same q))
            refl
    ]

or_else-none : (o : Option ℤ) → or_else o none ≡ o
unfolding or_else
or_else-none none = refl
or_else-none (some i) = refl

-- The ids that are remembered are those of the specification.
level_id-eq :
    (ls : List SeedLevel) → Distinct (λ l. l.key) ls → level_id (ids_after [] 0 ls) ≡ key_id 0 ls
level_id-eq ls d = fun_ext (λ key. level_id-after [] 0 ls key d ∙ or_else-none (key_id 0 ls key))

pub key_id_there :
    (n : ℕ) (ls : List SeedLevel) (key : String) (i : ℤ)
    → key_id n ls key ≡ some i
    → has (λ l. l.id == i) (level_rows n ls) ≡ true
key_id_there n [] key i h = absurd (cc)
key_id_there n (l ∷ ls) key i h = ground (arith, same_refl i, key_id_there (suc n) ls key i)

wiped : Tables → Tables
wiped t = record t {
  levels = [];
  hints = [];
  tools = [];
  user_progress = [];
  level_seq = 0;
  hint_seq = 0;
  tool_seq = 0;
}

progress_refers :
    (t : Tables) (progress : List ProgressRow)
    → All (λ p. HasLevel t.levels p.level_id) progress
    → rows_where (λ p. not (refers t p.level_id)) progress ≡ []
unfolding refers
progress_refers t [] h = refl
progress_refers t (p ∷ ps) (q, h) = rw q (progress_refers t ps h)

clear_runs :
    (t : Tables) (now : ℕ)
    → IsConsistent t
    → clear (quiet_db t now) ≡ (ok tt, quiet_db (wiped t) now)
unfolding clear exec clear_hints clear_tools clear_levels reset_counters wiped
clear_runs t now c = rw (progress_refers t t.user_progress c.progress_levels) refl

AreNew-nil : (ls : List SeedLevel) → All (λ l. (l.key == "") ≡ false) ls → All (IsNew [] []) ls
AreNew-nil [] h = tt
AreNew-nil (l ∷ ls) (p, h) = ((p, refl, refl), AreNew-nil ls h)

keys_given_of : (ls : List SeedLevel) → All (IsNew [] []) ls → All (λ l. (l.key == "") ≡ false) ls
keys_given_of [] h = tt
keys_given_of (l ∷ ls) (p, h) = (p.0, keys_given_of ls h)

content-eq :
    (seed : SeedFile) (t : Tables)
    → Distinct (λ l. l.key) seed.levels
    → with_tools (ids_after [] 0 seed.levels) (with_levels (wiped t) seed.levels) seed.tools
      ≡ content seed t
unfolding wiped
content-eq seed t d = rw (level_id-eq seed.levels d) (ground arith)

pub load_content_runs :
    (seed : SeedFile) (t : Tables) (now : ℕ)
    → IsConsistent t
    → IsSeed seed
    → load_content seed (quiet_db t now) ≡ (ok tt, quiet_db (content seed t) now)
unfolding load_content wiped
load_content_runs seed t now c s =
    let t₁ = with_levels (wiped t) seed.levels in
    let ids = ids_after [] 0 seed.levels in
    let same = level_id-eq seed.levels s.keys in
    bind_runs clear (λ _. load_levels [] seed.levels >>= λ i. load_tools i seed.tools)
      (clear_runs t now c)
    ∙ bind_runs (load_levels [] seed.levels) (λ i. load_tools i seed.tools)
        (load_levels_runs [] seed.levels (wiped t) now
          (AreNew-nil seed.levels s.keys_given, s.keys, s.orders))
    ∙ load_tools_runs ids seed.tools t₁ now
        (λ key i h. key_id_there 0 seed.levels key i (rw same at h))
        (subst (λ f. All (λ tool. IsKnown f tool.unlocks_at_level) seed.tools) (sym same)
          s.references)
    ∙ ap (λ t'. (ok tt, quiet_db t' now)) (content-eq seed t s.keys)

pub load_content-IsSeed :
    (seed : SeedFile) (t : Tables) (now : ℕ)
    → IsConsistent t
    → (load_content seed (quiet_db t now)).0 ≡ ok tt
    → IsSeed seed
unfolding load_content wiped
load_content-IsSeed seed t now c h =
    let h₁ =
      subst (λ r. r.0 ≡ ok tt)
        (bind_runs clear (λ _. load_levels [] seed.levels >>= λ i. load_tools i seed.tools)
          (clear_runs t now c))
        h in
    let run = load_levels [] seed.levels (quiet_db (wiped t) now) in
    let (ids, e, _) = continue-eq-ok run.0 (λ i. load_tools i seed.tools) run.1 tt h₁ in
    let new = load_levels-AreNew [] seed.levels (wiped t) now ids e in
    let h₂ =
      subst (λ r. r.0 ≡ ok tt)
        (bind_runs (load_levels [] seed.levels) (λ i. load_tools i seed.tools)
          (load_levels_runs [] seed.levels (wiped t) now new))
        h₁ in
    record {
      keys_given = keys_given_of seed.levels new.0;
      keys = new.1;
      orders = new.2;
      references =
          subst (λ f. All (λ tool. IsKnown f tool.unlocks_at_level) seed.tools)
            (level_id-eq seed.levels new.1)
            (load_tools-IsKnown (ids_after [] 0 seed.levels) seed.tools _ h₂);
    }

pub Result-cases : {E : Type 0} (r : Result E (Unit {0})) → (r ≡ ok tt) ⊎ ((e : E) × (r ≡ err e))
Result-cases (ok tt) = inl refl
Result-cases (err e) = inr (e, refl)

abbrev pub Outcome : SeedFile → Tables → Result SeedError (Unit {0}) × Db → Type 0
Outcome seed t (r, d') =
    (IsSeed seed × (r ≡ ok tt) × (d'.tables ≡ content seed t))
    ⊎ ((¬ IsSeed seed) × ((e : SeedError) × (r ≡ err e)) × (d'.tables ≡ t))

load-Outcome :
    (seed : SeedFile) (t : Tables) (now : ℕ)
    → IsConsistent t
    → Outcome seed t (load seed (quiet_db t now))
unfolding load
load-Outcome seed t now c = elim (Result-cases (load_content seed (quiet_db t now)).0) [
  | inl e ↦
      let s = load_content-IsSeed seed t now c e in
      rw
        (transaction_runs transaction_failed (load_content seed) t now
          (load_content_runs seed t now c s))
        (inl (s, refl, refl))
  | inr (e, h) ↦
      let (failed, same) = transaction_fails transaction_failed (load_content seed) t now h in
      inr ((λ s. cc (ap (λ r. r.0) (load_content_runs seed t now c s))), (e, failed), same)
]

-- With no fault to come, and on consistent tables, load either succeeds, for a file whose levels
-- all have a key, no two of them the same and no two the same order_index, and whose tools name
-- only keys of its levels, and leaves exactly the content of the file, with ids from 1 on in its
-- order, the accounts and sessions as they were and no progress; or it fails, for any other file,
-- and changes no table.
pub load_exact :
    (seed : SeedFile) (d : Db)
    → IsConsistent d.tables
    → d.faults ≡ []
    → Outcome seed d.tables (load seed d)
load_exact seed d c quiet =
    let same : d ≡ quiet_db d.tables d.now = ground arith in
    subst (λ x. Outcome seed d.tables (load seed x)) (sym same) (load-Outcome seed d.tables d.now c)
