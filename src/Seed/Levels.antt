-- ===== src/Seed/Levels.antt =====
-- The loop of load (cmd/seed/main.go) over the levels of the file.
use mathlib.Core.List.{append_assoc, append-nil}
use crypticquest_backend.Base.{
  ℕ, suc, ◌+◌, ◌≡◌, refl, ◌∙◌, ap, String, ◌==◌, string_key, int_key, same_refl, same_symm, ℤ, pos,
  Bool-cases, inl, inr, true, false, List, [], ◌∷◌, ◌++◌, length, has, All, Distinct, arith,
  has-append_one,
}
use crypticquest_backend.Schema.{Tables, LevelRow, HintRow}
use crypticquest_backend.Engine.{ok, exec}
use crypticquest_backend.Engine.Quiet.{quiet_db, continue-eq-ok}
use crypticquest_backend.Store.Levels.{insert_level}
use crypticquest_backend.Store.Hints.{insert_hint}
use crypticquest_backend.Seed.{SeedLevel, LevelIds, has_id, load_hints, load_level, load_levels}
use crypticquest_backend.Seed.Content.{level_row, level_rows, text_rows, hint_rows, hint_count}

abbrev with_texts : Tables → ℤ → ℕ → List String → Tables
with_texts t id i texts = record t {
  hints = t.hints ++ text_rows t.hint_seq id i texts;
  hint_seq = t.hint_seq + length texts;
}

load_hints_runs :
    (title : String) (id : ℤ) (i : ℕ) (texts : List String) (t : Tables) (now : ℕ)
    → has (λ l. l.id == id) t.levels ≡ true
    → load_hints title id i texts (quiet_db t now) ≡ (ok tt, quiet_db (with_texts t id i texts) now)
unfolding load_hints exec insert_hint
load_hints_runs title id i [] t now h = ground (arith, append-nil t.hints)
load_hints_runs title id i (text ∷ texts) t now h =
    let row : HintRow = record {
      id = pos (suc t.hint_seq);
      level_id = id;
      order_index = pos (i + 1);
      text = text;
    } in
    let t' : Tables = record t { hints = t.hints ++ row ∷ []; hint_seq = suc t.hint_seq } in
    rw h (
      load_hints_runs title id (i + 1) texts t' now h
      ∙ ground
          (arith, append_assoc t.hints (row ∷ []) (text_rows (suc t.hint_seq) id (i + 1) texts)))

-- What has to be new about the next level.
abbrev pub IsNew : LevelIds → List LevelRow → SeedLevel → Type 0
IsNew ids levels l =
    ((l.key == "") ≡ false)
    × (has_id ids l.key ≡ false)
    × (has (λ x. x.order_index == l.order_index) levels ≡ false)

abbrev with_level : Tables → SeedLevel → Tables
with_level t l = record t {
  levels = t.levels ++ level_row t.level_seq l ∷ [];
  level_seq = suc t.level_seq;
  hints = t.hints ++ text_rows t.hint_seq (pos (suc t.level_seq)) 0 l.hints;
  hint_seq = t.hint_seq + length l.hints;
}

new_level :
    (t : Tables) (l : SeedLevel)
    → has (λ x. x.id == pos (suc t.level_seq)) (t.levels ++ level_row t.level_seq l ∷ []) ≡ true
new_level t l =
    has-append_one (λ x. x.id == pos (suc t.level_seq)) t.levels (level_row t.level_seq l)
    ∙ ground (arith, same_refl (pos (suc t.level_seq)))

load_level_runs :
    (ids : LevelIds) (l : SeedLevel) (t : Tables) (now : ℕ)
    → IsNew ids t.levels l
    → load_level ids l (quiet_db t now)
      ≡ (ok ((l.key, pos (suc t.level_seq)) ∷ ids), quiet_db (with_level t l) now)
unfolding load_level exec insert_level
load_level_runs ids l t now (given, key, order) =
    let t' : Tables = record t {
      levels = t.levels ++ level_row t.level_seq l ∷ [];
      level_seq = suc t.level_seq;
    } in
    rw given (
      rw key (
        rw order (
          rw (load_hints_runs l.title (pos (suc t.level_seq)) 0 l.hints t' now (new_level t l))
            refl)))

load_level-IsNew :
    (ids : LevelIds) (l : SeedLevel) (t : Tables) (now : ℕ) (ids' : LevelIds)
    → (load_level ids l (quiet_db t now)).0 ≡ ok ids'
    → IsNew ids t.levels l
unfolding load_level exec insert_level
load_level-IsNew ids l t now ids' h = elim (Bool-cases (l.key == "")) [
  | inl e ↦ absurd (cc (rw e at h))
  | inr given ↦ elim (Bool-cases (has_id ids l.key)) [
    | inl e ↦ absurd (cc (rw e at (rw given at h)))
    | inr key ↦ elim (Bool-cases (has (λ x. x.order_index == l.order_index) t.levels)) [
      | inl e ↦ absurd (cc (rw e at (rw key at (rw given at h))))
      | inr order ↦ (given, key, order)
    ]
  ]
]

-- All levels of the rest are new, and no two of them are alike.
abbrev pub AreNew : LevelIds → List LevelRow → List SeedLevel → Type 0
AreNew ids levels ls =
    All (IsNew ids levels) ls × Distinct (λ l. l.key) ls × Distinct (λ l. l.order_index) ls

abbrev pub ids_after : LevelIds → ℕ → List SeedLevel → LevelIds
ids_after ids n [] = ids
ids_after ids n (l ∷ ls) = ids_after ((l.key, pos (suc n)) ∷ ids) (suc n) ls

abbrev pub with_levels : Tables → List SeedLevel → Tables
with_levels t ls = record t {
  levels = t.levels ++ level_rows t.level_seq ls;
  level_seq = t.level_seq + length ls;
  hints = t.hints ++ hint_rows t.hint_seq t.level_seq ls;
  hint_seq = t.hint_seq + hint_count ls;
}

with_levels-cons :
    (t : Tables) (l : SeedLevel) (ls : List SeedLevel)
    → with_levels (with_level t l) ls ≡ with_levels t (l ∷ ls)
with_levels-cons t l ls = ground (
  arith,
  append_assoc t.levels (level_row t.level_seq l ∷ []) (level_rows (suc t.level_seq) ls),
  append_assoc t.hints (text_rows t.hint_seq (pos (suc t.level_seq)) 0 l.hints)
      (hint_rows (t.hint_seq + length l.hints) (suc t.level_seq) ls),
)

-- A level that is new after `l` was new before, and is not like `l`.
still-IsNew :
    (ids : LevelIds) (t : Tables) (l m : SeedLevel)
    → IsNew ids t.levels m
    → (m.key == l.key) ≡ false
    → (m.order_index == l.order_index) ≡ false
    → IsNew ((l.key, pos (suc t.level_seq)) ∷ ids) (with_level t l).levels m
still-IsNew ids t l m h k o = (
  h.0,
  ground (arith, same_symm m.key l.key),
  has-append_one (λ x. x.order_index == m.order_index) t.levels (level_row t.level_seq l)
      ∙ ground (arith, same_symm m.order_index l.order_index),
)

was-IsNew :
    (ids : LevelIds) (t : Tables) (l m : SeedLevel)
    → IsNew ((l.key, pos (suc t.level_seq)) ∷ ids) (with_level t l).levels m
    → IsNew ids t.levels m × ((m.key == l.key) ≡ false) × ((m.order_index == l.order_index) ≡ false)
was-IsNew ids t l m h =
    let orders =
      has-append_one (λ x. x.order_index == m.order_index) t.levels (level_row t.level_seq l) in
    (
      (h.0, ground arith, ground (arith, orders)),
      ground (arith, same_symm m.key l.key),
      ground (arith, orders, same_symm m.order_index l.order_index),
    )

AreNew-tail :
    (ids : LevelIds) (t : Tables) (l : SeedLevel) (ls : List SeedLevel)
    → All (IsNew ids t.levels) ls
    → has (λ m. m.key == l.key) ls ≡ false
    → has (λ m. m.order_index == l.order_index) ls ≡ false
    → All (IsNew ((l.key, pos (suc t.level_seq)) ∷ ids) (with_level t l).levels) ls
AreNew-tail ids t l [] h k o = tt
AreNew-tail ids t l (m ∷ ls) (p, h) k o = (
  still-IsNew ids t l m p (ground arith) (ground arith),
  AreNew-tail ids t l ls h (ground arith) (ground arith),
)

AreNew-cons :
    (ids : LevelIds) (t : Tables) (l : SeedLevel) (ls : List SeedLevel)
    → All (IsNew ((l.key, pos (suc t.level_seq)) ∷ ids) (with_level t l).levels) ls
    → All (IsNew ids t.levels) ls
      × (has (λ m. m.key == l.key) ls ≡ false)
      × (has (λ m. m.order_index == l.order_index) ls ≡ false)
AreNew-cons ids t l [] h = (tt, refl, refl)
AreNew-cons ids t l (m ∷ ls) (p, h) =
    let (new, key, order) = was-IsNew ids t l m p in
    let (rest, keys, orders) = AreNew-cons ids t l ls h in ((new, rest), ground arith, ground arith)

pub load_levels_runs :
    (ids : LevelIds) (ls : List SeedLevel) (t : Tables) (now : ℕ)
    → AreNew ids t.levels ls
    → load_levels ids ls (quiet_db t now)
      ≡ (ok (ids_after ids t.level_seq ls), quiet_db (with_levels t ls) now)
unfolding load_levels
load_levels_runs ids [] t now h = ground (arith, append-nil t.levels, append-nil t.hints)
load_levels_runs ids (l ∷ ls) t now ((p, h), (k, keys), (o, orders)) =
    rw (load_level_runs ids l t now p) (
      load_levels_runs ((l.key, pos (suc t.level_seq)) ∷ ids) ls (with_level t l) now
        (AreNew-tail ids t l ls h k o, keys, orders)
      ∙ ap (λ t'. (ok (ids_after ids t.level_seq (l ∷ ls)), quiet_db t' now))
          (with_levels-cons t l ls))

pub load_levels-AreNew :
    (ids : LevelIds) (ls : List SeedLevel) (t : Tables) (now : ℕ) (ids' : LevelIds)
    → (load_levels ids ls (quiet_db t now)).0 ≡ ok ids'
    → AreNew ids t.levels ls
unfolding load_levels
load_levels-AreNew ids [] t now ids' h = (tt, tt, tt)
load_levels-AreNew ids (l ∷ ls) t now ids' h =
    let (ids₁, e, _) =
      continue-eq-ok (load_level ids l (quiet_db t now)).0 (λ i. load_levels i ls)
        (load_level ids l (quiet_db t now)).1 ids' h in
    let p = load_level-IsNew ids l t now ids₁ e in
    let (news, keys, orders) =
      load_levels-AreNew ((l.key, pos (suc t.level_seq)) ∷ ids) ls (with_level t l) now ids'
        (rw (load_level_runs ids l t now p) at h) in
    let (rest, k, o) = AreNew-cons ids t l ls news in ((p, rest), (k, keys), (o, orders))
