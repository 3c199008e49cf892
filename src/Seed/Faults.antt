-- ===== src/Seed/Faults.antt =====
-- load (cmd/seed/main.go) when statements may fail at any point.
use crypticquest_backend.Base.{
  ℕ, ◌+◌, ◌≡◌, ◌⊎◌, inl, inr, sym, ◌∙◌, ap, String, ◌==◌, string_key, ℤ, pos, Option, none, some,
  List, [], ◌∷◌,
}
use crypticquest_backend.Engine.{Db, ok, err, exec, wrap}
use crypticquest_backend.Engine.Atomic.{IsAtomic-transaction}
use crypticquest_backend.Engine.Quiet.{
  IsQuiet, IsQuiet-bind, IsQuiet-pure, IsQuiet-raise, IsQuiet-if, quiet_rules, transaction-eq-ok,
}
use crypticquest_backend.Store.Integrity.{IsConsistent}
use crypticquest_backend.Store.Hints.{insert_hint}
use crypticquest_backend.Store.Tools.{insert_tool}
use crypticquest_backend.Seed.{
  SeedTool, SeedLevel, SeedFile, SeedError, LevelIds, level_id, tool_input, hint_failed,
  tool_failed, transaction_failed, load_hints, load_level, load_levels, load_tools, unlocks,
  unlocks_named, unknown_or, clear, load, load_content,
}
use crypticquest_backend.Seed.Content.{content, IsSeed}
use crypticquest_backend.Seed.Exact.{Result-cases, load_content-IsSeed, load_content_runs}

load_hints-IsQuiet :
    (title : String) (id : ℤ) (i : ℕ) (texts : List String) → IsQuiet (load_hints title id i texts)
unfolding load_hints
load_hints-IsQuiet title id i [] = IsQuiet-pure tt
load_hints-IsQuiet title id i (text ∷ texts) =
    IsQuiet-bind (wrap (hint_failed (i + 1) title) (exec (insert_hint id (pos (i + 1)) text))) _
      (search quiet_rules) (λ _. load_hints-IsQuiet title id (i + 1) texts)

load_level-IsQuiet : (ids : LevelIds) (l : SeedLevel) → IsQuiet (load_level ids l)
unfolding load_level
load_level-IsQuiet ids l = search (quiet_rules, load_hints-IsQuiet) depth 8

load_levels-IsQuiet : (ids : LevelIds) (ls : List SeedLevel) → IsQuiet (load_levels ids ls)
unfolding load_levels
load_levels-IsQuiet ids [] = IsQuiet-pure ids
load_levels-IsQuiet ids (l ∷ ls) =
    IsQuiet-bind (load_level ids l) _ (load_level-IsQuiet ids l) (λ i. load_levels-IsQuiet i ls)

unknown_or-IsQuiet :
    (tool : SeedTool) (key : String) (o : Option ℤ) → IsQuiet (unknown_or tool key o)
unfolding unknown_or
unknown_or-IsQuiet tool key none = IsQuiet-raise _
unknown_or-IsQuiet tool key (some id) = IsQuiet-pure _

unlocks_named-IsQuiet :
    (ids : LevelIds) (tool : SeedTool) (o : Option String) → IsQuiet (unlocks_named ids tool o)
unfolding unlocks_named
unlocks_named-IsQuiet ids tool none = IsQuiet-pure _
unlocks_named-IsQuiet ids tool (some key) =
    IsQuiet-if (key == "") _ _ (IsQuiet-pure _) (unknown_or-IsQuiet tool key (level_id ids key))

load_tools-IsQuiet : (ids : LevelIds) (tools : List SeedTool) → IsQuiet (load_tools ids tools)
unfolding load_tools unlocks
load_tools-IsQuiet ids [] = IsQuiet-pure tt
load_tools-IsQuiet ids (tool ∷ tools) =
    IsQuiet-bind (unlocks ids tool) _ (unlocks_named-IsQuiet ids tool tool.unlocks_at_level)
      (λ level.
        IsQuiet-bind (wrap (tool_failed tool.title) (exec (insert_tool (tool_input tool level)))) _
          (search quiet_rules) (λ _. load_tools-IsQuiet ids tools))

clear-IsQuiet : IsQuiet clear
unfolding clear
clear-IsQuiet = search quiet_rules depth 9

load_content-IsQuiet : (seed : SeedFile) → IsQuiet (load_content seed)
unfolding load_content
load_content-IsQuiet seed = IsQuiet-bind clear _ clear-IsQuiet (λ _.
    IsQuiet-bind (load_levels [] seed.levels) _ (load_levels-IsQuiet [] seed.levels)
      (λ ids. load_tools-IsQuiet ids seed.tools))

-- Whatever statements fail, on consistent tables load has either succeeded, for a file that can be
-- loaded, and left exactly its content, or has failed and changed no table.
pub load_all_or_nothing :
    (seed : SeedFile) (d : Db)
    → IsConsistent d.tables
    → let (r, d') = load seed d in
      (IsSeed seed × (r ≡ ok tt) × (d'.tables ≡ content seed d.tables))
      ⊎ (((e : SeedError) × (r ≡ err e)) × (d'.tables ≡ d.tables))
unfolding load
load_all_or_nothing seed d c = elim (Result-cases (load seed d).0) [
  | inl e ↦
      let ran =
        transaction-eq-ok transaction_failed (load_content seed) tt d (load_content-IsQuiet seed)
          e in
      let s = load_content-IsSeed seed d.tables d.now c (ap (λ r. r.0) ran) in
      inl (s, e, ap (λ r. r.1.tables) (sym ran ∙ load_content_runs seed d.tables d.now c s))
  | inr (e, h) ↦
      inr ((e, h), (IsAtomic-transaction transaction_failed (load_content seed)).unchanged d e h)
]
