-- ===== src/Seed/Tools.antt =====
-- The loop of load (cmd/seed/main.go) over the tools of the file.
use mathlib.Core.List.{append_assoc, append-nil}
use crypticquest_backend.Base.{
  ℕ, suc, ◌+◌, ◌≡◌, refl, ◌∙◌, String, ◌==◌, string_key, int_key, ℤ, pos, Bool-cases, inl, inr,
  true, Option, Option-cases, none, some, List, [], ◌∷◌, ◌++◌, length, has, All, arith,
}
use crypticquest_backend.Schema.{Tables}
use crypticquest_backend.Engine.{Db, ok, exec, wrap, ◌>>◌}
use crypticquest_backend.Store.Tools.{insert_tool, level_ref_exists}
use crypticquest_backend.Seed.{
  SeedTool, LevelIds, level_id, load_tools, unlocks, unlocks_named, unknown_or, tool_failed,
  tool_input,
}
use crypticquest_backend.Seed.Content.{named_level, tool_row, tool_rows, IsKnown}
use crypticquest_backend.Engine.Quiet.{quiet_db, bind_runs, continue-eq-ok}

unlocks_named_runs :
    (ids : LevelIds) (tool : SeedTool) (o : Option String) (d : Db)
    → IsKnown (level_id ids) o
    → unlocks_named ids tool o d ≡ (ok (named_level (level_id ids) o), d)
unfolding unlocks_named unknown_or
unlocks_named_runs ids tool none d h = refl
unlocks_named_runs ids tool (some key) d h = elim (Bool-cases (key == "")) [
  | inl e ↦ rw e refl
  | inr e ↦ let (i, q) = h e in rw e (rw q refl)
]

unlocks_named-IsKnown :
    (ids : LevelIds) (tool : SeedTool) (o : Option String) (d : Db) (level : Option ℤ)
    → (unlocks_named ids tool o d).0 ≡ ok level
    → IsKnown (level_id ids) o
unfolding unlocks_named unknown_or
unlocks_named-IsKnown ids tool none d level h = tt
unlocks_named-IsKnown ids tool (some key) d level h = λ e. elim (Option-cases (level_id ids key)) [
  | inl q ↦ absurd (cc (rw q at (rw e at h)))
  | inr (i, q) ↦ (i, q)
]

-- The ids that are remembered are those of levels.
abbrev pub AreLevelIds : LevelIds → Tables → Type 0
AreLevelIds ids t =
    (key : String) (i : ℤ) → level_id ids key ≡ some i → has (λ l. l.id == i) t.levels ≡ true

named_level_exists :
    (ids : LevelIds) (o : Option String) (t : Tables)
    → AreLevelIds ids t
    → IsKnown (level_id ids) o
    → level_ref_exists (named_level (level_id ids) o) t ≡ true
unfolding level_ref_exists
named_level_exists ids none t there h = refl
named_level_exists ids (some key) t there h = elim (Bool-cases (key == "")) [
  | inl e ↦ rw e refl
  | inr e ↦ let (i, q) = h e in rw e (rw q (there key i q))
]

abbrev pub with_tools : LevelIds → Tables → List SeedTool → Tables
with_tools ids t tools = record t {
  tools = t.tools ++ tool_rows (level_id ids) t.tool_seq tools;
  tool_seq = t.tool_seq + length tools;
}

abbrev with_tool : LevelIds → Tables → SeedTool → Tables
with_tool ids t tool = record t {
  tools = t.tools ++ tool_row (level_id ids) t.tool_seq tool ∷ [];
  tool_seq = suc t.tool_seq;
}

insert_runs :
    (ids : LevelIds) (tool : SeedTool) (t : Tables) (now : ℕ)
    → level_ref_exists (named_level (level_id ids) tool.unlocks_at_level) t ≡ true
    → wrap
        (tool_failed tool.title)
        (exec (insert_tool (tool_input tool (named_level (level_id ids) tool.unlocks_at_level))))
        (quiet_db t now)
      ≡ (ok (pos (suc t.tool_seq)), quiet_db (with_tool ids t tool) now)
unfolding exec insert_tool
insert_runs ids tool t now h = ground arith

pub load_tools_runs :
    (ids : LevelIds) (tools : List SeedTool) (t : Tables) (now : ℕ)
    → AreLevelIds ids t
    → All (λ tool. IsKnown (level_id ids) tool.unlocks_at_level) tools
    → load_tools ids tools (quiet_db t now) ≡ (ok tt, quiet_db (with_tools ids t tools) now)
unfolding load_tools unlocks
load_tools_runs ids [] t now there h = ground (arith, append-nil t.tools)
load_tools_runs ids (tool ∷ tools) t now there (p, h) =
    let level = named_level (level_id ids) tool.unlocks_at_level in
    bind_runs (unlocks ids tool)
      (λ o.
        wrap (tool_failed tool.title) (exec (insert_tool (tool_input tool o)))
        >> load_tools ids tools)
      (unlocks_named_runs ids tool tool.unlocks_at_level (quiet_db t now) p)
    ∙ bind_runs (wrap (tool_failed tool.title) (exec (insert_tool (tool_input tool level))))
        (λ _. load_tools ids tools)
        (insert_runs ids tool t now (named_level_exists ids tool.unlocks_at_level t there p))
    ∙ load_tools_runs ids tools (with_tool ids t tool) now there h
    ∙ ground (
      arith,
      append_assoc t.tools (tool_row (level_id ids) t.tool_seq tool ∷ [])
          (tool_rows (level_id ids) (suc t.tool_seq) tools),
    )

pub load_tools-IsKnown :
    (ids : LevelIds) (tools : List SeedTool) (d : Db)
    → (load_tools ids tools d).0 ≡ ok tt
    → All (λ tool. IsKnown (level_id ids) tool.unlocks_at_level) tools
unfolding load_tools unlocks
load_tools-IsKnown ids [] d h = tt
load_tools-IsKnown ids (tool ∷ tools) d h =
    let (level, e, h₁) = continue-eq-ok (unlocks ids tool d).0 _ (unlocks ids tool d).1 tt h in
    let added =
      wrap (tool_failed tool.title) (exec (insert_tool (tool_input tool level)))
        (unlocks ids tool d).1 in
    let (_, _, h₂) = continue-eq-ok added.0 (λ _. load_tools ids tools) added.1 tt h₁ in
    (
      unlocks_named-IsKnown ids tool tool.unlocks_at_level d level e,
      load_tools-IsKnown ids tools added.1 h₂,
    )
