-- ===== src/Store/Integrity/Tools.antt =====
-- The statements of internal/store/hints.go and tools.go keep the constraints.
use crypticquest_backend.Base.{
  ℕ, ◌≡◌, refl, true, false, ◌==◌, string_key, int_key, ℤ, List, has, All, Bool, Bool-cases, inl,
  inr, ◌&&◌, not, arith, String, String, All-append_one, Distinct-append_one, has_next,
  All-IsGiven-suc, update_where, update_where_none, Distinct-rows_where, All-rows_where,
  All-update_where, Distinct-update_where, Option, none, some,
}
use crypticquest_backend.Schema.{Tables, ToolRow, HintRow}
use crypticquest_backend.Engine.Laws.{Leaves}
use crypticquest_backend.Store.Hints.{clear_hints, insert_hint}
use crypticquest_backend.Store.Tools.{
  ToolInput, set_tool, level_ref_exists, insert_tool, update_tool_rows, delete_tool_row,
}
use crypticquest_backend.Store.Integrity.{
  IsConsistent, AreHints, AreTools, HasLevel, HasLevelOrNull,
}

with_hints :
    (t : Tables) (seq : ℕ) (hints : List HintRow)
    → IsConsistent t
    → AreHints seq hints
    → All (λ x. HasLevel t.levels x.level_id) hints
    → IsConsistent (record t { hints = hints; hint_seq = seq })
with_hints t seq hints c d h = record {
  users = c.users;
  levels = c.levels;
  tools = c.tools;
  hints = d;
  progress = c.progress;
  tokens = c.tokens;
  session_users = c.session_users;
  progress_users = c.progress_users;
  progress_levels = c.progress_levels;
  hint_levels = h;
  tool_levels = c.tool_levels;
}

with_tools :
    (t : Tables) (seq : ℕ) (tools : List ToolRow)
    → IsConsistent t
    → AreTools seq tools
    → All (λ x. HasLevelOrNull t.levels x.unlocks_at_level_id) tools
    → IsConsistent (record t { tools = tools; tool_seq = seq })
with_tools t seq tools c d h = record {
  users = c.users;
  levels = c.levels;
  tools = d;
  hints = c.hints;
  progress = c.progress;
  tokens = c.tokens;
  session_users = c.session_users;
  progress_users = c.progress_users;
  progress_levels = c.progress_levels;
  hint_levels = c.hint_levels;
  tool_levels = h;
}

pub clear_hints-IsConsistent :
    (level_id : ℤ) (t : Tables) (now : ℕ)
    → IsConsistent t
    → Leaves IsConsistent (clear_hints level_id t now)
unfolding clear_hints
clear_hints-IsConsistent level_id t now c =
    with_hints t _ _ c
      (Distinct-rows_where (λ x. x.id) _ t.hints c.hints.0, All-rows_where _ _ t.hints c.hints.1)
      (All-rows_where _ _ t.hints c.hint_levels)

pub insert_hint-IsConsistent :
    (level_id order_index : ℤ) (text : String) (t : Tables) (now : ℕ)
    → IsConsistent t
    → Leaves IsConsistent (insert_hint level_id order_index text t now)
unfolding insert_hint
insert_hint-IsConsistent level_id order_index text t now c =
    elim (Bool-cases (has (λ l. l.id == level_id) t.levels)) [
      | inr missing ↦ rw missing tt
      | inl there ↦ rw there (
          with_hints t _ _ c
            (
              Distinct-append_one (λ x. x.id) t.hints _ c.hints.0
                  (has_next (λ x. x.id) t.hint_seq t.hints c.hints.1),
              All-append_one _ t.hints (All-IsGiven-suc (λ x. x.id) t.hint_seq t.hints c.hints.1)
                  (omega arith),
            )
            (All-append_one _ t.hints c.hint_levels there))
    ]

level_ref_exists→HasLevelOrNull :
    (o : Option ℤ) (t : Tables) → level_ref_exists o t ≡ true → HasLevelOrNull t.levels o
unfolding level_ref_exists
level_ref_exists→HasLevelOrNull none t h = tt
level_ref_exists→HasLevelOrNull (some id) t h = h

pub insert_tool-IsConsistent :
    (new : ToolInput) (t : Tables) (now : ℕ)
    → IsConsistent t
    → Leaves IsConsistent (insert_tool new t now)
unfolding insert_tool
insert_tool-IsConsistent new t now c =
    elim (Bool-cases (level_ref_exists new.unlocks_at_level_id t)) [
      | inr missing ↦ rw missing tt
      | inl there ↦ rw there (
          with_tools t _ _ c
            (
              Distinct-append_one (λ x. x.id) t.tools _ c.tools.0
                  (has_next (λ x. x.id) t.tool_seq t.tools c.tools.1),
              All-append_one _ t.tools (All-IsGiven-suc (λ x. x.id) t.tool_seq t.tools c.tools.1)
                  (omega arith),
            )
            (All-append_one _ t.tools c.tool_levels
              (level_ref_exists→HasLevelOrNull new.unlocks_at_level_id t there)))
    ]

-- The rows that an update meets are written only with a reference that exists.
updated_tool_levels :
    (id : ℤ) (new : ToolInput) (t : Tables)
    → (has (λ x. x.id == id) t.tools && not (level_ref_exists new.unlocks_at_level_id t)) ≡ false
    → All (λ x. HasLevelOrNull t.levels x.unlocks_at_level_id) t.tools
    → All
        (λ x. HasLevelOrNull t.levels x.unlocks_at_level_id)
        (update_where (λ x. x.id == id) (set_tool new) t.tools)
unfolding set_tool
updated_tool_levels id new t ok_ref h =
    elim (Bool-cases (level_ref_exists new.unlocks_at_level_id t)) [
      | inl there ↦
          All-update_where _ _ (λ x. x.id == id) _ t.tools (λ x _ g. g)
            (λ x _ _. level_ref_exists→HasLevelOrNull new.unlocks_at_level_id t there) h
      | inr missing ↦
          rw
            (update_where_none (λ x. x.id == id) (set_tool new) t.tools
              (absent (has (λ x. x.id == id) t.tools) (rw missing at ok_ref)))
            h
    ]
  where
    absent : (b : Bool) → (b && not false) ≡ false → b ≡ false
    absent true h = cc
    absent false h = refl

pub update_tool_rows-IsConsistent :
    (id : ℤ) (new : ToolInput) (t : Tables) (now : ℕ)
    → IsConsistent t
    → Leaves IsConsistent (update_tool_rows id new t now)
unfolding update_tool_rows
update_tool_rows-IsConsistent id new t now c =
    elim (Bool-cases
      (has (λ x. x.id == id) t.tools && not (level_ref_exists new.unlocks_at_level_id t))) [
        | inl bad ↦ rw bad tt
        | inr good ↦ rw good (
            with_tools t _ _ c
              (
                Distinct-update_where (λ x. x.id) _ _ t.tools (λ x. refl) c.tools.0,
                All-update_where _ _ (λ x. x.id == id) _ t.tools (λ x _ g. g) (λ x _ g. g)
                    c.tools.1,
              )
              (updated_tool_levels id new t good c.tool_levels))
      ]

pub delete_tool_row-IsConsistent :
    (id : ℤ) (t : Tables) (now : ℕ)
    → IsConsistent t
    → Leaves IsConsistent (delete_tool_row id t now)
unfolding delete_tool_row
delete_tool_row-IsConsistent id t now c =
    with_tools t _ _ c
      (Distinct-rows_where (λ x. x.id) _ t.tools c.tools.0, All-rows_where _ _ t.tools c.tools.1)
      (All-rows_where _ _ t.tools c.tool_levels)
