-- ===== src/Store/Integrity/Levels.antt =====
-- The statements of internal/store/levels.go keep the constraints.
use crypticquest_backend.Base.{
  ℕ, suc, ◌≡◌, refl, ◌∙◌, true, false, ◌==◌, string_key, int_key, int_eq_iff, ℤ, pos, List, [], ◌∷◌,
  ◌++◌, has, IsGiven, Bool, Bool-cases, inl, inr, ◌&&◌, not, arith, All-append_one,
  Distinct-append_one, has_next, All-IsGiven-suc, All-mono, has-append_one, rows_without,
  update_where, update_where_none, ◌⊎◌, Distinct-rows_where, All-rows_where, All-rows_where_with,
  has-rows_where_eq, has-update_where, All-update_where, Distinct-update_where, Distinct-set_key,
  IsUnique-Distinct, Option, none, some,
}
use crypticquest_backend.Schema.{Tables, LevelRow}
use crypticquest_backend.Engine.Laws.{Leaves}
use crypticquest_backend.Store.Levels.{
  AdminLevelInput, set_level, insert_level, update_level_rows, delete_level_row, unlocks_at,
}
use crypticquest_backend.Store.Integrity.{
  IsConsistent, AreLevels, HasLevel, HasLevelOrNull, pair, pair_key,
}

AreLevels-append_one :
    (seq : ℕ) (levels : List LevelRow) (l : LevelRow)
    → l.id ≡ pos (suc seq)
    → has (λ x. x.order_index == l.order_index) levels ≡ false
    → AreLevels seq levels
    → AreLevels (suc seq) (levels ++ l ∷ [])
AreLevels-append_one seq levels l e new (ids, orders, given) = (
  Distinct-append_one (λ x. x.id) levels l ids (rw e (has_next (λ x. x.id) seq levels given)),
  Distinct-append_one (λ x. x.order_index) levels l orders new,
  All-append_one (λ x. IsGiven (suc seq) x.id) levels (All-IsGiven-suc (λ x. x.id) seq levels given)
      (rw e (omega arith)),
)

HasLevel-append_one :
    (levels : List LevelRow) (l : LevelRow) (id : ℤ)
    → HasLevel levels id
    → HasLevel (levels ++ l ∷ []) id
HasLevel-append_one levels l id h = rw (has-append_one (λ x. x.id == id) levels l) (ground arith)

-- What keeps the ids of the levels keeps the references to them.
HasLevelOrNull-kept :
    (levels levels' : List LevelRow)
    → ((id : ℤ) → HasLevel levels id → HasLevel levels' id)
    → (o : Option ℤ) → HasLevelOrNull levels o
    → HasLevelOrNull levels' o
HasLevelOrNull-kept levels levels' kept none h = tt
HasLevelOrNull-kept levels levels' kept (some id) h = kept id h

-- A statement that writes the levels and keeps their ids.
with_levels :
    (t : Tables) (seq : ℕ) (levels : List LevelRow)
    → IsConsistent t
    → AreLevels seq levels
    → ((id : ℤ) → HasLevel t.levels id → HasLevel levels id)
    → IsConsistent (record t { levels = levels; level_seq = seq })
with_levels t seq levels c d kept = record {
  users = c.users;
  levels = d;
  tools = c.tools;
  hints = c.hints;
  progress = c.progress;
  tokens = c.tokens;
  session_users = c.session_users;
  progress_users = c.progress_users;
  progress_levels = All-mono _ _ t.user_progress (λ p. kept p.level_id) c.progress_levels;
  hint_levels = All-mono _ _ t.hints (λ x. kept x.level_id) c.hint_levels;
  tool_levels =
      All-mono _ _ t.tools (λ x. HasLevelOrNull-kept t.levels levels kept x.unlocks_at_level_id)
        c.tool_levels;
}

pub insert_level-IsConsistent :
    (new : AdminLevelInput) (t : Tables) (now : ℕ)
    → IsConsistent t
    → Leaves IsConsistent (insert_level new t now)
unfolding insert_level
insert_level-IsConsistent new t now c =
    elim (Bool-cases (has (λ l. l.order_index == new.order_index) t.levels)) [
      | inl taken ↦ rw taken tt
      | inr free ↦ rw free (
          with_levels t _ _ c (AreLevels-append_one t.level_seq t.levels _ refl free c.levels)
            (HasLevel-append_one t.levels _))
    ]

no_row_to_update :
    (id : ℤ) (other : LevelRow → Bool) (f : LevelRow → LevelRow) (t : Tables)
    → ((has (λ l. l.id == id) t.levels && has other t.levels) ≡ false)
    → (update_where (λ l. l.id == id) f t.levels ≡ t.levels) ⊎ (has other t.levels ≡ false)
no_row_to_update id other f t h = elim (Bool-cases (has (λ l. l.id == id) t.levels)) [
  | inl there ↦ inr (rw there at h)
  | inr absent ↦ inl (update_where_none (λ l. l.id == id) f t.levels absent)
]

updated_levels :
    (id : ℤ) (new : AdminLevelInput) (t : Tables)
    → AreLevels t.level_seq t.levels
    → (update_where (λ l. l.id == id) (set_level new) t.levels ≡ t.levels)
      ⊎ (has (λ l. not (l.id == id) && (l.order_index == new.order_index)) t.levels ≡ false)
    → AreLevels t.level_seq (update_where (λ l. l.id == id) (set_level new) t.levels)
unfolding set_level
updated_levels id new t c (inl same) = rw same c
updated_levels id new t (ids, orders, given) (inr free) = (
  Distinct-update_where (λ l. l.id) (λ l. l.id == id) _ t.levels (λ l. refl) ids,
  Distinct-set_key (λ l. l.order_index) (λ l. l.id == id) _ new.order_index t.levels (λ l. refl)
      free (IsUnique-Distinct (λ l. l.id) id t.levels ids) orders,
  All-update_where _ _ (λ l. l.id == id) _ t.levels (λ l _ g. g) (λ l _ g. g) given,
)

pub update_level_rows-IsConsistent :
    (id : ℤ) (new : AdminLevelInput) (t : Tables) (now : ℕ)
    → IsConsistent t
    → Leaves IsConsistent (update_level_rows id new t now)
unfolding update_level_rows
update_level_rows-IsConsistent id new t now c =
    let other = λ (l : LevelRow). not (l.id == id) && (l.order_index == new.order_index) in
    elim (Bool-cases (has (λ l. l.id == id) t.levels && has other t.levels)) [
      | inl taken ↦ rw taken tt
      | inr free ↦ rw free (
          with_levels t _ _ c
            (updated_levels id new t c.levels (no_row_to_update id other (set_level new) t free))
            (λ i h.
              has-update_where (λ l. l.id == i) (λ l. l.id == id) (set_level new) t.levels
                (λ l. refl)
              ∙ h))
    ]

HasLevel-rows_without :
    (levels : List LevelRow) (id i : ℤ)
    → not (i == id) ≡ true
    → HasLevel levels i
    → HasLevel (rows_without (λ l. l.id == id) levels) i
HasLevel-rows_without levels id i ne h =
    has-rows_where_eq (λ l. l.id == i) (λ l. not (l.id == id)) levels
      (λ l e. rw ((int_eq_iff l.id i).0 e) ne)
    ∙ h

-- A tool that the deleted level does not unlock keeps its reference.
tool_after_delete :
    (levels : List LevelRow) (id : ℤ) (o : Option ℤ)
    → (elim o [ none ↦ false | some l ↦ l == id ]) ≡ false
    → HasLevelOrNull levels o
    → HasLevelOrNull (rows_without (λ l. l.id == id) levels) o
tool_after_delete levels id none e h = tt
tool_after_delete levels id (some l) e h = HasLevel-rows_without levels id l (rw e) h

-- The tables after the deletion of a level that exists.
abbrev deleted_level : ℤ → Tables → Tables
deleted_level id t = record t {
  levels = rows_without (λ l. l.id == id) t.levels;
  hints = rows_without (λ x. x.level_id == id) t.hints;
  user_progress = rows_without (λ p. p.level_id == id) t.user_progress;
  tools = update_where (unlocks_at id) (λ x. record x { unlocks_at_level_id = none }) t.tools;
}

-- A row is deleted.
delete_level_row_deleted :
    (id : ℤ) (t : Tables) → IsConsistent t → IsConsistent (deleted_level id t)
unfolding unlocks_at
delete_level_row_deleted id t c = record {
  users = c.users;
  levels = (
    Distinct-rows_where (λ l. l.id) _ t.levels c.levels.0,
    Distinct-rows_where (λ l. l.order_index) _ t.levels c.levels.1,
    All-rows_where _ _ t.levels c.levels.2,
  );
  tools = (
    Distinct-update_where (λ x. x.id) _ _ t.tools (λ x. refl) c.tools.0,
    All-update_where _ _ (unlocks_at id) _ t.tools (λ x _ g. g) (λ x _ g. g) c.tools.1,
  );
  hints =
      (Distinct-rows_where (λ x. x.id) _ t.hints c.hints.0, All-rows_where _ _ t.hints c.hints.1);
  progress = (
    Distinct-rows_where (λ p. p.id) _ t.user_progress c.progress.0,
    Distinct-rows_where pair _ t.user_progress c.progress.1,
    All-rows_where _ _ t.user_progress c.progress.2,
  );
  tokens = c.tokens;
  session_users = c.session_users;
  progress_users = All-rows_where _ _ t.user_progress c.progress_users;
  progress_levels =
      All-rows_where_with _ _ _ t.user_progress (λ p. HasLevel-rows_without t.levels id p.level_id)
        c.progress_levels;
  hint_levels =
      All-rows_where_with _ _ _ t.hints (λ x. HasLevel-rows_without t.levels id x.level_id)
        c.hint_levels;
  tool_levels =
      All-update_where _ _ (unlocks_at id) _ t.tools
        (λ x e h. tool_after_delete t.levels id x.unlocks_at_level_id e h) (λ x _ _. tt)
        c.tool_levels;
}

pub delete_level_row-IsConsistent :
    (id : ℤ) (t : Tables) (now : ℕ)
    → IsConsistent t
    → Leaves IsConsistent (delete_level_row id t now)
unfolding delete_level_row unlocks_at
delete_level_row-IsConsistent id t now c = elim (Bool-cases (has (λ l. l.id == id) t.levels)) [
  | inl there ↦ rw there (delete_level_row_deleted id t c)
  | inr missing ↦ rw missing c
]
