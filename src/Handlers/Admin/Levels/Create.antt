-- ===== src/Handlers/Admin/Levels/Create.antt =====
-- AdminCreateLevel (internal/handlers/admin_levels.go): what is stored is what is read back.
use crypticquest_backend.Base.{
  ℕ, suc, ◌≡◌, refl, sym, ◌==◌, int_key, same_refl, String, pos, Bool, Option, none, some, List, [],
  ◌∷◌, ◌++◌, has, if◌then◌else◌, arith, inl, inr, Option-cases, first_where-append_one, has_next,
}
use mathlib.Core.List.{append-nil}
use crypticquest_backend.Schema.{LevelRow}
use crypticquest_backend.Engine.{Db, exec}
use crypticquest_backend.Store.Errors.{row_err, is_unique_violation}
use crypticquest_backend.Store.Levels.{
  AdminLevelInput, create_level, insert_level, map_level_write_err, admin_level_by_id, find_level,
}
use crypticquest_backend.Store.Integrity.{IsConsistent}
use crypticquest_backend.Http.{Response, response, json, fail, admin_level}
use crypticquest_backend.Handlers.Admin.{complaint}
use crypticquest_backend.Handlers.Admin.Levels.{admin_create_level, level_guards}

abbrev pub new_level : AdminLevelInput → ℕ → LevelRow
new_level new seq = record {
  id = pos (suc seq);
  order_index = new.order_index;
  title = new.title;
  description = new.description;
  flag = new.flag;
}

abbrev pub creation : AdminLevelInput → Option String → Bool → ℕ → Response
creation new (some msg) taken seq = fail 400 msg
creation new none taken seq =
    if taken
    then fail 409 "order_index already in use"
    else json 201 (admin_level (new_level new seq))

abbrev pub added : AdminLevelInput → Option String → Bool → ℕ → List LevelRow
added new (some msg) taken seq = []
added new none taken seq = if taken then [] else new_level new seq ∷ []

-- With no fault to come, on consistent tables, AdminCreateLevel answers 400 with the first complaint
-- about the body, 409 for an order_index that is taken, and otherwise 201 with the level as it reads
-- it back, which has the fields of the body and an id of its own; it adds that level in the last
-- case, and no level in the others.
pub admin_create_level_exact :
    (new : AdminLevelInput) (d : Db)
    → d.faults ≡ []
    → IsConsistent d.tables
    → let wrong = complaint (level_guards new) in
      let taken = has (λ l. l.order_index == new.order_index) d.tables.levels in
      (response (admin_create_level (some new) d).0 ≡ creation new wrong taken d.tables.level_seq)
      × ((admin_create_level (some new) d).1.tables.levels
          ≡ d.tables.levels ++ added new wrong taken d.tables.level_seq)
unfolding admin_create_level create_level insert_level map_level_write_err admin_level_by_id
    find_level exec row_err is_unique_violation
admin_create_level_exact new d quiet c =
    let same = append-nil d.tables.levels in
    let fresh_id = has_next (λ l. l.id) d.tables.level_seq d.tables.levels c.levels.2 in
    elim (Option-cases (complaint (level_guards new))) [
      | inr (msg, e) ↦ rw e (refl, sym same)
      | inl fine ↦ rw fine (
          ground (
            arith,
            same,
            first_where-append_one (λ l. l.id == pos (suc d.tables.level_seq)) d.tables.levels
                (new_level new d.tables.level_seq) fresh_id
                (same_refl (pos (suc d.tables.level_seq))),
          ))
    ]
