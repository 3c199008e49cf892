-- ===== src/Tests/Access.antt =====
-- The store's theorems at the database of the tests.
use crypticquest_backend.Base.{
  ℤ, ◌≡◌, refl, pos, true, false, not, ◌||◌, List, [], ◌∷◌, has, int_eq, int_leb, int_key, ◌==◌,
}
use mathlib.Core.Bool.{false≢true}
use crypticquest_backend.Schema.{Tables, fresh}
use crypticquest_backend.Engine.{Db, ok, exec, transaction, failure}
use crypticquest_backend.Store.Errors.{database}
use crypticquest_backend.Store.Users.{solved_count}
use crypticquest_backend.Store.Progress.{is_level_accessible, has_progress, rank}
use crypticquest_backend.Store.Levels.{LevelListItem, list_accessible_levels, find_level}
use crypticquest_backend.Store.Hints.{replace_hints, insert_hints, clear_hints}
use crypticquest_backend.Store.Integrity.{IsConsistent}
use crypticquest_backend.Store.Access.{accessible, list-eq-gate}
use crypticquest_backend.Store.Access.Linear.{IsLinear, gap_before, accessible_iff_next}
use crypticquest_backend.Store.Progress.{set_user_progress_to_level}
use crypticquest_backend.Store.Access.SetLevel.{solved_after, set_level_exact}
use crypticquest_backend.Store.Write.{Write, perform}
use crypticquest_backend.Store.Write.Integrity.{Reach, Reach-IsConsistent}
use crypticquest_backend.Store.Write.Atomic.{perform_atomic}
use crypticquest_backend.Tests.{db, tables, tables-IsConsistent, gate_level, tower_level, ada}

list-eq-gate_example :
    (items : List LevelListItem) × ((list_accessible_levels (pos 2) db).0 ≡ ok items)
    × ((is_level_accessible (pos 2) (pos 30) db).0 ≡ ok (has (λ i. i.id == pos 3) items))
unfolding find_level int_eq
list-eq-gate_example = list-eq-gate (pos 2) (pos 3) db tower_level tables-IsConsistent refl refl

pub ada_IsLinear : IsLinear (pos 2) tables
unfolding has_progress int_eq int_leb
ada_IsLinear = (
  (λ s. absurd (false≢true s)),
  ((λ s. ((λ b. b), ((λ b. refl), ((λ b. b), tt)))), ((λ s. absurd (false≢true s)), tt)),
)

accessible_iff_next_example : accessible (pos 2) (pos 20) tables ≡ (
    has_progress (pos 2) (pos 1) tables
    || not (gap_before (λ m. has_progress (pos 2) m.id tables) gate_level tables.levels))
unfolding find_level int_eq
accessible_iff_next_example =
    accessible_iff_next (pos 2) (pos 1) tables gate_level tables-IsConsistent ada_IsLinear refl

-- Ada may go on to Gate, and not yet to Tower.
next_only :
    (accessible (pos 2) (pos 20) tables ≡ true) × (accessible (pos 2) (pos 30) tables ≡ false)
unfolding rank solved_count int_eq int_leb
next_only = (refl, refl)

-- A transaction whose third statement fails, after the hints were deleted.
abbrev failing : Db
failing = record db { faults = false ∷ false ∷ false ∷ true ∷ [] }

perform_atomic_example :
    (perform (Write.replace_hints (pos 1) ("new" ∷ [])) failing).1.tables ≡ tables
unfolding perform replace_hints transaction exec insert_hints find_level clear_hints int_eq
perform_atomic_example =
    perform_atomic (Write.replace_hints (pos 1) ("new" ∷ [])) failing (database failure) refl

abbrev start : Db
start = record { tables = fresh; now = 50; faults = false ∷ true ∷ [] }

abbrev first_write : Write
first_write = Write.create_user "ada" "h"

abbrev second_write : Write
second_write = Write.ensure_admin "root" "h"

Reach-IsConsistent_example :
    IsConsistent (perform second_write (perform first_write start).1).1.tables
Reach-IsConsistent_example =
    Reach-IsConsistent 50 (false ∷ true ∷ []) (perform second_write (perform first_write start).1).1
      (Reach.write second_write (Reach.write first_write Reach.here))

-- Two new levels before Door, which Ada has solved, lock it for her: the gate counts.
abbrev with_new_levels : Tables
with_new_levels = record tables {
  levels =
      record gate_level { id = pos 4; order_index = pos 5 }
      ∷ record gate_level { id = pos 5; order_index = pos 6 }
      ∷ tables.levels;
}

solved_but_locked :
    (has_progress (pos 2) (pos 2) with_new_levels ≡ true)
    × (accessible (pos 2) (pos 10) with_new_levels ≡ false)
unfolding rank solved_count has_progress int_eq int_leb
solved_but_locked = (refl, refl)

set_level_exact_example :
    let (r, d') = set_user_progress_to_level (pos 2) (pos 3) db in
    (r ≡ ok tt)
    × ((v i : ℤ) → has_progress v i d'.tables ≡ solved_after (pos 2) 2 tables v i)
    × (d'.tables.levels ≡ tables.levels)
    × IsLinear (pos 2) d'.tables
unfolding int_eq
set_level_exact_example = set_level_exact (pos 2) 2 db ada tables-IsConsistent refl refl
