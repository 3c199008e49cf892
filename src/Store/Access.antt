-- ===== src/Store/Access.antt =====
-- The access gate of internal/store: IsLevelAccessible (progress.go) against the list of
-- ListAccessibleLevels (levels.go).
pub mod Next
pub mod Place
pub mod Rest
pub mod Edit
pub mod Count
pub mod Linear
pub mod Play
pub mod SetLevel
use crypticquest_backend.Base.{
  ℕ, ◌+◌, ◌≡◌, refl, ◌∙◌, ap, Bool, true, false, ◌==◌, int_key, ℤ, List, [], ◌∷◌, some, map, leb,
  has, order_by, take, IsUnique-Distinct, has-take-order_by, length, arith,
}
use crypticquest_backend.Schema.{Tables, LevelRow}
use crypticquest_backend.Engine.{Db, ok, exec}
use crypticquest_backend.Store.Errors.{StoreError}
use crypticquest_backend.Store.Users.{solved_count}
use crypticquest_backend.Store.Progress.{current_level, is_level_accessible, rank}
use crypticquest_backend.Store.Levels.{
  LevelListItem, list_accessible_levels, level_list_item, first_levels, find_level,
}
use crypticquest_backend.Store.Integrity.{IsConsistent}

-- What the gate and the list compute from the tables.
abbrev pub accessible : ℤ → ℤ → Tables → Bool
accessible user_id order_index t = leb (rank order_index t.levels) (solved_count t user_id + 1)

abbrev pub listed : ℤ → Tables → List LevelListItem
listed user_id t = map (level_list_item user_id t) (first_levels (solved_count t user_id + 1) t)

has-map {ℓ κ} :
    {A : Type ℓ} {B : Type κ} (f : A → B) (p : B → Bool) (xs : List A)
    → has p (map f xs) ≡ has (λ x. p (f x)) xs
has-map f p [] = refl
has-map f p (x ∷ xs) = ground (arith, has-map f p xs)

has-listed :
    (user_id id : ℤ) (t : Tables)
    → has (λ i. i.id == id) (listed user_id t)
      ≡ has (λ l. l.id == id) (first_levels (solved_count t user_id + 1) t)
unfolding level_list_item
has-listed user_id id t = has-map (level_list_item user_id t) (λ i. i.id == id) _

pub listed_iff_accessible :
    (user_id id : ℤ) (t : Tables) (l : LevelRow)
    → IsConsistent t
    → find_level id t ≡ some l
    → has (λ i. i.id == id) (listed user_id t) ≡ accessible user_id l.order_index t
unfolding first_levels find_level rank
listed_iff_accessible user_id id t l c e =
    has-listed user_id id t
    ∙ has-take-order_by (λ x. x.order_index) (λ x. x.id == id) t.levels l c.levels.1
        (IsUnique-Distinct (λ x. x.id) id t.levels c.levels.0) e (solved_count t user_id + 1)

-- With no fault to come, the list of levels and the gate both answer, and a level of a consistent
-- database is in the list exactly when the gate lets the user through to it.
pub list-eq-gate :
    (user_id id : ℤ) (d : Db) (l : LevelRow)
    → IsConsistent d.tables
    → d.faults ≡ []
    → find_level id d.tables ≡ some l
    → (items : List LevelListItem) × ((list_accessible_levels user_id d).0 ≡ ok items)
      × ((is_level_accessible user_id l.order_index d).0 ≡ ok (has (λ i. i.id == id) items))
unfolding list_accessible_levels is_level_accessible current_level exec
list-eq-gate user_id id d l c quiet e = (
  listed user_id d.tables,
  ground arith,
  ground (arith, listed_iff_accessible user_id id d.tables l c e),
)
