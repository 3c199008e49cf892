-- ===== src/Handlers/Player/Submit/Sound.antt =====
-- What a submission knows between two of its statements (internal/handlers/submit.go).
use crypticquest_backend.Base.{
  ◌⊎◌, ℕ, ◌+◌, ◌≤◌, ◌≡◌, refl, ◌∙◌, subst, Bool, Bool-cases, true, false, inl, inr, int_key, ℤ,
  String, Option, some, none, leb, le→leb, leb→le, if◌then◌else◌, arith,
}
use crypticquest_backend.Schema.{Tables, LevelRow}
use crypticquest_backend.Engine.{Result, ok, err, SqlError}
use crypticquest_backend.Engine.Laws.{Leaves}
use crypticquest_backend.Store.Users.{solved_count}
use crypticquest_backend.Store.Progress.{rank, insert_or_ignore_progress, insert_progress}
use crypticquest_backend.Store.Levels.{find_level}
use crypticquest_backend.Store.Integrity.{IsConsistent}
use crypticquest_backend.Store.Integrity.Progress.{insert_or_ignore_progress-IsConsistent}
use crypticquest_backend.Store.Access.{accessible}
use crypticquest_backend.Store.Access.Linear.{IsLinear}
use crypticquest_backend.Store.Access.Play.{IsLinear-insert}
use crypticquest_backend.Store.Write.Gone.{IsGone, has_progress-IsGone}
use crypticquest_backend.Handlers.Player.Submit.Grows.{Grows, Grows-refl, insert-Grows}
use crypticquest_backend.Text.{LowerTable}
use crypticquest_backend.Handlers.Player.{is_correct}
use crypticquest_backend.Handlers.Player.Submit.Interleaved.{
  Phase, asked, found, counted, passed, answered, looked_up, written, advance,
}

-- What a submission knows is still so, or was and can only have become more, unless the account is gone.
abbrev pub IsSound : Tables → Phase → Type 0
IsSound t (asked u i answer) = Unit
IsSound t (found u i answer order flag) =
    (l : LevelRow) × (find_level i t ≡ some l) × (l.order_index ≡ order)
IsSound t (counted u i answer order flag current) =
    IsGone u t
    ⊎ ((l : LevelRow) × (find_level i t ≡ some l)
        × (l.order_index ≡ order)
        × (current ≤ solved_count t u + 1))
IsSound t (passed u i answer flag) =
    IsGone u t
    ⊎ ((l : LevelRow) × (find_level i t ≡ some l) × (accessible u l.order_index t ≡ true))
IsSound t answered = Unit

find_level-same : (i : ℤ) (t t' : Tables) → t'.levels ≡ t.levels → find_level i t' ≡ find_level i t
unfolding find_level
find_level-same i t t' e = rw e refl

accessible-more :
    (u order : ℤ) (t t' : Tables)
    → t'.levels ≡ t.levels
    → solved_count t u ≤ solved_count t' u
    → accessible u order t ≡ true
    → accessible u order t' ≡ true
unfolding rank solved_count
accessible-more u order t t' e more h = rw e (le→leb _ _ (omega (arith, leb→le _ _ h, more)))

pub IsSound-Grows : (t t' : Tables) (p : Phase) → Grows t t' → IsSound t p → IsSound t' p
IsSound-Grows t t' (asked u i answer) g h = tt
IsSound-Grows t t' (found u i answer order flag) g (l, e, o) =
    (l, find_level-same i t t' g.0 ∙ e, o)
IsSound-Grows t t' (counted u i answer order flag current) (same, more, gone) (inl away) =
    inl (gone u away)
IsSound-Grows t t' (counted u i answer order flag current) (same, more, gone) (inr (l, e, o, k)) =
    elim (more u) [
      | inl away ↦ inl away
      | inr n ↦ inr (l, find_level-same i t t' same ∙ e, o, omega arith)
    ]
IsSound-Grows t t' (passed u i answer flag) (same, more, gone) (inl away) = inl (gone u away)
IsSound-Grows t t' (passed u i answer flag) (same, more, gone) (inr (l, e, a)) = elim (more u) [
  | inl away ↦ inl away
  | inr n ↦ inr (l, find_level-same i t t' same ∙ e, accessible-more u l.order_index t t' same n a)
]
IsSound-Grows t t' answered g h = tt

-- What holds between any two statements.
pub record IsPlay (t : Tables) : Type 0 where
  pub consistent : IsConsistent t
  pub linear : (v : ℤ) → IsLinear v t

-- The insert of a submission that the gate has let through.
written-IsPlay :
    (u i : ℤ) (t : Tables) (now : ℕ) (l : LevelRow) (r : Result SqlError (Unit {0} × Tables))
    → insert_or_ignore_progress u i t now ≡ r
    → find_level i t ≡ some l
    → accessible u l.order_index t ≡ true
    → IsPlay t
    → IsPlay (written t r) × Grows t (written t r)
unfolding written
written-IsPlay u i t now l (err e) h found_level open_gate s = (s, Grows-refl t)
written-IsPlay u i t now l (ok (_, t')) h found_level open_gate s = (
  record {
    consistent =
        subst (Leaves IsConsistent) h
          (insert_or_ignore_progress-IsConsistent u i t now s.consistent);
    linear = λ v.
        IsLinear-insert u i t l now t' s.consistent found_level open_gate h (s.linear u) v
          (s.linear v);
  },
  insert-Grows u i t now t' h,
)

-- The insert for an account that is gone fails.
written-gone :
    (u i : ℤ) (t : Tables) (now : ℕ)
    → IsConsistent t
    → IsGone u t
    → written t (insert_or_ignore_progress u i t now) ≡ t
unfolding written insert_or_ignore_progress insert_progress
written-gone u i t now c g = rw (has_progress-IsGone u i t c g) (rw g.0 refl)

-- What a statement keeps.
abbrev Keeps : Tables → Tables × Phase → Type 0
Keeps t (t', p') = IsPlay t' × Grows t t' × IsSound t' p'

looked_up-IsSound :
    (u i : ℤ) (answer : String) (t : Tables) (r : Option LevelRow)
    → find_level i t ≡ r
    → IsSound t (looked_up u i answer r)
unfolding looked_up
looked_up-IsSound u i answer t none e = tt
looked_up-IsSound u i answer t (some l) e = (l, e, refl)

let_through-IsSound :
    (u i : ℤ) (answer flag : String) (t : Tables) (l : LevelRow) (current : ℕ) (b : Bool)
    → leb (rank l.order_index t.levels) current ≡ b
    → find_level i t ≡ some l
    → current ≤ solved_count t u + 1
    → IsSound t (if b then passed u i answer flag else answered)
unfolding rank solved_count
let_through-IsSound u i answer flag t l current false e found_level k = tt
let_through-IsSound u i answer flag t l current true e found_level k =
    inr (l, found_level, le→leb _ _ (omega (arith, leb→le _ _ e, k)))

let_through-gone :
    (u i : ℤ) (answer flag : String) (t : Tables) (b : Bool)
    → IsGone u t
    → IsSound t (if b then passed u i answer flag else answered)
let_through-gone u i answer flag t true g = inl g
let_through-gone u i answer flag t false g = tt

pub advance-Keeps :
    (table : LowerTable) (now : ℕ) (t : Tables) (p : Phase)
    → IsPlay t
    → IsSound t p
    → Keeps t (advance table now t p)
unfolding advance solved_count rank
advance-Keeps table now t (asked u i answer) s h =
    (s, Grows-refl t, looked_up-IsSound u i answer t (find_level i t) refl)
advance-Keeps table now t (found u i answer order flag) s (l, e, o) =
    (s, Grows-refl t, inr (l, e, o, omega arith))
advance-Keeps table now t (counted u i answer order flag current) s (inl g) =
    (s, Grows-refl t, let_through-gone u i answer flag t (leb (rank order t.levels) current) g)
advance-Keeps table now t (counted u i answer order flag current) s (inr (l, e, o, k)) = (
  s,
  Grows-refl t,
  subst
      (λ x. IsSound t (if leb (rank x t.levels) current then passed u i answer flag else answered))
      o (let_through-IsSound u i answer flag t l current _ refl e k),
)
advance-Keeps table now t (passed u i answer flag) s (inl g) =
    elim (Bool-cases (is_correct table answer flag)) [
      | inl right ↦ rw right (rw (written-gone u i t now s.consistent g) (s, Grows-refl t, tt))
      | inr wrong ↦ rw wrong (s, Grows-refl t, tt)
    ]
advance-Keeps table now t (passed u i answer flag) s (inr (l, e, a)) =
    elim (Bool-cases (is_correct table answer flag)) [
      | inl right ↦ rw right (let (s', g) = written-IsPlay u i t now l _ refl e a s in (s', g, tt))
      | inr wrong ↦ rw wrong (s, Grows-refl t, tt)
    ]
advance-Keeps table now t answered s h = (s, Grows-refl t, tt)
