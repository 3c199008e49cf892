-- ===== src/Store/Access/Next.antt =====
-- The gate of IsLevelAccessible (internal/store/progress.go) is open at a level once every level
-- before it is solved, whatever else is.
use crypticquest_backend.Base.{
  ◌+◌, ◌≤◌, ◌≡◌, refl, sym, ◌∙◌, subst, Bool, true, false, ◌==◌, int_key, same_refl, ℤ, List, [],
  ◌∷◌, some, has, count_where, first_where, le→leb, All, All-mono₂, Bool-cases, inl, inr, ◌⊎◌,
  arith, int_leb, int_leb_antisym, All-first_where, Distinct, own_lookup,
}
use crypticquest_backend.Schema.{Tables, LevelRow}
use crypticquest_backend.Store.Progress.{has_progress, rank}
use crypticquest_backend.Store.Levels.{find_level}
use crypticquest_backend.Store.Integrity.{IsConsistent}
use crypticquest_backend.Store.Access.{accessible}
use crypticquest_backend.Store.Access.Linear.{is_before}
use crypticquest_backend.Store.Access.Count.{solved_count-eq-levels, count_where_none}

count_where-le :
    (p q r : LevelRow → Bool) (xs : List LevelRow)
    → All (λ m. p m ≡ true → (q m ≡ true) ⊎ (r m ≡ true)) xs
    → count_where p xs ≤ count_where q xs + count_where r xs
count_where-le p q r [] h = omega arith
count_where-le p q r (x ∷ xs) (k, h) = elim (Bool-cases (p x)) [
  | inr f ↦ rw f (ground (arith, count_where-le p q r xs h))
  | inl t ↦ elim (k t) [
    | inl a ↦ rw (t, a) (ground (arith, count_where-le p q r xs h))
    | inr b ↦ rw (t, b) (ground (arith, count_where-le p q r xs h))
  ]
]

count_id-le :
    (i : ℤ) (levels : List LevelRow)
    → Distinct (λ l. l.id) levels
    → count_where (λ m. m.id == i) levels ≤ 1
count_id-le i [] d = omega arith
count_id-le i (l ∷ ls) (q, d) = elim (Bool-cases (l.id == i)) [
  | inr f ↦ rw f (ground (arith, count_id-le i ls d))
  | inl t ↦
      let same : l.id ≡ i = (int_key.same_iff l.id i).0 t in
      rw t (
        ground (
          arith,
          count_where_none (λ m. m.id == i) ls
              (subst (λ j. has (λ y. y.id == j) ls ≡ false) same q),
        ))
]

-- A level up to `l` is `l` or stands before it.
pub before_or_same :
    (solved : LevelRow → Bool) (levels : List LevelRow) (l m : LevelRow)
    → first_where (λ x. x.order_index == l.order_index) levels ≡ some l
    → first_where (λ x. x.order_index == m.order_index) levels ≡ some m
    → (is_before m l ≡ true → solved m ≡ true)
    → int_leb m.order_index l.order_index ≡ true
    → (solved m ≡ true) ⊎ ((m.id == l.id) ≡ true)
before_or_same solved levels l m own_l own_m before up =
    elim (Bool-cases (int_leb l.order_index m.order_index)) [
      | inr f ↦ inl (before (rw f refl))
      | inl t ↦
          let order : m.order_index ≡ l.order_index =
            int_leb_antisym m.order_index l.order_index up t in
          let found : first_where (λ x. x.order_index == m.order_index) levels ≡ some l =
            subst (λ o. first_where (λ x. x.order_index == o) levels ≡ some l) (sym order) own_l in
          let same : m ≡ l = some_injective (sym own_m ∙ found) in
          inr (subst (λ x. (m.id == x.id) ≡ true) same (same_refl m.id))
    ]
  where
    some_injective : {a b : LevelRow} → some a ≡ some b → a ≡ b
    some_injective e = cc

pub accessible_after :
    (user_id : ℤ) (t : Tables) (l : LevelRow)
    → IsConsistent t
    → find_level l.id t ≡ some l
    → All (λ m. is_before m l ≡ true → has_progress user_id m.id t ≡ true) t.levels
    → accessible user_id l.order_index t ≡ true
unfolding rank find_level
accessible_after user_id t l c e before =
    let solved = λ (m : LevelRow). has_progress user_id m.id t in
    let own = own_lookup (λ m. m.order_index) t.levels c.levels.1 in
    let own_l = All-first_where _ (λ m. m.id == l.id) t.levels own e in
    let up_to =
      count_where-le (λ m. int_leb m.order_index l.order_index) solved (λ m. m.id == l.id) t.levels
        (All-mono₂ _ _ _ t.levels (λ m own_m b. before_or_same solved t.levels l m own_l own_m b)
          own before) in
    le→leb _ _ (
      omega
        (arith, up_to, count_id-le l.id t.levels c.levels.0, solved_count-eq-levels user_id t c))
