-- ===== src/Store/Access/Rest.antt =====
-- The levels that are still to be played, in the order of internal/store/levels.go.
use crypticquest_backend.Base.{
  ◌≡◌, refl, sym, ◌∙◌, subst, Bool, Bool-cases, true, false, not, ◌||◌, ◌==◌, int_key, some, List,
  [], ◌∷◌, has, first_where, All, All-mono, All-mono₂, int_leb, int_leb_refl, int_leb_total, inl,
  inr, arith,
}
use crypticquest_backend.Schema.{LevelRow}
use crypticquest_backend.Store.Access.Linear.{is_before}

module _ (levels : List LevelRow) where
  -- A row of the table, by its id.
  abbrev pub IsRow : LevelRow → Type 0
  IsRow r = first_where (λ x. x.id == r.id) levels ≡ some r

  some_injective : {a b : LevelRow} → some a ≡ some b → a ≡ b
  some_injective e = cc

  differs :
      (r m l : LevelRow)
      → IsRow r
      → IsRow m
      → int_leb l.order_index r.order_index ≡ true
      → int_leb l.order_index m.order_index ≡ false
      → (r.id == m.id) ≡ false
  differs r m l row_r row_m up down = elim (Bool-cases (r.id == m.id)) [
    | inr f ↦ f
    | inl t ↦
        let id : r.id ≡ m.id = (int_key.same_iff r.id m.id).0 t in
        let found : first_where (λ x. x.id == r.id) levels ≡ some m =
          subst (λ i. first_where (λ x. x.id == i) levels ≡ some m) (sym id) row_m in
        let same : r ≡ m = some_injective (sym row_r ∙ found) in
        absurd (cc (sym (subst (λ x. int_leb l.order_index x.order_index ≡ true) same up) ∙ down))
  ]

  -- No level from `l` on stands before `l`.
  not_left :
      (l m : LevelRow) (rest : List LevelRow)
      → IsRow m
      → All IsRow rest
      → All (λ r. int_leb l.order_index r.order_index ≡ true) rest
      → int_leb l.order_index m.order_index ≡ false
      → has (λ r. r.id == m.id) rest ≡ false
  not_left l m [] row_m rows up down = refl
  not_left l m (r ∷ rest) row_m (row_r, rows) (u, up) down =
      rw (differs r m l row_r row_m u down) (not_left l m rest row_m rows up down)

  pub before_solved :
      (solved : LevelRow → Bool) (l : LevelRow) (rest : List LevelRow)
      → All IsRow levels
      → All IsRow (l ∷ rest)
      → All (λ r. int_leb r.order_index l.order_index ≡ false) rest
      → All (λ m. has (λ r. r.id == m.id) (l ∷ rest) ≡ false → solved m ≡ true) levels
      → All (λ m. is_before m l ≡ true → solved m ≡ true) levels
  before_solved solved l rest own rows above done =
      All-mono₂ _ _ _ levels
        (λ m row_m d b. d (
          not_left l m (l ∷ rest) row_m rows
            (
              int_leb_refl l.order_index,
              All-mono _ _ rest (λ r a. int_leb_total r.order_index l.order_index a) above,
            )
            (not_true _ b)))
        own done
    where
      not_true : (b : Bool) → not b ≡ true → b ≡ false
      not_true b h = ground arith

  -- With `l` solved.
  pub done_after :
      (solved solved' : LevelRow → Bool) (l : LevelRow) (rest : List LevelRow)
      → ((m : LevelRow) → solved' m ≡ (solved m || (l.id == m.id)))
      → All (λ m. has (λ r. r.id == m.id) (l ∷ rest) ≡ false → solved m ≡ true) levels
      → All (λ m. has (λ r. r.id == m.id) rest ≡ false → solved' m ≡ true) levels
  done_after solved solved' l rest same done =
      All-mono _ _ levels (λ m d out. ground (arith, same m, d)) done
