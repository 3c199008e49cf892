-- ===== src/Store/Access/Edit.antt =====
-- Which writes of internal/store keep play linear.
use crypticquest_backend.Base.{
  ℕ, suc, ◌≡◌, refl, sym, ◌∙◌, subst, subst₂, Bool, Bool-cases, true, false, not, ◌&&◌, ◌==◌,
  int_key, int_eq_iff, ℤ, pos, List, [], ◌∷◌, ◌++◌, some, has, has-All, has_next, rows_without,
  update_where, All, All-mono, All-mono₂, All-append_one, All-update_where, int_leb, int_leb_total,
  inl, inr, arith,
}
use crypticquest_backend.Schema.{Tables, LevelRow, ProgressRow}
use crypticquest_backend.Engine.{Result, SqlError, ok, err}
use crypticquest_backend.Engine.Laws.{Leaves}
use crypticquest_backend.Store.Users.{delete_user_row}
use crypticquest_backend.Store.Progress.{has_progress, insert_or_ignore_progress}
use crypticquest_backend.Store.Levels.{
  AdminLevelInput, find_level, insert_level, update_level_rows, set_level, delete_level_row,
}
use crypticquest_backend.Store.Integrity.{IsConsistent}
use crypticquest_backend.Store.Access.{accessible}
use crypticquest_backend.Store.Access.Count.{solved_in}
use crypticquest_backend.Store.Access.Linear.{IsLinear, AreLinear, is_before}
use crypticquest_backend.Store.Access.Play.{IsLinear-insert, IsLinear-delete, AreLinear-congr}

-- Everybody has played linearly.
abbrev pub IsPlayed : Tables → Type 0
IsPlayed t = (v : ℤ) → IsLinear v t

Leaves-ok :
    {A : Type 0} (P : Tables → Type 0) (r : Result SqlError (A × Tables))
    → ((a : A) (t' : Tables) → r ≡ ok (a, t') → P t')
    → Leaves P r
Leaves-ok P (ok (a, t')) k = k a t' refl
Leaves-ok P (err e) k = tt

pub delete_level_row-IsPlayed :
    (id : ℤ) (t : Tables) (now : ℕ) → IsPlayed t → Leaves IsPlayed (delete_level_row id t now)
delete_level_row-IsPlayed id t now h =
    Leaves-ok IsPlayed _ (λ n t' e v. IsLinear-delete id t now n t' e v (h v))

pub insert_or_ignore_progress-IsPlayed :
    (u i : ℤ) (t : Tables) (l : LevelRow) (now : ℕ)
    → IsConsistent t
    → find_level i t ≡ some l
    → accessible u l.order_index t ≡ true
    → IsPlayed t
    → Leaves IsPlayed (insert_or_ignore_progress u i t now)
insert_or_ignore_progress-IsPlayed u i t l now c found open_gate h =
    Leaves-ok IsPlayed _
      (λ a t' e v. IsLinear-insert u i t l now t' c found open_gate e (h u) v (h v))

-- Without the solves of one user.
solved_in-delete_user :
    (id v i : ℤ) (progress : List ProgressRow)
    → solved_in v (rows_without (λ p. p.user_id == id) progress) i
      ≡ (solved_in v progress i && not (v == id))
solved_in-delete_user id v i [] = refl
solved_in-delete_user id v i (p ∷ ps) = elim (Bool-cases (p.user_id == v)) [
  | inr other ↦ ground (arith, solved_in-delete_user id v i ps)
  | inl own ↦
      let same : p.user_id ≡ v = (int_eq_iff p.user_id v).0 own in
      let alike : (p.user_id == id) ≡ (v == id) = rw same refl in
      ground (arith, solved_in-delete_user id v i ps)
]

AreLinear-without :
    (solved : LevelRow → Bool) (b : Bool) (levels : List LevelRow)
    → AreLinear solved levels
    → AreLinear (λ l. solved l && b) levels
AreLinear-without solved true levels h =
    AreLinear-congr solved (λ l. solved l && true) levels (λ l. ground arith) h
AreLinear-without solved false levels h =
    All-mono _ _ levels (λ m k s. absurd (nothing (solved m) s)) h
  where
    nothing : (b : Bool) → (b && false) ≡ true → ⊥
    nothing b s = ground arith

pub delete_user_row-IsPlayed :
    (id : ℤ) (t : Tables) (now : ℕ) → IsPlayed t → Leaves IsPlayed (delete_user_row id t now)
unfolding delete_user_row has_progress
delete_user_row-IsPlayed id t now h = elim (Bool-cases (has (λ u. u.id == id) t.users)) [
  | inr missing ↦ rw missing h
  | inl there ↦ rw there (λ v.
      AreLinear-congr (λ l. solved_in v t.user_progress l.id && not (v == id)) _ t.levels
        (λ l. solved_in-delete_user id v l.id t.user_progress)
        (AreLinear-without (λ l. solved_in v t.user_progress l.id) (not (v == id)) t.levels (h v)))
]

module _ (solved : ℤ → Bool) (id : ℤ) (new : AdminLevelInput) (levels : List LevelRow) where
  abbrev Stays : LevelRow → Type 0
  Stays l = (l.id == id) ≡ true → l.order_index ≡ new.order_index

  abbrev updated : List LevelRow
  updated = update_where (λ l. l.id == id) (set_level new) levels

  abbrev IsNext : LevelRow → LevelRow → Type 0
  IsNext m l = is_before l m ≡ true → solved l.id ≡ true

  inner_same : (m : LevelRow) → All Stays levels → All (IsNext m) levels → All (IsNext m) updated
  unfolding set_level
  inner_same m stays h =
      All-update_where (λ l. Stays l × IsNext m l) (IsNext m) (λ l. l.id == id) (set_level new)
        levels (λ l other k. k.1)
        (λ l own k.
          subst (λ o. not (int_leb m.order_index o) ≡ true → solved l.id ≡ true) (k.0 own) k.1)
        (All-mono₂ _ _ _ levels (λ l a b. (a, b)) stays h)

  AreLinear-set_level :
      All Stays levels → AreLinear (λ l. solved l.id) levels → AreLinear (λ l. solved l.id) updated
  unfolding set_level
  AreLinear-set_level stays h =
      All-update_where (λ m. Stays m × (solved m.id ≡ true → All (IsNext m) levels))
        (λ m. solved m.id ≡ true → All (IsNext m) updated) (λ l. l.id == id) (set_level new) levels
        (λ m other k s. inner_same m stays (k.1 s))
        (λ m own k s.
          All-mono (IsNext m) _ updated
            (λ l next.
              subst (λ o. not (int_leb o l.order_index) ≡ true → solved l.id ≡ true) (k.0 own) next)
            (inner_same m stays (k.1 s)))
        (All-mono₂ _ _ _ levels (λ m a b. (a, b)) stays h)

-- A row that keeps its place.
pub update_level_rows-IsPlayed :
    (id : ℤ) (new : AdminLevelInput) (t : Tables) (now : ℕ)
    → All (λ l. (l.id == id) ≡ true → l.order_index ≡ new.order_index) t.levels
    → IsPlayed t
    → Leaves IsPlayed (update_level_rows id new t now)
unfolding update_level_rows has_progress
update_level_rows-IsPlayed id new t now stays h = Leaves-ok IsPlayed _ (λ n t' e v.
    let levels : t'.levels ≡ update_where (λ l. l.id == id) (set_level new) t.levels =
      ground arith in
    let progress : t'.user_progress ≡ t.user_progress = ground arith in
    subst₂ (λ ls ps. AreLinear (λ l. solved_in v ps l.id) ls) (sym levels) (sym progress)
      (AreLinear-set_level (solved_in v t.user_progress) id new t.levels stays (h v)))

-- Somebody has solved the level.
abbrev pub is_solved : Tables → LevelRow → Bool
is_solved t l = has (λ p. p.level_id == l.id) t.user_progress

solved_by :
    (v i : ℤ) (progress : List ProgressRow)
    → has (λ p. p.level_id == i) progress ≡ false
    → solved_in v progress i ≡ false
solved_by v i [] h = refl
solved_by v i (p ∷ ps) h = ground (arith, solved_by v i ps)

-- Nobody has solved a level that is still to come.
unsolved_next :
    (t : Tables)
    → IsConsistent t
    → has (λ p. p.level_id == pos (suc t.level_seq)) t.user_progress ≡ false
unsolved_next t c =
    let next = pos (suc t.level_seq) in
    has-All (λ p. p.level_id == next) t.user_progress
      (All-mono _ _ t.user_progress
        (λ p there. elim (Bool-cases (p.level_id == next)) [
          | inr f ↦ f
          | inl e ↦
              let here : has (λ l. l.id == next) t.levels ≡ true =
                subst (λ i. has (λ l. l.id == i) t.levels ≡ true) ((int_eq_iff p.level_id next).0 e)
                  there in
              absurd (cc (sym here ∙ has_next (λ l. l.id) t.level_seq t.levels c.levels.2))
        ])
        c.progress_levels)

-- A row behind which nothing is solved.
pub insert_level-IsPlayed :
    (new : AdminLevelInput) (t : Tables) (now : ℕ)
    → IsConsistent t
    → All (λ l. int_leb new.order_index l.order_index ≡ true → is_solved t l ≡ false) t.levels
    → IsPlayed t
    → Leaves IsPlayed (insert_level new t now)
unfolding insert_level has_progress
insert_level-IsPlayed new t now c free h = Leaves-ok IsPlayed _ (λ id t' e v.
    let row : LevelRow = record {
      id = pos (suc t.level_seq);
      order_index = new.order_index;
      title = new.title;
      description = new.description;
      flag = new.flag;
    } in
    let levels : t'.levels ≡ t.levels ++ row ∷ [] = ground arith in
    let progress : t'.user_progress ≡ t.user_progress = ground arith in
    let solved = λ (l : LevelRow). solved_in v t.user_progress l.id in
    subst₂ (λ ls ps. AreLinear (λ l. solved_in v ps l.id) ls) (sym levels) (sym progress)
      (All-append_one _ t.levels
        (All-mono₂ _ _ _ t.levels
          (λ m unsolved before s.
            All-append_one (λ l. is_before l m ≡ true → solved l ≡ true) t.levels (before s)
              (λ b.
                absurd (cc (sym s ∙ solved_by v m.id t.user_progress (unsolved (before_leb m b))))))
          free (h v))
        (λ s.
          absurd (
            cc (sym s ∙ solved_by v (pos (suc t.level_seq)) t.user_progress (unsolved_next t c))))))
  where
    before_leb :
        (m : LevelRow)
        → not (int_leb m.order_index new.order_index) ≡ true
        → int_leb new.order_index m.order_index ≡ true
    before_leb m b = int_leb_total m.order_index new.order_index (ground arith)
