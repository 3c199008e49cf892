-- ===== src/Store/Access/SetLevel.antt =====
-- SetUserProgressToLevel (internal/store/users.go): the first levels, in their order, are solved, and
-- nothing else is.
use crypticquest_backend.Base.{
  ℕ, zero, suc, ◌≤◌, ◌≡◌, refl, sym, ◌∙◌, subst, Bool, true, false, not, ◌&&◌, ◌||◌, ◌==◌, int_key,
  int_eq_iff, same_refl, same_symm, ℤ, pos, some, List, [], ◌∷◌, ◌++◌, has, leb, first_where,
  rows_without, All, All-mono, All-mono₂, All-has, All-order_by, Distinct, Distinct-order_by,
  All-take, Distinct-take, IsUnique-Distinct, arith, if◌then◌else◌, has-append_one,
  has-take-order_by, int_leb, int_leb_total, int_leb_trans, has_of_first_where, own_lookup,
}
use crypticquest_backend.Schema.{Tables, UserRow, LevelRow, ProgressRow}
use crypticquest_backend.Engine.{Db, ok, exec, transaction}
use crypticquest_backend.Store.Progress.{
  has_progress, insert_progress, insert_progress_select, insert_first_levels, clear_progress, rank,
  set_user_progress_to_level, mark_solved, int_pred,
}
use crypticquest_backend.Store.Levels.{first_levels}
use crypticquest_backend.Store.Integrity.{IsConsistent, HasUser, HasLevel}
use crypticquest_backend.Store.Access.Linear.{AreLinear, IsLinear}
use crypticquest_backend.Store.Access.Play.{AreLinear-congr}

-- One row.
insert_runs :
    (user_id level_id : ℤ) (t : Tables) (now : ℕ)
    → HasUser t.users user_id
    → HasLevel t.levels level_id
    → has_progress user_id level_id t ≡ false
    → (t' : Tables) × (insert_progress user_id level_id t now ≡ ok (tt, t'))
      × (t'.users ≡ t.users)
      × (t'.levels ≡ t.levels)
      × ((v i : ℤ)
          → has_progress v i t' ≡ (has_progress v i t || ((user_id == v) && (level_id == i))))
unfolding insert_progress
insert_runs user_id level_id t now u l new =
    let row : ProgressRow = record {
      id = pos (suc t.progress_seq);
      user_id = user_id;
      level_id = level_id;
      solved_at = now;
    } in
    let t' : Tables = record t {
      user_progress = t.user_progress ++ row ∷ [];
      progress_seq = suc t.progress_seq;
    } in
    (
      t',
      rw new (rw u (rw l refl)),
      refl,
      refl,
      (λ v i.
          unfold has_progress in
          has-append_one (λ p. (p.user_id == v) && (p.level_id == i)) t.user_progress row),
    )

-- All of them.
select_runs :
    (user_id : ℤ) (ls : List LevelRow) (t : Tables) (now : ℕ)
    → HasUser t.users user_id
    → All (λ l. HasLevel t.levels l.id) ls
    → Distinct (λ l. l.id) ls
    → All (λ l. has_progress user_id l.id t ≡ false) ls
    → (t' : Tables) × (insert_progress_select user_id ls t now ≡ ok (tt, t'))
      × (t'.levels ≡ t.levels)
      × ((v i : ℤ)
          → has_progress v i t'
            ≡ (has_progress v i t || ((user_id == v) && has (λ l. l.id == i) ls)))
unfolding insert_progress_select
select_runs user_id [] t now u there d new = (t, refl, refl, (λ v i. ground arith))
select_runs user_id (l ∷ ls) t now u (h, there) (q, d) (n, new) =
    let (t₁, e₁, users, levels, p₁) = insert_runs user_id l.id t now u h n in
    let new₁ : All (λ m. has_progress user_id m.id t₁ ≡ false) ls =
      All-mono₂ _ _ _ ls (λ m f g. p₁ user_id m.id ∙ ground (arith, f, same_symm m.id l.id)) new
        (All-has (λ m. m.id == l.id) ls q) in
    let (t₂, e₂, levels₂, p₂) =
      select_runs user_id ls t₁ now (rw users u) (rw levels there) d new₁ in
    (t₂, rw e₁ e₂, levels₂ ∙ levels, (λ v i. p₂ v i ∙ ground (arith, p₁ v i)))

has-clear :
    (id v i : ℤ) (progress : List ProgressRow)
    → has
        (λ p. (p.user_id == v) && (p.level_id == i))
        (rows_without (λ p. p.user_id == id) progress)
      ≡ (not (id == v) && has (λ p. (p.user_id == v) && (p.level_id == i)) progress)
has-clear id v i [] = ground arith
has-clear id v i (p ∷ ps) =
    ground
      (arith, has-clear id v i ps, int_eq_iff p.user_id v, int_eq_iff p.user_id id, int_eq_iff id v)

module _ (id : ℤ) (n : ℕ) (t : Tables) where
  abbrev pub solved_after : ℤ → ℤ → Bool
  solved_after v i = if id == v then has (λ l. l.id == i) (first_levels n t) else has_progress v i t

  cleared : Tables
  cleared = record t { user_progress = rows_without (λ p. p.user_id == id) t.user_progress }

  has_progress-cleared :
      (v i : ℤ) → has_progress v i cleared ≡ (not (id == v) && has_progress v i t)
  unfolding has_progress cleared
  has_progress-cleared v i = has-clear id v i t.user_progress

  not_yet : (ls : List LevelRow) → All (λ l. has_progress id l.id cleared ≡ false) ls
  not_yet [] = tt
  not_yet (l ∷ ls) = (has_progress-cleared id l.id ∙ ground (arith, same_refl id), not_yet ls)

  All-there : (ls : List LevelRow) → All (λ l. HasLevel ls l.id) ls
  All-there [] = tt
  All-there (l ∷ ls) =
      (ground (arith, same_refl l.id), All-mono _ _ ls (λ m h. ground arith) (All-there ls))

  filled :
      (now : ℕ)
      → IsConsistent t
      → HasUser t.users id
      → (t' : Tables) × (insert_progress_select id (first_levels n t) cleared now ≡ ok (tt, t'))
        × (t'.levels ≡ t.levels)
        × ((v i : ℤ) → has_progress v i t' ≡ solved_after v i)
  unfolding first_levels cleared
  filled now c u =
      let key = λ (l : LevelRow). l.order_index in
      let (t', e, levels, p) =
        select_runs id (first_levels n t) cleared now u
          (All-take _ n _ (All-order_by key _ t.levels (All-there t.levels)))
          (Distinct-take _ n _ (Distinct-order_by _ key t.levels c.levels.0)) (not_yet _) in
      (t', e, levels, (λ v i. p v i ∙ ground (arith, has_progress-cleared v i)))

-- The transaction ends with the tables of its last statement.
set_runs :
    (id : ℤ) (n : ℕ) (d : Db) (u : UserRow) (t' : Tables)
    → d.faults ≡ []
    → first_where (λ x. x.id == id) d.tables.users ≡ some u
    → insert_progress_select id (first_levels n d.tables) (cleared id n d.tables) d.now
      ≡ ok (tt, t')
    → set_user_progress_to_level id (pos (suc n)) d ≡ (ok tt, record d { tables = t' })
unfolding set_user_progress_to_level mark_solved int_pred clear_progress insert_first_levels
    insert_progress_select transaction exec first_levels cleared
set_runs id zero d u t' quiet e h = ground arith
set_runs id (suc n) d u t' quiet e h = ground arith

below_rank : (a b : ℤ) (levels : List LevelRow) → int_leb a b ≡ true → rank a levels ≤ rank b levels
unfolding rank
below_rank a b [] h = omega arith
below_rank a b (l ∷ ls) h = ground (arith, below_rank a b ls h, int_leb_trans l.order_index a b)

-- Being among the first levels is having a low rank.
among_first :
    (n : ℕ) (t : Tables)
    → IsConsistent t
    → All
        (λ m. has (λ x. x.id == m.id) (first_levels n t) ≡ leb (rank m.order_index t.levels) n)
        t.levels
unfolding first_levels rank
among_first n t c =
    All-mono _ _ t.levels
      (λ m e.
        has-take-order_by (λ x. x.order_index) (λ x. x.id == m.id) t.levels m c.levels.1
          (IsUnique-Distinct (λ x. x.id) m.id t.levels c.levels.0) e n)
      (own_lookup (λ l. l.id) t.levels c.levels.0)

first_AreLinear :
    (n : ℕ) (t : Tables)
    → IsConsistent t
    → AreLinear (λ m. has (λ x. x.id == m.id) (first_levels n t)) t.levels
first_AreLinear n t c =
    All-mono _ _ t.levels
      (λ m low s.
        All-mono _ _ t.levels
          (λ l low' b. ground (
            arith,
            low,
            low',
            s,
            b,
            below_rank l.order_index m.order_index t.levels,
            int_leb_total m.order_index l.order_index,
          ))
          (among_first n t c))
      (among_first n t c)

account_there :
    (id : ℤ) (users : List UserRow) (u : UserRow)
    → first_where (λ x. x.id == id) users ≡ some u
    → HasUser users id
account_there id users u e = has_of_first_where (λ x. x.id == id) users e

own_solves : (b a s : Bool) → b ≡ true → (if b then a else s) ≡ a
own_solves b a s h = rw h

-- With no fault to come, and for an account of consistent tables, setting the level of the account
-- to n + 1 leaves exactly the first n levels, in their order, solved for it, and every other user's
-- solves as they were; whatever the account had solved before, its play is linear afterwards.
pub set_level_exact :
    (id : ℤ) (n : ℕ) (d : Db) (u : UserRow)
    → IsConsistent d.tables
    → d.faults ≡ []
    → first_where (λ x. x.id == id) d.tables.users ≡ some u
    → let (r, d') = set_user_progress_to_level id (pos (suc n)) d in
      (r ≡ ok tt)
      × ((v i : ℤ) → has_progress v i d'.tables ≡ solved_after id n d.tables v i)
      × (d'.tables.levels ≡ d.tables.levels)
      × IsLinear id d'.tables
set_level_exact id n d u c quiet e =
    let (t', inserted, levels, p) =
      filled id n d.tables d.now c (account_there id d.tables.users u e) in
    let among = λ (m : LevelRow). has (λ x. x.id == m.id) (first_levels n d.tables) in
    let solved = λ (m : LevelRow). has_progress id m.id t' in
    let same : (m : LevelRow) → solved m ≡ among m = λ m.
      p id m.id ∙ own_solves (id == id) (among m) (has_progress id m.id d.tables) (same_refl id) in
    rw (set_runs id n d u t' quiet e inserted) (
      refl,
      p,
      levels,
      subst (AreLinear solved) (sym levels)
          (AreLinear-congr among solved d.tables.levels same (first_AreLinear n d.tables c)),
    )
