-- ===== src/Handlers/Player/Submit/Grows.antt =====
-- What the game may become between two statements of a submission.
use crypticquest_backend.Base.{
  ℕ, suc, ◌≤◌, ◌≡◌, refl, subst, Bool, Bool-cases, true, false, inl, inr, ◌==◌, int_key, ℤ, pos,
  List, [], ◌∷◌, ◌++◌, count_where, arith,
}
use crypticquest_backend.Schema.{Tables, UserRow, ProgressRow}
use crypticquest_backend.Engine.{ok}
use crypticquest_backend.Engine.Laws.{Leaves}
use crypticquest_backend.Store.Users.{solved_count}
use crypticquest_backend.Store.Progress.{has_progress, insert_or_ignore_progress, insert_progress}
use crypticquest_backend.Store.Integrity.{IsConsistent}
use crypticquest_backend.Store.Access.Play.{levels-insert}
use crypticquest_backend.Store.Write.Gone.{IsGone, apart-Keeps}
use crypticquest_backend.Store.Write.Apart.{is_apart, perform-game}
use crypticquest_backend.Store.Write.Played.{affected_write}
use crypticquest_backend.Store.Write.{Write, perform}
use crypticquest_backend.Store.Users
use crypticquest_backend.Store.Users.{delete_user_row}
use crypticquest_backend.Store.Errors.{database}
use crypticquest_backend.Engine.{Db}
use crypticquest_backend.Base.{
  ◌⊎◌, sym, ap, subst₂, has, has-rows_where, rows_without, IsGiven, All, not, int_eq_iff,
}

-- The levels stay, nobody loses a solve whose account is not gone, and who is gone stays gone.
abbrev pub Grows : Tables → Tables → Type 0
Grows t t' =
    (t'.levels ≡ t.levels)
    × ((v : ℤ) → IsGone v t' ⊎ (solved_count t v ≤ solved_count t' v))
    × ((v : ℤ) → IsGone v t → IsGone v t')

pub Grows-refl : (t : Tables) → Grows t t
Grows-refl t = (refl, (λ v. inr (omega arith)), (λ v g. g))

count_where-le-append :
    (p : ProgressRow → Bool) (xs : List ProgressRow) (x : ProgressRow)
    → count_where p xs ≤ count_where p (xs ++ x ∷ [])
count_where-le-append p [] x = omega arith
count_where-le-append p (y ∷ xs) x = ground (arith, count_where-le-append p xs x)

insert_roster :
    (u i : ℤ) (t : Tables) (now : ℕ) (t' : Tables)
    → insert_or_ignore_progress u i t now ≡ ok (tt, t')
    → (t'.users ≡ t.users) × (t'.user_seq ≡ t.user_seq)
unfolding insert_or_ignore_progress insert_progress
insert_roster u i t now t' h = (ground arith, ground arith)

pub insert-Grows :
    (u i : ℤ) (t : Tables) (now : ℕ) (t' : Tables)
    → insert_or_ignore_progress u i t now ≡ ok (tt, t')
    → Grows t t'
unfolding insert_or_ignore_progress insert_progress solved_count
insert-Grows u i t now t' h = (
  levels-insert u i t now t' h,
  (λ v. inr (elim (Bool-cases (has_progress u i t)) [
    | inl there ↦
        let same : t ≡ t' = ground arith in
        subst (λ x. solved_count t v ≤ solved_count x v) same (omega arith)
    | inr new ↦
        let row : ProgressRow = record {
          id = pos (suc t.progress_seq);
          user_id = u;
          level_id = i;
          solved_at = now;
        } in
        let rows : t'.user_progress ≡ t.user_progress ++ row ∷ [] = ground arith in
        rw rows (count_where-le-append (λ p. p.user_id == v) t.user_progress row)
  ])),
  (λ v g.
      subst₂ (λ us n. (has (λ x. x.id == v) us ≡ false) × IsGiven n v)
        (sym (insert_roster u i t now t' h).0) (sym (insert_roster u i t now t' h).1) g),
)

-- A write that leaves the game alone.
pub apart-Grows : (w : Write) (d : Db) → is_apart w ≡ true → Grows d.tables (perform w d).1.tables
unfolding solved_count
apart-Grows w d h =
    let e = perform-game w d h in
    let rows : (perform w d).1.tables.user_progress ≡ d.tables.user_progress = ap (λ g. g.1) e in
    (ap (λ g. g.0) e, (λ v. inr (rw rows (omega arith))), (λ v g. (apart-Keeps v w h).at d g))

count_where-without_other :
    (id v : ℤ) (progress : List ProgressRow)
    → (id == v) ≡ false
    → count_where (λ p. p.user_id == v) (rows_without (λ p. p.user_id == id) progress)
      ≡ count_where (λ p. p.user_id == v) progress
count_where-without_other id v [] ne = refl
count_where-without_other id v (p ∷ ps) ne = elim (Bool-cases (p.user_id == id)) [
  | inr f ↦ ground (arith, count_where-without_other id v ps ne)
  | inl e ↦
      let same : p.user_id ≡ id = (int_eq_iff p.user_id id).0 e in
      let other : (p.user_id == v) ≡ false = rw same ne in
      ground (arith, count_where-without_other id v ps ne)
]

IsGiven-of_has :
    (n : ℕ) (id : ℤ) (users : List UserRow)
    → All (λ u. IsGiven n u.id) users
    → has (λ u. u.id == id) users ≡ true
    → IsGiven n id
IsGiven-of_has n id [] g h = absurd (cc h)
IsGiven-of_has n id (u ∷ us) (g, gs) h = elim (Bool-cases (u.id == id)) [
  | inl e ↦ subst (IsGiven n) ((int_eq_iff u.id id).0 e) g
  | inr f ↦ IsGiven-of_has n id us gs (ground arith)
]

has-without :
    (id : ℤ) (users : List UserRow)
    → has (λ u. u.id == id) (rows_without (λ u. u.id == id) users) ≡ false
has-without id [] = refl
has-without id (u ∷ us) = ground (arith, has-without id us)

delete_user_row-Grows :
    (id : ℤ) (t : Tables) (now : ℕ) → IsConsistent t → Leaves (Grows t) (delete_user_row id t now)
unfolding delete_user_row solved_count
delete_user_row-Grows id t now c = elim (Bool-cases (has (λ u. u.id == id) t.users)) [
  | inr missing ↦ rw missing (Grows-refl t)
  | inl there ↦ rw there (
    refl,
    (λ v. elim (Bool-cases (id == v)) [
      | inr ne ↦ inr (rw (count_where-without_other id v t.user_progress ne) (omega arith))
      | inl own ↦
          let same : id ≡ v = (int_eq_iff id v).0 own in
          inl (
            subst
              (λ w.
                (has (λ u. u.id == w) (rows_without (λ u. u.id == id) t.users) ≡ false)
                × IsGiven t.user_seq w)
              same (has-without id t.users, IsGiven-of_has t.user_seq id t.users c.users.2 there))
    ]),
    (λ v (h, g). (has-rows_where (λ u. u.id == v) (λ u. not (u.id == id)) t.users h, g)),
  )
]

-- The deletion of an account.
pub delete_user-Grows :
    (id : ℤ) (d : Db)
    → IsConsistent d.tables
    → Grows d.tables (perform (Write.delete_user id) d).1.tables
unfolding perform
delete_user-Grows id d c =
    unfold Users.delete_user in
    affected_write (Grows d.tables) database (Users.delete_user_row id) d (Grows-refl d.tables)
      (delete_user_row-Grows id d.tables d.now c)
