-- ===== src/Handlers/Player/Submit/Linear.antt =====
-- SubmitFlag (internal/handlers/submit.go) keeps play linear.
use crypticquest_backend.Base.{
  ◌≡◌, refl, sym, subst, true, int_key, ℤ, String, Option, none, some, ◌⊎◌, Option-cases, inl, inr,
}
use crypticquest_backend.Schema.{UserRow, LevelRow}
use crypticquest_backend.Engine.{Db, ok}
use crypticquest_backend.Store.Progress.{insert_or_ignore_progress}
use crypticquest_backend.Store.Levels.{find_level}
use crypticquest_backend.Store.Integrity.{IsConsistent}
use crypticquest_backend.Store.Access.{accessible}
use crypticquest_backend.Store.Access.Linear.{IsLinear}
use crypticquest_backend.Store.Access.Play.{IsLinear-insert}
use crypticquest_backend.Text.{LowerTable, parse_int}
use crypticquest_backend.Handlers.Player.{submit_flag}
use crypticquest_backend.Handlers.Player.Submit.{submit_answer_tables, submit_answer_missing_tables}

-- What a submission may do to the tables, whatever the faults.
submit_tables :
    (table : LowerTable) (user : UserRow) (id : Option ℤ) (path : String) (body : Option String)
    (d : Db)
    → parse_int path ≡ id
    → ((submit_flag table user path body d).1.tables ≡ d.tables)
      ⊎ ((i : ℤ) × (l : LevelRow) × (find_level i d.tables ≡ some l)
          × (accessible user.id l.order_index d.tables ≡ true)
          × (insert_or_ignore_progress user.id i d.tables d.now
              ≡ ok (tt, (submit_flag table user path body d).1.tables)))
unfolding submit_flag
submit_tables table user none path body d p = rw p (inl refl)
submit_tables table user (some id) path none d p = rw p (inl refl)
submit_tables table user (some id) path (some answer) d p =
    rw p (elim (Option-cases (find_level id d.tables)) [
      | inl missing ↦ inl (submit_answer_missing_tables table user id answer d missing)
      | inr (l, e) ↦ elim (submit_answer_tables table user id answer d l e) [
        | inl same ↦ inl same
        | inr (through, right, inserted) ↦ inr (id, l, e, through, inserted)
      ]
    ])

-- Whatever is submitted and whichever statements fail, linear play stays linear, for the user who
-- submits and for everybody else.
pub submit-IsLinear :
    (table : LowerTable) (user : UserRow) (path : String) (body : Option String) (d : Db) (v : ℤ)
    → IsConsistent d.tables
    → IsLinear user.id d.tables
    → IsLinear v d.tables
    → IsLinear v (submit_flag table user path body d).1.tables
submit-IsLinear table user path body d v c own linear =
    elim (submit_tables table user (parse_int path) path body d refl) [
      | inl same ↦ subst (IsLinear v) (sym same) linear
      | inr (i, l, e, through, inserted) ↦
          IsLinear-insert user.id i d.tables l d.now _ c e through inserted own v linear
    ]
