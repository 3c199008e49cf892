-- ===== src/Handlers/Admin/Integrity.antt =====
-- The handlers of levels, hints and tools (internal/handlers/admin_levels.go, admin_hints.go,
-- admin_tools.go) keep the constraints of the schema.
use crypticquest_backend.Base.{◌≡◌, refl, String, ℤ, Option, none, some, List, int_key}
use crypticquest_backend.Schema.{Tables}
use crypticquest_backend.Engine.{Db, M, Result, ok, err, pure, ◌>>=◌, continue}
use crypticquest_backend.Engine.Laws.{
  Keeps, Keeps-wrap, Keeps-query, Keeps-query_row, Keeps-bind, Keeps-pure, Keeps-raise,
}
use crypticquest_backend.Store.Levels.{AdminLevelInput, list_all_levels, admin_level_by_id}
use crypticquest_backend.Store.Hints.{hints_for_level}
use crypticquest_backend.Store.Tools.{ToolInput, list_all_tools, tool_by_id}
use crypticquest_backend.Store.Integrity.{IsConsistent}
use crypticquest_backend.Store.Write.{Write, perform}
use crypticquest_backend.Store.Write.Integrity.{perform-Keeps}
use crypticquest_backend.Handlers.Steps.{Keeps-id, Keeps-decode}
use crypticquest_backend.Handlers.Admin.{or_400}
use crypticquest_backend.Handlers.Admin.Levels.{
  admin_list_levels, admin_create_level, admin_update_level, admin_delete_level,
}
use crypticquest_backend.Handlers.Admin.Hints.{admin_get_hints, admin_replace_hints}
use crypticquest_backend.Handlers.Admin.Tools.{
  admin_list_tools, admin_create_tool, admin_update_tool, admin_delete_tool,
}

same_end :
    {E A B : Type 0} (r : Result E A) (b : B) (d : Db) → (continue r (λ _. pure {E = E} b) d).1 ≡ d
same_end (ok a) b d = refl
same_end (err e) b d = refl

-- A value that is dropped changes nothing.
pub Keeps-kept :
    {E A B : Type 0} {P : Tables → Type 0} (m : M E A) (b : B)
    → Keeps P (m >>= λ _. pure b)
    → Keeps P m
Keeps-kept m b k = record { at = λ d h. let e = same_end (m d).0 b (m d).1 in rw (← e) (k.at d h) }

or_400-Keeps : (o : Option String) → Keeps IsConsistent (or_400 o)
or_400-Keeps none = Keeps-pure _
or_400-Keeps (some msg) = Keeps-raise _

-- A read at the end of a handler.
level-Keeps : (id : ℤ) → Keeps IsConsistent (admin_level_by_id id)
unfolding admin_level_by_id
level-Keeps id = Keeps-wrap _ _ (Keeps-query_row _)

tool-Keeps : (id : ℤ) → Keeps IsConsistent (tool_by_id id)
unfolding tool_by_id
tool-Keeps id = Keeps-wrap _ _ (Keeps-query_row _)

hints-Keeps : (id : ℤ) → Keeps IsConsistent (hints_for_level id)
unfolding hints_for_level
hints-Keeps id = Keeps-wrap _ _ (Keeps-query _)

pub admin_levels-Keeps : Keeps IsConsistent admin_list_levels
unfolding admin_list_levels list_all_levels
admin_levels-Keeps =
    Keeps-bind _ _ (Keeps-wrap _ _ (Keeps-wrap _ _ (Keeps-query _))) (λ ls. Keeps-pure _)

pub admin_create_level-Keeps :
    (body : Option AdminLevelInput) → Keeps IsConsistent (admin_create_level body)
unfolding admin_create_level perform
admin_create_level-Keeps body =
    Keeps-bind _ _
      (Keeps-decode body _ (λ req. Keeps-bind _ _ (or_400-Keeps _) (λ _. Keeps-pure req)))
      (λ new.
        Keeps-bind _ _ (Keeps-wrap _ _ (Keeps-kept _ tt (perform-Keeps (Write.create_level new))))
          (λ id. Keeps-bind _ _ (Keeps-wrap _ _ (level-Keeps id)) (λ l. Keeps-pure _)))

pub admin_update_level-Keeps :
    (path : String) (body : Option AdminLevelInput)
    → Keeps IsConsistent (admin_update_level path body)
unfolding admin_update_level perform
admin_update_level-Keeps path body = Keeps-id _ _ _ (λ id.
    Keeps-bind _ _
      (Keeps-decode body _ (λ req. Keeps-bind _ _ (or_400-Keeps _) (λ _. Keeps-pure req)))
      (λ new.
        Keeps-bind _ _ (Keeps-wrap _ _ (perform-Keeps (Write.update_level id new)))
          (λ _. Keeps-bind _ _ (Keeps-wrap _ _ (level-Keeps id)) (λ l. Keeps-pure _))))

pub admin_delete_level-Keeps : (path : String) → Keeps IsConsistent (admin_delete_level path)
unfolding admin_delete_level perform
admin_delete_level-Keeps path = Keeps-id _ _ _ (λ id.
    Keeps-bind _ _ (Keeps-wrap _ _ (perform-Keeps (Write.delete_level id))) (λ _. Keeps-pure _))

pub admin_get_hints-Keeps : (path : String) → Keeps IsConsistent (admin_get_hints path)
unfolding admin_get_hints
admin_get_hints-Keeps path = Keeps-id _ _ _ (λ id.
    Keeps-bind _ _ (Keeps-wrap _ _ (level-Keeps id))
      (λ l. Keeps-bind _ _ (Keeps-wrap _ _ (hints-Keeps id)) (λ hs. Keeps-pure _)))

pub admin_replace_hints-Keeps :
    (path : String) (body : Option (List String))
    → Keeps IsConsistent (admin_replace_hints path body)
unfolding admin_replace_hints perform
admin_replace_hints-Keeps path body = Keeps-id _ _ _ (λ id. Keeps-decode body _ (λ texts.
    Keeps-bind _ _ (or_400-Keeps _) (λ _.
      Keeps-bind _ _ (Keeps-wrap _ _ (perform-Keeps (Write.replace_hints id texts)))
        (λ _. Keeps-bind _ _ (Keeps-wrap _ _ (hints-Keeps id)) (λ hs. Keeps-pure _)))))

pub admin_tools-Keeps : Keeps IsConsistent admin_list_tools
unfolding admin_list_tools list_all_tools
admin_tools-Keeps =
    Keeps-bind _ _ (Keeps-wrap _ _ (Keeps-wrap _ _ (Keeps-query _))) (λ ts. Keeps-pure _)

pub admin_create_tool-Keeps :
    (body : Option ToolInput) → Keeps IsConsistent (admin_create_tool body)
unfolding admin_create_tool perform
admin_create_tool-Keeps body =
    Keeps-bind _ _
      (Keeps-decode body _ (λ req. Keeps-bind _ _ (or_400-Keeps _) (λ _. Keeps-pure req)))
      (λ new.
        Keeps-bind _ _ (Keeps-wrap _ _ (Keeps-kept _ tt (perform-Keeps (Write.create_tool new))))
          (λ id. Keeps-bind _ _ (Keeps-wrap _ _ (tool-Keeps id)) (λ x. Keeps-pure _)))

pub admin_update_tool-Keeps :
    (path : String) (body : Option ToolInput) → Keeps IsConsistent (admin_update_tool path body)
unfolding admin_update_tool perform
admin_update_tool-Keeps path body = Keeps-id _ _ _ (λ id.
    Keeps-bind _ _
      (Keeps-decode body _ (λ req. Keeps-bind _ _ (or_400-Keeps _) (λ _. Keeps-pure req)))
      (λ new.
        Keeps-bind _ _ (Keeps-wrap _ _ (perform-Keeps (Write.update_tool id new)))
          (λ _. Keeps-bind _ _ (Keeps-wrap _ _ (tool-Keeps id)) (λ x. Keeps-pure _))))

pub admin_delete_tool-Keeps : (path : String) → Keeps IsConsistent (admin_delete_tool path)
unfolding admin_delete_tool perform
admin_delete_tool-Keeps path = Keeps-id _ _ _ (λ id.
    Keeps-bind _ _ (Keeps-wrap _ _ (perform-Keeps (Write.delete_tool id))) (λ _. Keeps-pure _))
