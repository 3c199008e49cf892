-- ===== src/Handlers/Player/FlagBlind.antt =====
-- The flags stay on the server: what a player reads (internal/handlers/me.go, levels.go, hints.go,
-- tools.go) does not depend on them.
use crypticquest_backend.Base.{
  ℕ, ◌≡◌, refl, sym, ap, ◌∙◌, String, ◌==◌, int_key, ℤ, Bool, true, false, Option, none, some, List,
  map, if◌then◌else◌, arith, take, order_by, map-take, map-order_by, map-first_where,
  map-count_where, map-map, map_option, int_leb,
}
use crypticquest_backend.Schema.{Tables, UserRow, LevelRow}
use crypticquest_backend.Engine.{
  Db, Result, ok, err, M, exec, query, query_row, pure, raise, wrap, wrap_result, ◌>>=◌, continue,
}
use crypticquest_backend.Store.Progress.{has_progress, current_level, is_level_accessible, rank}
use crypticquest_backend.Store.Users.{solved_count}
use crypticquest_backend.Store.Levels.{
  list_accessible_levels, level_by_id, find_level, level_detail, first_levels, level_list_item,
}
use crypticquest_backend.Store.Hints.{hints_for_level, hints_of}
use crypticquest_backend.Store.Tools.{unlocked_tools, is_unlocked}
use crypticquest_backend.Http.{Handler, response}
use crypticquest_backend.Handlers.Player.{
  id_or_400, list_files, me_handler, list_levels, get_level, get_hints, list_tools, Listing, gate,
}

abbrev no_flag : LevelRow → LevelRow
no_flag l = record l { flag = "" }

-- The tables with every flag taken out.
abbrev pub without_flags : Tables → Tables
without_flags t = record t { levels = map no_flag t.levels }

abbrev blank : Db → Db
blank d = record d { tables = without_flags d.tables }

-- An action that does the same without the flags.
record Blind {E A : Type 0} (m : M E A) : Type 0 where
  at : (d : Db) → m (blank d) ≡ ((m d).0, blank (m d).1)

Blind-exec :
    {A : Type 0} (f : Tables → A)
    → ((t : Tables) → f (without_flags t) ≡ f t)
    → Blind (exec (query f))
unfolding exec
Blind-exec f h = record { at = λ d. ground (arith, h d.tables) }

Blind-row :
    {A : Type 0} (f : Tables → Option A)
    → ((t : Tables) → f (without_flags t) ≡ f t)
    → Blind (exec (query_row f))
unfolding exec
Blind-row f h = record { at = λ d. ground (arith, h d.tables) }

module _ {E A : Type 0} where
  Blind-pure : (a : A) → Blind (pure {E = E} a)
  Blind-pure a = record { at = λ d. refl }

  Blind-raise : (e : E) → Blind (raise {A = A} e)
  Blind-raise e = record { at = λ d. refl }

  Blind-wrap : {F : Type 0} (w : E → F) (m : M E A) → Blind m → Blind (wrap w m)
  Blind-wrap w m k = record { at = λ d. ap (λ x. (wrap_result w x.0, x.1)) (k.at d) }

  Blind-if : (b : Bool) (m n : M E A) → Blind m → Blind n → Blind (if b then m else n)
  Blind-if true m n km kn = km
  Blind-if false m n km kn = kn

module _ {E A B : Type 0} where
  Blind-continue :
      (r : Result E A) (f : A → M E B) (d : Db)
      → ((a : A) → Blind (f a))
      → continue r f (blank d) ≡ ((continue r f d).0, blank (continue r f d).1)
  Blind-continue (ok a) f d k = (k a).at d
  Blind-continue (err e) f d k = refl

  Blind-bind : (m : M E A) (f : A → M E B) → Blind m → ((a : A) → Blind (f a)) → Blind (m >>= f)
  Blind-bind m f km kf = record {
    at = λ d. ap (λ x. continue x.0 f x.1) (km.at d) ∙ Blind-continue (m d).0 f (m d).1 kf;
  }

ruleset blind_rules = (Blind-pure, Blind-raise, Blind-wrap, Blind-if, Blind-bind)

-- The queries.
first_levels-without_flags :
    (n : ℕ) (t : Tables) → first_levels n (without_flags t) ≡ map no_flag (first_levels n t)
unfolding first_levels
first_levels-without_flags n t =
    ap (take n) (map-order_by no_flag (λ l. l.order_index) t.levels)
    ∙ map-take no_flag n (order_by (λ l. l.order_index) t.levels)

list-without_flags :
    (user_id : ℤ) (n : ℕ) (t : Tables)
    → map (level_list_item user_id (without_flags t)) (first_levels n (without_flags t))
      ≡ map (level_list_item user_id t) (first_levels n t)
unfolding level_list_item has_progress
list-without_flags user_id n t =
    ap (map (level_list_item user_id t)) (first_levels-without_flags n t)
    ∙ map-map no_flag (level_list_item user_id t) (first_levels n t)

rank-without_flags :
    (order_index : ℤ) (t : Tables)
    → rank order_index (without_flags t).levels ≡ rank order_index t.levels
unfolding rank
rank-without_flags order_index t =
    map-count_where no_flag (λ l. int_leb l.order_index order_index) t.levels

find_level-without_flags :
    (id : ℤ) (t : Tables) → find_level id (without_flags t) ≡ map_option no_flag (find_level id t)
unfolding find_level
find_level-without_flags id t = map-first_where no_flag (λ l. l.id == id) t.levels

-- The methods of the store.
current_level-Blind : (user_id : ℤ) → Blind (current_level user_id)
unfolding current_level solved_count
current_level-Blind user_id =
    Blind-bind _ _ (Blind-wrap _ _ (Blind-exec (λ t. solved_count t user_id) (λ t. refl)))
      (λ n. Blind-pure _)

list_accessible_levels-Blind : (user_id : ℤ) → Blind (list_accessible_levels user_id)
unfolding list_accessible_levels
list_accessible_levels-Blind user_id =
    Blind-bind _ _ (current_level-Blind user_id)
      (λ n. Blind-wrap _ _ (Blind-exec _ (list-without_flags user_id n)))

is_level_accessible-Blind :
    (user_id order_index : ℤ) → Blind (is_level_accessible user_id order_index)
unfolding is_level_accessible
is_level_accessible-Blind user_id order_index = Blind-bind _ _ (current_level-Blind user_id) (λ n.
    Blind-bind _ _ (Blind-wrap _ _ (Blind-exec _ (rank-without_flags order_index)))
      (λ r. Blind-pure _))

level_by_id-Blind : (user_id id : ℤ) → Blind (level_by_id user_id id)
unfolding level_by_id level_detail has_progress
level_by_id-Blind user_id id =
    Blind-wrap _ _ (Blind-row _ (λ t. ground (arith, find_level-without_flags id t)))

hints_for_level-Blind : (id : ℤ) → Blind (hints_for_level id)
unfolding hints_for_level hints_of
hints_for_level-Blind id = Blind-wrap _ _ (Blind-exec (hints_of id) (λ t. refl))

unlocked_tools-Blind : (user_id : ℤ) → Blind (unlocked_tools user_id)
unfolding unlocked_tools is_unlocked has_progress
unlocked_tools-Blind user_id = Blind-wrap _ _ (Blind-exec _ (λ t. refl))

-- The handlers.
gate-Blind : (msg : String) (user : UserRow) (order_index : ℤ) → Blind (gate msg user order_index)
unfolding gate
gate-Blind msg user order_index =
    Blind-bind _ _ (Blind-wrap _ _ (is_level_accessible-Blind user.id order_index))
      (λ b. search (blind_rules))

id_or_400-Blind : (msg : String) (id : Option ℤ) → Blind (id_or_400 msg id)
id_or_400-Blind msg none = Blind-raise _
id_or_400-Blind msg (some id) = Blind-pure _

list_files-Blind : (names : Option (List String)) → Blind (list_files names)
list_files-Blind none = Blind-raise _
list_files-Blind (some names) = Blind-pure _

-- The requests that read.
pub data PlayerRead : Type 0 where
  me level_list tool_list : PlayerRead
  level hint_list : String → PlayerRead

abbrev pub read : Listing → UserRow → PlayerRead → Handler
read listing user me = me_handler user
read listing user level_list = list_levels user
read listing user tool_list = list_tools user
read listing user (level path) = get_level listing user path
read listing user (hint_list path) = get_hints user path

read-Blind : (listing : Listing) (user : UserRow) (r : PlayerRead) → Blind (read listing user r)
unfolding me_handler list_levels list_tools get_level get_hints
read-Blind listing user me =
    Blind-bind _ _ (Blind-wrap _ _ (current_level-Blind user.id)) (λ n. Blind-pure _)
read-Blind listing user level_list =
    Blind-bind _ _ (Blind-wrap _ _ (list_accessible_levels-Blind user.id)) (λ levels. Blind-pure _)
read-Blind listing user tool_list =
    Blind-bind _ _ (Blind-wrap _ _ (unlocked_tools-Blind user.id)) (λ tools. Blind-pure _)
read-Blind listing user (level path) = Blind-bind _ _ (id_or_400-Blind _ _) (λ id.
    Blind-bind _ _ (Blind-wrap _ _ (level_by_id-Blind user.id id)) (λ detail.
      Blind-bind _ _ (gate-Blind _ user detail.order_index)
        (λ _. Blind-bind _ _ (list_files-Blind (listing id)) (λ names. Blind-pure _))))
read-Blind listing user (hint_list path) = Blind-bind _ _ (id_or_400-Blind _ _) (λ id.
    Blind-bind _ _ (Blind-wrap _ _ (level_by_id-Blind user.id id)) (λ detail.
      Blind-bind _ _ (gate-Blind _ user detail.order_index)
        (λ _. Blind-bind _ _ (Blind-wrap _ _ (hints_for_level-Blind id)) (λ hints. Blind-pure _))))

same_answer :
    (listing : Listing) (user : UserRow) (r : PlayerRead) (d : Db)
    → (read listing user r d).0 ≡ (read listing user r (blank d)).0
same_answer listing user r d = sym (ap (λ x. x.0) ((read-Blind listing user r).at d))

-- No request that only reads tells a player anything of a flag: on two databases that differ in the
-- flags of their levels alone, and whichever statements fail, a player gets one and the same answer
-- from Me, ListLevels, GetLevel, GetHints and ListTools.
pub read_flag_blind :
    (listing : Listing) (user : UserRow) (r : PlayerRead) (d d' : Db)
    → without_flags d.tables ≡ without_flags d'.tables
    → d.now ≡ d'.now
    → d.faults ≡ d'.faults
    → response (read listing user r d).0 ≡ response (read listing user r d').0
read_flag_blind listing user r d d' tables now faults =
    let same : blank d ≡ blank d' = cc in
    ap response (
      same_answer listing user r d
      ∙ ap (λ x. (read listing user r x).0) same
      ∙ sym (same_answer listing user r d'))
