-- ===== src/Seed/Integrity.antt =====
-- load (cmd/seed/main.go) keeps the constraints of the schema.
use crypticquest_backend.Base.{
  ℕ, suc, ◌+◌, ◌≤◌, ◌<◌, ◌≡◌, refl, sym, ap, ◌∙◌, ◌||◌, inl, inr, subst, String, ◌==◌, string_key,
  int_key, int_eq, same_refl, ℤ, pos, Bool-cases, true, false, Option, none, some, List, [], ◌∷◌,
  ◌++◌, length, has, All, Distinct, IsGiven, arith,
}
use crypticquest_backend.Schema.{Tables, LevelRow, HintRow}
use crypticquest_backend.Engine.{Db}
use crypticquest_backend.Store.Integrity.{IsConsistent, HasLevel, HasLevelOrNull}
use crypticquest_backend.Seed.{SeedTool, SeedLevel, SeedFile, load}
use crypticquest_backend.Seed.Content.{
  level_rows, text_rows, hint_rows, hint_count, key_id, named_level, tool_rows, content, IsKnown,
  IsSeed,
}
use crypticquest_backend.Seed.Exact.{key_id_there}
use crypticquest_backend.Seed.Faults.{load_all_or_nothing}

module _ {A : Type 0} (id : A → ℤ) where
  -- The ids follow one another, the first after `n`.
  abbrev IsNumbered : ℕ → List A → Type 0
  IsNumbered n [] = Unit
  IsNumbered n (x ∷ xs) = (id x ≡ pos (suc n)) × IsNumbered (suc n) xs

  numbered_after :
      (n m : ℕ) (xs : List A) → n < m → IsNumbered m xs → has (λ y. id y == pos (suc n)) xs ≡ false
  unfolding int_eq
  numbered_after n m [] lt h = refl
  numbered_after n m (y ∷ xs) lt (q, h) =
      rw q (ground (arith, numbered_after n (suc m) xs (omega arith) h))

  IsNumbered-Distinct : (n : ℕ) (xs : List A) → IsNumbered n xs → Distinct id xs
  IsNumbered-Distinct n [] h = tt
  IsNumbered-Distinct n (x ∷ xs) (q, h) = (
    subst (λ i. has (λ y. id y == i) xs ≡ false) (sym q)
        (numbered_after n (suc n) xs (omega arith) h),
    IsNumbered-Distinct (suc n) xs h,
  )

  IsNumbered-IsGiven :
      (n seq : ℕ) (xs : List A)
      → n + length xs ≤ seq
      → IsNumbered n xs
      → All (λ x. IsGiven seq (id x)) xs
  IsNumbered-IsGiven n seq [] le h = tt
  IsNumbered-IsGiven n seq (x ∷ xs) le (q, h) =
      (rw q (omega arith), IsNumbered-IsGiven (suc n) seq xs (omega arith) h)

  IsNumbered-append :
      (n : ℕ) (xs ys : List A)
      → IsNumbered n xs
      → IsNumbered (n + length xs) ys
      → IsNumbered n (xs ++ ys)
  IsNumbered-append n [] ys h k =
      let e : n + 0 ≡ n = omega arith in subst (λ m. IsNumbered m ys) e k
  IsNumbered-append n (x ∷ xs) ys (q, h) k = (
    q,
    IsNumbered-append (suc n) xs ys h (
        let e : n + suc (length xs) ≡ suc n + length xs = omega arith in
        subst (λ m. IsNumbered m ys) e k),
  )

level_rows-IsNumbered : (n : ℕ) (ls : List SeedLevel) → IsNumbered (λ x. x.id) n (level_rows n ls)
level_rows-IsNumbered n [] = tt
level_rows-IsNumbered n (l ∷ ls) = (refl, level_rows-IsNumbered (suc n) ls)

tool_rows-IsNumbered :
    (id : String → Option ℤ) (n : ℕ) (tools : List SeedTool)
    → IsNumbered (λ x. x.id) n (tool_rows id n tools)
tool_rows-IsNumbered id n [] = tt
tool_rows-IsNumbered id n (tool ∷ tools) = (refl, tool_rows-IsNumbered id (suc n) tools)

text_rows-IsNumbered :
    (h : ℕ) (id : ℤ) (i : ℕ) (texts : List String)
    → IsNumbered (λ x. x.id) h (text_rows h id i texts)
text_rows-IsNumbered h id i [] = tt
text_rows-IsNumbered h id i (text ∷ texts) = (refl, text_rows-IsNumbered (suc h) id (i + 1) texts)

length-level_rows : (n : ℕ) (ls : List SeedLevel) → length (level_rows n ls) ≡ length ls
length-level_rows n [] = refl
length-level_rows n (l ∷ ls) = omega (arith, length-level_rows (suc n) ls)

length-tool_rows :
    (id : String → Option ℤ) (n : ℕ) (tools : List SeedTool)
    → length (tool_rows id n tools) ≡ length tools
length-tool_rows id n [] = refl
length-tool_rows id n (tool ∷ tools) = omega (arith, length-tool_rows id (suc n) tools)

length-text_rows :
    (h : ℕ) (id : ℤ) (i : ℕ) (texts : List String) → length (text_rows h id i texts) ≡ length texts
length-text_rows h id i [] = refl
length-text_rows h id i (text ∷ texts) = omega (arith, length-text_rows (suc h) id (i + 1) texts)

length-append {ℓ} : {A : Type ℓ} (xs ys : List A) → length (xs ++ ys) ≡ length xs + length ys
length-append [] ys = omega arith
length-append (x ∷ xs) ys = omega (arith, length-append xs ys)

hint_rows-IsNumbered : (h n : ℕ) (ls : List SeedLevel) → IsNumbered (λ x. x.id) h (hint_rows h n ls)
hint_rows-IsNumbered h n [] = tt
hint_rows-IsNumbered h n (l ∷ ls) =
    let texts = text_rows h (pos (suc n)) 0 l.hints in
    IsNumbered-append (λ x. x.id) h texts _ (text_rows-IsNumbered h (pos (suc n)) 0 l.hints)
      (subst (λ k. IsNumbered (λ x. x.id) (h + k) (hint_rows (h + length l.hints) (suc n) ls))
        (sym (length-text_rows h (pos (suc n)) 0 l.hints))
        (hint_rows-IsNumbered (h + length l.hints) (suc n) ls))

length-hint_rows : (h n : ℕ) (ls : List SeedLevel) → length (hint_rows h n ls) ≡ hint_count ls
length-hint_rows h n [] = refl
length-hint_rows h n (l ∷ ls) = omega (
  arith,
  length-append (text_rows h (pos (suc n)) 0 l.hints) (hint_rows (h + length l.hints) (suc n) ls),
  length-text_rows h (pos (suc n)) 0 l.hints,
  length-hint_rows (h + length l.hints) (suc n) ls,
)

has-order :
    (n : ℕ) (o : ℤ) (ls : List SeedLevel)
    → has (λ x. x.order_index == o) (level_rows n ls) ≡ has (λ l. l.order_index == o) ls
has-order n o [] = refl
has-order n o (l ∷ ls) = ap ((l.order_index == o) ||◌) (has-order (suc n) o ls)

Distinct-orders :
    (n : ℕ) (ls : List SeedLevel)
    → Distinct (λ l. l.order_index) ls
    → Distinct (λ x. x.order_index) (level_rows n ls)
Distinct-orders n [] d = tt
Distinct-orders n (l ∷ ls) (q, d) =
    (has-order (suc n) l.order_index ls ∙ q, Distinct-orders (suc n) ls d)

-- The hints of one level refer to it.
text_rows-level :
    (levels : List LevelRow) (h : ℕ) (id : ℤ) (i : ℕ) (texts : List String)
    → HasLevel levels id
    → All (λ x. HasLevel levels x.level_id) (text_rows h id i texts)
text_rows-level levels h id i [] there = tt
text_rows-level levels h id i (text ∷ texts) there =
    (there, text_rows-level levels (suc h) id (i + 1) texts there)

All-append : (P : HintRow → Type 0) (xs ys : List HintRow) → All P xs → All P ys → All P (xs ++ ys)
All-append P [] ys h k = k
All-append P (x ∷ xs) ys (p, h) k = (p, All-append P xs ys h k)

-- The levels of `hint_rows` stand at the end of `levels`.
hint_rows-levels :
    (levels : List LevelRow) (h n : ℕ) (ls : List SeedLevel)
    → ((i : ℤ) → has (λ l. l.id == i) (level_rows n ls) ≡ true → HasLevel levels i)
    → All (λ x. HasLevel levels x.level_id) (hint_rows h n ls)
hint_rows-levels levels h n [] there = tt
hint_rows-levels levels h n (l ∷ ls) there =
    All-append _ (text_rows h (pos (suc n)) 0 l.hints) _
      (text_rows-level levels h (pos (suc n)) 0 l.hints
        (there (pos (suc n)) (ground (arith, same_refl (pos (suc n))))))
      (hint_rows-levels levels (h + length l.hints) (suc n) ls (λ i q. there i (ground arith)))

named_level-there :
    (ls : List SeedLevel) (o : Option String)
    → IsKnown (key_id 0 ls) o
    → HasLevelOrNull (level_rows 0 ls) (named_level (key_id 0 ls) o)
named_level-there ls none h = tt
named_level-there ls (some key) h = elim (Bool-cases (key == "")) [
  | inl e ↦ rw e tt
  | inr e ↦ let (i, q) = h e in rw e (rw q (key_id_there 0 ls key i q))
]

tool_rows-levels :
    (ls : List SeedLevel) (n : ℕ) (tools : List SeedTool)
    → All (λ tool. IsKnown (key_id 0 ls) tool.unlocks_at_level) tools
    → All
        (λ x. HasLevelOrNull (level_rows 0 ls) x.unlocks_at_level_id)
        (tool_rows (key_id 0 ls) n tools)
tool_rows-levels ls n [] h = tt
tool_rows-levels ls n (tool ∷ tools) (p, h) =
    (named_level-there ls tool.unlocks_at_level p, tool_rows-levels ls (suc n) tools h)

content-IsConsistent :
    (seed : SeedFile) (t : Tables) → IsSeed seed → IsConsistent t → IsConsistent (content seed t)
content-IsConsistent seed t s c =
    let ls = seed.levels in
    let tools = seed.tools in
    let id = key_id 0 ls in
    record {
      users = c.users;
      levels = (
        IsNumbered-Distinct (λ x. x.id) 0 (level_rows 0 ls) (level_rows-IsNumbered 0 ls),
        Distinct-orders 0 ls s.orders,
        IsNumbered-IsGiven (λ x. x.id) 0 (length ls) (level_rows 0 ls)
            (omega (arith, length-level_rows 0 ls)) (level_rows-IsNumbered 0 ls),
      );
      tools = (
        IsNumbered-Distinct (λ x. x.id) 0 (tool_rows id 0 tools) (tool_rows-IsNumbered id 0 tools),
        IsNumbered-IsGiven (λ x. x.id) 0 (length tools) (tool_rows id 0 tools)
            (omega (arith, length-tool_rows id 0 tools)) (tool_rows-IsNumbered id 0 tools),
      );
      hints = (
        IsNumbered-Distinct (λ x. x.id) 0 (hint_rows 0 0 ls) (hint_rows-IsNumbered 0 0 ls),
        IsNumbered-IsGiven (λ x. x.id) 0 (hint_count ls) (hint_rows 0 0 ls)
            (omega (arith, length-hint_rows 0 0 ls)) (hint_rows-IsNumbered 0 0 ls),
      );
      progress = (tt, tt, tt);
      tokens = c.tokens;
      session_users = c.session_users;
      progress_users = tt;
      progress_levels = tt;
      hint_levels = hint_rows-levels (level_rows 0 ls) 0 0 ls (λ i q. q);
      tool_levels = tool_rows-levels ls 0 tools s.references;
    }

-- Whatever statements fail, load keeps every constraint of the schema.
pub load-IsConsistent :
    (seed : SeedFile) (d : Db) → IsConsistent d.tables → IsConsistent (load seed d).1.tables
load-IsConsistent seed d c = elim (load_all_or_nothing seed d c) [
  | inl (s, _, e) ↦ rw e (content-IsConsistent seed d.tables s c)
  | inr (_, e) ↦ rw e c
]
