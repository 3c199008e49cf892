-- ===== src/Text/Parts/Split.antt =====
-- What strings.Split makes of texts that were put together with the separator.
use Prim.Native.Char.{Char, code}
use crypticquest_backend.Base.{
  ℕ, String, ◌≡◌, refl, Bool, Bool-cases, inl, inr, true, false, not, List, [], ◌∷◌, nat_eq, arith,
  all, All,
}
use crypticquest_backend.Text.{codes}
use crypticquest_backend.Text.Parts.{cons, append, start_part, split_on}

module _ (sep : ℕ) where
  abbrev pub lacks : String → Bool
  lacks s = all (λ c. not (nat_eq c sep)) (codes s)

  pub lacks-append : (s t : String) → lacks s ≡ true → lacks t ≡ true → lacks (append s t) ≡ true
  lacks-append String.[] t h k = k
  lacks-append (String.◌∷◌ c s) t h k = ground (arith, lacks-append s t)

  pub split_on_lacking : (s : String) → lacks s ≡ true → split_on sep s ≡ s ∷ []
  unfolding split_on start_part
  split_on_lacking String.[] h = refl
  split_on_lacking (String.◌∷◌ c s) h =
      let e : split_on sep s ≡ s ∷ [] = split_on_lacking s (ground arith) in rw e (ground arith)

  pub split_on-append :
      (s rest : String) (c : Char)
      → lacks s ≡ true
      → nat_eq (code c) sep ≡ true
      → split_on sep (append s (cons c rest)) ≡ s ∷ split_on sep rest
  unfolding split_on start_part
  split_on-append String.[] rest c h k = rw k refl
  split_on-append (String.◌∷◌ d s) rest c h k =
      let e : split_on sep (append s (cons c rest)) ≡ s ∷ split_on sep rest =
        split_on-append s rest c (ground arith) k in
      rw e (ground arith)

  All-start_part :
      (c : Char) (parts : List String)
      → nat_eq (code c) sep ≡ false
      → All (λ p. lacks p ≡ true) parts
      → All (λ p. lacks p ≡ true) (start_part c parts)
  unfolding start_part
  All-start_part c [] e h = (rw e refl, tt)
  All-start_part c (p ∷ parts) e (q, h) = (rw e q, h)

  -- No part has a separator left.
  pub split_on-lacks : (s : String) → All (λ p. lacks p ≡ true) (split_on sep s)
  unfolding split_on
  split_on-lacks String.[] = (refl, tt)
  split_on-lacks (String.◌∷◌ c s) = elim (Bool-cases (nat_eq (code c) sep)) [
    | inl e ↦ rw e (refl, split_on-lacks s)
    | inr e ↦ rw e (All-start_part c (split_on sep s) e (split_on-lacks s))
  ]
