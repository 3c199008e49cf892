-- ===== src/Text/Parts/Lacking.antt =====
-- strings.TrimSpace brings no separator in.
use Prim.Native.Char.{Char, code}
use crypticquest_backend.Base.{ℕ, String, ◌≡◌, refl, Bool-cases, inl, inr, true, arith}
use crypticquest_backend.Text.{is_space}
use crypticquest_backend.Text.Parts.{cons, trim_left, trim_cons, trim_right, trim_space}
use crypticquest_backend.Text.Parts.Split.{lacks}

module _ (sep : ℕ) where
  trim_left-lacks : (s : String) → lacks sep s ≡ true → lacks sep (trim_left s) ≡ true
  unfolding trim_left
  trim_left-lacks String.[] h = refl
  trim_left-lacks (String.◌∷◌ c s) h = ground (arith, trim_left-lacks s)

  trim_cons-lacks :
      (c : Char) (s : String)
      → lacks sep (cons c "") ≡ true
      → lacks sep s ≡ true
      → lacks sep (trim_cons c s) ≡ true
  unfolding trim_cons
  trim_cons-lacks c String.[] h k = elim (Bool-cases (is_space (code c))) [
    | inl e ↦ rw e refl
    | inr e ↦ rw e h
  ]
  trim_cons-lacks c (String.◌∷◌ d s) h k = ground arith

  trim_right-lacks : (s : String) → lacks sep s ≡ true → lacks sep (trim_right s) ≡ true
  unfolding trim_right
  trim_right-lacks String.[] h = refl
  trim_right-lacks (String.◌∷◌ c s) h =
      trim_cons-lacks c (trim_right s) (ground arith) (trim_right-lacks s (ground arith))

  pub trim_space-lacks : (s : String) → lacks sep s ≡ true → lacks sep (trim_space s) ≡ true
  unfolding trim_space
  trim_space-lacks s h = trim_right-lacks (trim_left s) (trim_left-lacks s h)
