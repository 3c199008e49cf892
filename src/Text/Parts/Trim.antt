-- ===== src/Text/Parts/Trim.antt =====
-- What strings.TrimSpace leaves.
use Prim.Native.Char.{Char, code}
use crypticquest_backend.Base.{
  String, string_key, ◌≡◌, refl, ◌∙◌, ap, Bool, Bool-cases, inl, inr, true, false, arith, all,
}
use crypticquest_backend.Text.{codes, is_space}
use crypticquest_backend.Text.Parts.{cons, append, trim_left, trim_cons, trim_right, trim_space}

abbrev pub only_spaces : String → Bool
only_spaces s = all is_space (codes s)

abbrev pub starts_with_space : String → Bool
starts_with_space String.[] = false
starts_with_space (String.◌∷◌ c s) = is_space (code c)

abbrev ends_behind : Char → String → Bool
ends_behind c String.[] = is_space (code c)
ends_behind c (String.◌∷◌ d s) = ends_behind d s

abbrev pub ends_with_space : String → Bool
ends_with_space String.[] = false
ends_with_space (String.◌∷◌ c s) = ends_behind c s

-- No space at either end.
abbrev pub IsTrimmed : String → Type 0
IsTrimmed s = (starts_with_space s ≡ false) × (ends_with_space s ≡ false)

trim_left-append :
    (pad s : String) → only_spaces pad ≡ true → trim_left (append pad s) ≡ trim_left s
unfolding trim_left
trim_left-append String.[] s h = refl
trim_left-append (String.◌∷◌ c pad) s h = ground (arith, trim_left-append pad s)

trim_left_same : (s : String) → starts_with_space s ≡ false → trim_left s ≡ s
unfolding trim_left
trim_left_same String.[] h = refl
trim_left_same (String.◌∷◌ c s) h = ground arith

trim_left_blank : (s : String) → only_spaces s ≡ true → trim_left s ≡ ""
unfolding trim_left
trim_left_blank String.[] h = refl
trim_left_blank (String.◌∷◌ c s) h = ground (arith, trim_left_blank s)

trim_right_blank : (s : String) → only_spaces s ≡ true → trim_right s ≡ ""
unfolding trim_right trim_cons
trim_right_blank String.[] h = refl
trim_right_blank (String.◌∷◌ c s) h =
    let e : trim_right s ≡ "" = trim_right_blank s (ground arith) in rw e (ground arith)

trim_right-append :
    (s pad : String) → only_spaces pad ≡ true → trim_right (append s pad) ≡ trim_right s
unfolding trim_right
trim_right-append String.[] pad h = trim_right_blank pad h
trim_right-append (String.◌∷◌ c s) pad h = ap (trim_cons c) (trim_right-append s pad h)

trim_right_same :
    (c : Char) (s : String) → ends_behind c s ≡ false → trim_right (cons c s) ≡ cons c s
unfolding trim_right trim_cons
trim_right_same c String.[] h = ground arith
trim_right_same c (String.◌∷◌ d s) h = rw (trim_right_same d s h) refl

trim_left_starts : (s : String) → starts_with_space (trim_left s) ≡ false
unfolding trim_left
trim_left_starts String.[] = refl
trim_left_starts (String.◌∷◌ c s) = elim (Bool-cases (is_space (code c))) [
  | inl e ↦ rw e (trim_left_starts s)
  | inr e ↦ rw e e
]

ends_cons :
    (c : Char) (s : String) → ends_with_space s ≡ false → ends_with_space (trim_cons c s) ≡ false
unfolding trim_cons
ends_cons c String.[] h = elim (Bool-cases (is_space (code c))) [
  | inl e ↦ rw e refl
  | inr e ↦ rw e e
]
ends_cons c (String.◌∷◌ d s) h = h

trim_right_ends : (s : String) → ends_with_space (trim_right s) ≡ false
unfolding trim_right
trim_right_ends String.[] = refl
trim_right_ends (String.◌∷◌ c s) = ends_cons c (trim_right s) (trim_right_ends s)

starts_cons :
    (c : Char) (s : String) → is_space (code c) ≡ false → starts_with_space (trim_cons c s) ≡ false
unfolding trim_cons
starts_cons c String.[] h = rw h h
starts_cons c (String.◌∷◌ d s) h = h

trim_right_starts :
    (s : String) → starts_with_space s ≡ false → starts_with_space (trim_right s) ≡ false
unfolding trim_right
trim_right_starts String.[] h = refl
trim_right_starts (String.◌∷◌ c s) h = starts_cons c (trim_right s) h

pub trim_space-IsTrimmed : (s : String) → IsTrimmed (trim_space s)
unfolding trim_space
trim_space-IsTrimmed s =
    (trim_right_starts (trim_left s) (trim_left_starts s), trim_right_ends (trim_left s))

-- Spaces on both sides of a trimmed text go.
pub trim_space-append :
    (l s r : String)
    → only_spaces l ≡ true
    → only_spaces r ≡ true
    → IsTrimmed s
    → trim_space (append l (append s r)) ≡ s
unfolding trim_space
trim_space-append l String.[] r hl hr h =
    rw (trim_left-append l r hl) (rw (trim_left_blank r hr) (trim_right_blank "" refl))
trim_space-append l (String.◌∷◌ c s) r hl hr (starts, ends) =
    rw (trim_left-append l (append (cons c s) r) hl) (
      rw (trim_left_same (append (cons c s) r) starts)
        (trim_right-append (cons c s) r hr ∙ trim_right_same c s ends))

cons_not_empty :
    (c : Char) (s : String) → trim_cons c s ≡ "" → (is_space (code c) ≡ true) × (s ≡ "")
unfolding trim_cons
cons_not_empty c String.[] h = elim (Bool-cases (is_space (code c))) [
  | inl e ↦ (e, refl)
  | inr e ↦ absurd (cc (rw e at h))
]
cons_not_empty c (String.◌∷◌ d s) h = absurd (cc)

trim_right_empty : (s : String) → trim_right s ≡ "" → only_spaces s ≡ true
unfolding trim_right
trim_right_empty String.[] h = refl
trim_right_empty (String.◌∷◌ c s) h =
    let (space, rest) = cons_not_empty c (trim_right s) h in rw space (trim_right_empty s rest)

trim_left_empty : (s : String) → only_spaces (trim_left s) ≡ true → only_spaces s ≡ true
unfolding trim_left
trim_left_empty String.[] h = refl
trim_left_empty (String.◌∷◌ c s) h = ground (arith, trim_left_empty s)

pub trim_space_empty : (s : String) → trim_space s ≡ "" → only_spaces s ≡ true
unfolding trim_space
trim_space_empty s h = trim_left_empty s (trim_right_empty (trim_left s) h)
