-- ===== src/Auth/Encoding.antt =====
-- What base64 text looks like, and that it can be decoded.
use Prim.Native.Char.{code}
use Prim.Native.Nat.{◌%◌}
use crypticquest_backend.Base.{
  ℕ, zero, suc, ◌+◌, ◌-◌, ◌*◌, ◌/◌, ◌<◌, ◌≡◌, refl, sym, ◌∙◌, ap, String, Bool, true, ◌&&◌, ◌||◌,
  List, [], ◌∷◌, leb, nat_eq, if◌then◌else◌, length, all, All, arith,
}
use crypticquest_backend.Text.{codes}
use crypticquest_backend.Auth.{digit, encode}

all_below : ℕ → (ℕ → Bool) → Bool
all_below zero p = true
all_below (suc n) p = p n && all_below n p

all_below_sound : (n : ℕ) (p : ℕ → Bool) (i : ℕ) → all_below n p ≡ true → i < n → p i ≡ true
unfolding all_below
all_below_sound zero p i h lt = absurd (omega arith)
all_below_sound (suc n) p i h lt = ground (arith, all_below_sound n p i)

-- The value of a digit.
value : ℕ → ℕ
value c =
    if nat_eq c b'-'
    then 62
    else if nat_eq c b'_'
    then 63
    else if leb c b'9'
    then c + 4
    else if leb c b'Z'
    then c - 65
    else c - 71

value_table : all_below 64 (λ i. nat_eq (value (code (digit i))) i) ≡ true
unfolding all_below value digit
value_table = refl

value-digit : (i : ℕ) → i < 64 → value (code (digit i)) ≡ i
value-digit i h =
    nat_eq_iff _ i (all_below_sound 64 (λ j. nat_eq (value (code (digit j))) j) i value_table h)
  where
    nat_eq_iff : (a b : ℕ) → nat_eq a b ≡ true → a ≡ b
    nat_eq_iff a b h = ground arith

-- `[A-Za-z0-9_-]`
unfoldable pub is_url_safe : ℕ → Bool
is_url_safe c =
    (leb b'a' c && leb c b'z')
    || (leb b'A' c && leb c b'Z')
    || (leb b'0' c && leb c b'9')
    || nat_eq c b'_'
    || nat_eq c b'-'

safe_table : all_below 64 (λ i. is_url_safe (code (digit i))) ≡ true
unfolding all_below is_url_safe digit
safe_table = refl

safe-digit : (i : ℕ) → i < 64 → is_url_safe (code (digit i)) ≡ true
safe-digit i h = all_below_sound 64 (λ j. is_url_safe (code (digit j))) i safe_table h

abbrev pub AreBytes : List ℕ → Type 0
AreBytes = All (λ b. b < 256)

-- The inverse of `encode`.
decode : String → List ℕ
unfolding value
decode (String.◌∷◌ p (String.◌∷◌ q String.[])) = (value (code p) * 4 + value (code q) / 16) ∷ []
decode (String.◌∷◌ p (String.◌∷◌ q (String.◌∷◌ r String.[]))) =
    (value (code p) * 4 + value (code q) / 16)
    ∷ (value (code q) % 16 * 16 + value (code r) / 4)
    ∷ []
decode (String.◌∷◌ p (String.◌∷◌ q (String.◌∷◌ r (String.◌∷◌ s rest)))) =
    (value (code p) * 4 + value (code q) / 16)
    ∷ (value (code q) % 16 * 16 + value (code r) / 4)
    ∷ (value (code r) % 4 * 64 + value (code s))
    ∷ decode rest
decode _ = []

two : {a a' b b' : ℕ} → a ≡ a' → b ≡ b' → a ∷ b ∷ [] ≡ a' ∷ b' ∷ []
two p q = cc

three :
    {a a' b b' c c' : ℕ} {xs ys : List ℕ}
    → a ≡ a'
    → b ≡ b'
    → c ≡ c'
    → xs ≡ ys
    → a ∷ b ∷ c ∷ xs ≡ a' ∷ b' ∷ c' ∷ ys
three p q r s = cc

decode-encode : (bs : List ℕ) → AreBytes bs → decode (encode bs) ≡ bs
unfolding decode encode
decode-encode [] h = refl
decode-encode (a ∷ []) (ha, _) =
    rw (value-digit (a / 4) (omega arith))
      (rw (value-digit (a % 4 * 16) (omega arith)) (ap (λ x. x ∷ []) (omega arith)))
decode-encode (a ∷ b ∷ []) (ha, (hb, _)) =
    rw
      (
        value-digit (a / 4) (omega arith),
        value-digit (a % 4 * 16 + b / 16) (omega arith),
        value-digit (b % 16 * 4) (omega arith),
      )
      (two (omega arith) (omega arith))
decode-encode (a ∷ b ∷ c ∷ rest) (ha, (hb, (hc, h))) =
    rw
      (
        value-digit (a / 4) (omega arith),
        value-digit (a % 4 * 16 + b / 16) (omega arith),
        value-digit (b % 16 * 4 + c / 64) (omega arith),
        value-digit (c % 64) (omega arith),
      )
      (three (omega arith) (omega arith) (omega arith) (decode-encode rest h))

-- No two byte strings have one text.
pub encode_injective :
    (bs cs : List ℕ) → AreBytes bs → AreBytes cs → encode bs ≡ encode cs → bs ≡ cs
encode_injective bs cs hb hc e = sym (decode-encode bs hb) ∙ ap decode e ∙ decode-encode cs hc

-- The number of characters, all of which are URL-safe.
abbrev pub size : String → ℕ
size s = length (codes s)

pub size-encode : (bs : List ℕ) → AreBytes bs → size (encode bs) ≡ (length bs * 4 + 2) / 3
unfolding encode
size-encode [] h = refl
size-encode (a ∷ []) h = refl
size-encode (a ∷ b ∷ []) h = refl
size-encode (a ∷ b ∷ c ∷ rest) (ha, (hb, (hc, h))) = omega (arith, size-encode rest h)

pub safe-encode : (bs : List ℕ) → AreBytes bs → all is_url_safe (codes (encode bs)) ≡ true
unfolding encode
safe-encode [] h = refl
safe-encode (a ∷ []) (ha, _) =
    ground (arith, safe-digit (a / 4) (omega arith), safe-digit (a % 4 * 16) (omega arith))
safe-encode (a ∷ b ∷ []) (ha, (hb, _)) = ground (
  arith,
  safe-digit (a / 4) (omega arith),
  safe-digit (a % 4 * 16 + b / 16) (omega arith),
  safe-digit (b % 16 * 4) (omega arith),
)
safe-encode (a ∷ b ∷ c ∷ rest) (ha, (hb, (hc, h))) = ground (
  arith,
  safe-digit (a / 4) (omega arith),
  safe-digit (a % 4 * 16 + b / 16) (omega arith),
  safe-digit (b % 16 * 4 + c / 64) (omega arith),
  safe-digit (c % 64) (omega arith),
  safe-encode rest h,
)
