-- ===== src/Text.antt =====
-- What the code uses of Go's strings and strconv packages. A Go string is read here by its code points;
-- one that is not valid UTF-8, as a percent-encoded URL can give, is not modelled.
pub mod Parts
use Prim.Native.Char.{code}
use crypticquest_backend.Base.{
  ℕ, zero, suc, ◌+◌, ◌-◌, ◌*◌, ◌^◌, String, Bool, true, false, ◌&&◌, ◌||◌, Option, none, some, List,
  [], ◌∷◌, map, ℤ, pos, negsuc, leb, ltb, nat_eq, if◌then◌else◌, all, ◌≡◌, refl, arith,
}

abbrev pub codes : String → List ℕ
codes String.[] = []
codes (String.◌∷◌ c s) = code c ∷ codes s

-- The simple lower-case mapping of the Unicode tables, for code points from 128 on.
abbrev pub LowerTable : Type 0
LowerTable = ℕ → ℕ

unfoldable pub lower_rune : LowerTable → ℕ → ℕ
lower_rune table c = if leb 128 c then table c else if leb b'A' c && leb c b'Z' then c + 32 else c

-- `strings.ToLower`
unfoldable pub to_lower : LowerTable → String → List ℕ
unfolding lower_rune
to_lower table s = map (lower_rune table) (codes s)

unfoldable pub codes_eq : List ℕ → List ℕ → Bool
codes_eq [] [] = true
codes_eq (c ∷ cs) (d ∷ ds) = nat_eq c d && codes_eq cs ds
codes_eq _ _ = false

-- `unicode.IsSpace`
unfoldable pub is_space : ℕ → Bool
is_space c =
    (leb 9 c && leb c 13)
    || nat_eq c 32
    || nat_eq c 0x85
    || nat_eq c 0xa0
    || nat_eq c 0x1680
    || (leb 0x2000 c && leb c 0x200a)
    || nat_eq c 0x2028
    || nat_eq c 0x2029
    || nat_eq c 0x202f
    || nat_eq c 0x205f
    || nat_eq c 0x3000

-- `strings.TrimSpace(s) == ""`
unfoldable pub is_blank : String → Bool
unfolding is_space
is_blank s = all is_space (codes s)

-- The bytes of a code point in UTF-8, and `len(s)`.
rune_len : ℕ → ℕ
rune_len c = if ltb c 0x80 then 1 else if ltb c 0x800 then 2 else if ltb c 0x10000 then 3 else 4

sum : List ℕ → ℕ
sum [] = 0
sum (n ∷ ns) = n + sum ns

unfoldable pub byte_length : String → ℕ
unfolding rune_len sum
byte_length s = sum (map rune_len (codes s))

is_digit : ℕ → Bool
is_digit c = leb b'0' c && leb c b'9'

digits_from : ℕ → List ℕ → Option ℕ
digits_from n [] = some n
digits_from n (c ∷ cs) =
    let rest = digits_from (n * 10 + (c - b'0')) cs in if is_digit c then rest else none

-- One digit or more.
unfoldable pub parse_digits : List ℕ → Option ℕ
unfolding digits_from is_digit
parse_digits [] = none
parse_digits (c ∷ cs) = digits_from 0 (c ∷ cs)

-- The range of int64.
unfoldable pub in_range : ℕ → Option ℤ
in_range n = if leb n (2 ^ 63 - 1) then some (pos n) else none

unfoldable pub in_negative_range : ℕ → Option ℤ
in_negative_range zero = some (pos 0)
in_negative_range (suc n) = if leb n (2 ^ 63 - 1) then some (negsuc n) else none

abbrev and_then : Option ℕ → (ℕ → Option ℤ) → Option ℤ
and_then none f = none
and_then (some n) f = f n

signed : List ℕ → Option ℤ
signed [] = none
signed (c ∷ cs) =
    if nat_eq c b'-'
    then and_then (parse_digits cs) in_negative_range
    else if nat_eq c b'+'
    then and_then (parse_digits cs) in_range
    else and_then (parse_digits (c ∷ cs)) in_range

-- `strconv.ParseInt(s, 10, 64)`; none is an error.
unfoldable pub parse_int : String → Option ℤ
unfolding signed parse_digits in_range in_negative_range
parse_int s = signed (codes s)

pub codes_eq_refl : (cs : List ℕ) → codes_eq cs cs ≡ true
unfolding codes_eq
codes_eq_refl [] = refl
codes_eq_refl (c ∷ cs) = ground (arith, codes_eq_refl cs)

pub codes_eq_sound : (xs ys : List ℕ) → codes_eq xs ys ≡ true → xs ≡ ys
unfolding codes_eq
codes_eq_sound [] [] h = refl
codes_eq_sound [] (y ∷ ys) h = absurd (cc h)
codes_eq_sound (x ∷ xs) [] h = absurd (cc h)
codes_eq_sound (x ∷ xs) (y ∷ ys) h =
    let head : x ≡ y = ground arith in
    let tail : xs ≡ ys = codes_eq_sound xs ys (ground arith) in cc
