-- ===== src/Auth.antt =====
-- The generators of internal/auth/password.go and internal/auth/session.go, over the bytes that
-- crypto/rand gives; and base64.RawURLEncoding, which both use.
pub mod Encoding
pub mod Fresh
use Prim.Native.Char.{Char, code}
use Prim.Native.Nat.{◌%◌}
use crypticquest_backend.Base.{
  ℕ, zero, suc, ◌+◌, ◌*◌, ◌/◌, String, Option, none, some, List, [], ◌∷◌,
}
use crypticquest_backend.Text.Parts.{cons}

-- The `i`-th character of a text, "A" behind its end.
char_at : String → ℕ → Char
char_at String.[] i = "A"
char_at (String.◌∷◌ c s) zero = c
char_at (String.◌∷◌ c s) (suc i) = char_at s i

-- The digit of a value below 64.
unfoldable pub digit : ℕ → Char
unfolding char_at
digit i = char_at "ABCDEFGHIJKLMNOPQRSTUVWXYZabcdefghijklmnopqrstuvwxyz0123456789-_" i

-- `base64.RawURLEncoding.EncodeToString`: three bytes at a time make four digits, without padding.
unfoldable pub encode : List ℕ → String
encode [] = ""
encode (a ∷ []) = cons (digit (a / 4)) (cons (digit (a % 4 * 16)) "")
encode (a ∷ b ∷ []) =
    cons (digit (a / 4)) (cons (digit (a % 4 * 16 + b / 16)) (cons (digit (b % 16 * 4)) ""))
encode (a ∷ b ∷ c ∷ rest) = cons (digit (a / 4)) (
    cons (digit (a % 4 * 16 + b / 16))
      (cons (digit (b % 16 * 4 + c / 64)) (cons (digit (c % 64)) (encode rest))))

-- `rand.Read` into a buffer of that many bytes; none is an error.
abbrev pub Random : Type 0
Random = ℕ → Option (List ℕ)

encoded : Option (List ℕ) → Option String
unfolding encode
encoded none = none
encoded (some b) = some (encode b)

unfoldable pub generate_temp_password : Random → Option String
unfolding encoded
generate_temp_password random = encoded (random 18)

unfoldable pub generate_session_token : Random → Option String
unfolding encoded
generate_session_token random = encoded (random 32)
