-- ===== src/Auth/Fresh.antt =====
-- What the generators of internal/auth give, where crypto/rand fills the buffer with bytes.
use crypticquest_backend.Base.{
  ℕ, ◌+◌, ◌≡◌, refl, sym, ◌∙◌, ap, subst, ◌*◌, ◌/◌, String, true, Option, none, some, List, ltb,
  length, all, arith,
}
use Prim.Native.Char.{code}
use crypticquest_backend.Text.{codes, byte_length}
use crypticquest_backend.Handlers.Account.{within}
use crypticquest_backend.Auth.{
  encode, Random, encoded, generate_temp_password, generate_session_token,
}
use crypticquest_backend.Auth.Encoding.{
  is_url_safe, AreBytes, size, size-encode, safe-encode, encode_injective,
}

-- What crypto/rand promises: as many bytes as were asked for, unless it fails.
pub record IsRandom (random : Random) : Type 0 where
  pub filled : (n : ℕ) (b : List ℕ) → random n ≡ some b → length b ≡ n
  pub bytes : (n : ℕ) (b : List ℕ) → random n ≡ some b → AreBytes b

safe_is_ascii : (c : ℕ) → is_url_safe c ≡ true → ltb c 0x80 ≡ true
unfolding is_url_safe
safe_is_ascii c h = ground arith

byte_length-safe : (s : String) → all is_url_safe (codes s) ≡ true → byte_length s ≡ size s
unfolding byte_length
byte_length-safe String.[] h = refl
byte_length-safe (String.◌∷◌ c s) h = ground (arith, safe_is_ascii (code c), byte_length-safe s)

encoded-eq-some :
    (o : Option (List ℕ)) (pw : String)
    → encoded o ≡ some pw
    → (b : List ℕ) × (o ≡ some b) × (encode b ≡ pw)
unfolding encoded
encoded-eq-some none pw h = absurd (cc)
encoded-eq-some (some b) pw h = (b, refl, cc)

within_bounds : (pw : String) → byte_length pw ≡ 24 → within 8 72 pw ≡ true
unfolding within
within_bounds pw h = rw h refl

-- A temporary password that is generated is 24 URL-safe characters and bytes long, so that the length
-- rule for the passwords of players accepts it.
pub temp_password_fits :
    (random : Random) (pw : String)
    → IsRandom random
    → generate_temp_password random ≡ some pw
    → (size pw ≡ 24)
      × (all is_url_safe (codes pw) ≡ true)
      × (byte_length pw ≡ 24)
      × (within 8 72 pw ≡ true)
unfolding generate_temp_password
temp_password_fits random pw r e =
    let (b, q, text) = encoded-eq-some (random 18) pw e in
    let bytes = r.bytes 18 b q in
    let long : size pw ≡ 24 =
      subst (λ s. size s ≡ 24) text
        (size-encode b bytes ∙ ap (λ n. (n * 4 + 2) / 3) (r.filled 18 b q)) in
    let safe : all is_url_safe (codes pw) ≡ true =
      subst (λ s. all is_url_safe (codes s) ≡ true) text (safe-encode b bytes) in
    let short = byte_length-safe pw safe ∙ long in (long, safe, short, within_bounds pw short)

-- Two sessions have one token only if crypto/rand has given the same 32 bytes for both: all that it
-- gives is in the token.
pub session_tokens_differ :
    (first second : Random) (token : String)
    → IsRandom first
    → IsRandom second
    → generate_session_token first ≡ some token
    → generate_session_token second ≡ some token
    → (first 32 ≡ second 32) × (size token ≡ 43) × (all is_url_safe (codes token) ≡ true)
unfolding generate_session_token
session_tokens_differ first second token r s e f =
    let (b, p, t) = encoded-eq-some (first 32) token e in
    let (c, q, u) = encoded-eq-some (second 32) token f in
    (
      p ∙ ap some (encode_injective b c (r.bytes 32 b p) (s.bytes 32 c q) (t ∙ sym u)) ∙ sym q,
      subst (λ x. size x ≡ 43) t
          (size-encode b (r.bytes 32 b p) ∙ ap (λ n. (n * 4 + 2) / 3) (r.filled 32 b p)),
      subst (λ x. all is_url_safe (codes x) ≡ true) t (safe-encode b (r.bytes 32 b p)),
    )
