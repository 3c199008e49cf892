-- ===== src/Tests/Auth.antt =====
-- The theorems on the generators at a source of zeros, and runs of them.
use crypticquest_backend.Base.{
  ℕ, zero, suc, ◌≡◌, refl, subst, String, true, some, List, [], ◌∷◌, all, length, arith,
}
use crypticquest_backend.Text.{codes, byte_length}
use crypticquest_backend.Handlers.Account.{within}
use crypticquest_backend.Auth.{
  Random, digit, encode, generate_temp_password, generate_session_token,
}
use crypticquest_backend.Auth.Encoding.{AreBytes, size, is_url_safe}
use crypticquest_backend.Auth.Fresh.{IsRandom, temp_password_fits, session_tokens_differ}

abbrev zeros : ℕ → List ℕ
zeros zero = []
zeros (suc n) = 0 ∷ zeros n

abbrev still : Random
still n = some (zeros n)

generator_runs :
    (generate_temp_password still ≡ some "AAAAAAAAAAAAAAAAAAAAAAAA")
    × (encode (251 ∷ 255 ∷ 1 ∷ 7 ∷ []) ≡ "-_8BBw")
unfolding generate_temp_password encode digit
generator_runs = (refl, refl)

zeros-length : (n : ℕ) → length (zeros n) ≡ n
zeros-length zero = refl
zeros-length (suc n) = omega (arith, zeros-length n)

zeros-bytes : (n : ℕ) → AreBytes (zeros n)
zeros-bytes zero = tt
zeros-bytes (suc n) = (omega arith, zeros-bytes n)

still-IsRandom : IsRandom still
still-IsRandom = record {
  filled = λ n b e. let same : zeros n ≡ b = cc in subst (λ x. length x ≡ n) same (zeros-length n);
  bytes = λ n b e. let same : zeros n ≡ b = cc in subst AreBytes same (zeros-bytes n);
}

abbrev dull : String
dull = "AAAAAAAAAAAAAAAAAAAAAAAA"

temp_password_fits_example :
    (size dull ≡ 24)
    × (all is_url_safe (codes dull) ≡ true)
    × (byte_length dull ≡ 24)
    × (within 8 72 dull ≡ true)
unfolding generate_temp_password encode digit
temp_password_fits_example = temp_password_fits still dull still-IsRandom refl

abbrev dull_token : String
dull_token = "AAAAAAAAAAAAAAAAAAAAAAAAAAAAAAAAAAAAAAAAAAA"

session_tokens_differ_example :
    (still 32 ≡ still 32) × (size dull_token ≡ 43) × (all is_url_safe (codes dull_token) ≡ true)
unfolding generate_session_token encode digit
session_tokens_differ_example =
    session_tokens_differ still still dull_token still-IsRandom still-IsRandom refl refl
