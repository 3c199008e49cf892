-- ===== src/Base/Int.antt =====
-- Signed integers over the native numbers, under the library's names (its ℤ stands on the unary ℕ).
use Prim.Native.Nat.{ℕ}
use mathlib.Core.Path.{◌≡◌}
use mathlib.Core.Logic.{◌↔◌}
use mathlib.Core.Bool.{Bool, true, false}
use native.Mathlib.Omega.{arith}
use crypticquest_backend.Base.Tests.{leb, nat_eq, Key}

-- `negsuc n` is -(n + 1).
pub data ℤ : Type 0 where
  pos : ℕ → ℤ
  negsuc : ℕ → ℤ

unfoldable pub int_eq : ℤ → ℤ → Bool
int_eq (pos m) (pos n) = nat_eq m n
int_eq (negsuc m) (negsuc n) = nat_eq m n
int_eq (pos m) (negsuc n) = false
int_eq (negsuc m) (pos n) = false

pub int_eq_iff : (a b : ℤ) → (int_eq a b ≡ true) ↔ (a ≡ b)
unfolding int_eq
int_eq_iff (pos m) (pos n) = ground arith
int_eq_iff (negsuc m) (negsuc n) = ground arith
int_eq_iff (pos m) (negsuc n) = ground arith
int_eq_iff (negsuc m) (pos n) = ground arith

instance abbrev pub int_key : Key ℤ
int_key = record { same = int_eq; same_iff = int_eq_iff }

unfoldable pub int_leb : ℤ → ℤ → Bool
int_leb (pos m) (pos n) = leb m n
int_leb (negsuc m) (negsuc n) = leb n m
int_leb (pos m) (negsuc n) = false
int_leb (negsuc m) (pos n) = true

pub int_leb_refl : (a : ℤ) → int_leb a a ≡ true
unfolding int_leb
int_leb_refl (pos m) = ground arith
int_leb_refl (negsuc m) = ground arith

pub int_leb_total : (a b : ℤ) → int_leb a b ≡ false → int_leb b a ≡ true
unfolding int_leb
int_leb_total (pos m) (pos n) h = ground arith
int_leb_total (negsuc m) (negsuc n) h = ground arith
int_leb_total (pos m) (negsuc n) h = ground arith
int_leb_total (negsuc m) (pos n) h = ground arith

pub int_leb_trans : (a b c : ℤ) → int_leb a b ≡ true → int_leb b c ≡ true → int_leb a c ≡ true
unfolding int_leb
int_leb_trans a b c h k = ground arith

pub int_leb_antisym : (a b : ℤ) → int_leb a b ≡ true → int_leb b a ≡ true → a ≡ b
unfolding int_leb
int_leb_antisym a b h k = ground arith
