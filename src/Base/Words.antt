-- ===== src/Base/Words.antt =====
-- Machine words: a `long` and its 64 bits, and bytes in memory, the low one first.
use Prim.Native.Nat.{
  ℕ, zero, suc, ◌+◌, ◌-◌, ◌*◌, ◌/◌, ◌%◌, ◌^◌, ◌≤◌, ◌<◌, differ, digits, bit_xor, bit_xor-bitwise,
}
use mathlib.Core.Path.{◌≡◌, refl, sym, ap, ap₂, ◌∙◌}
use native.Mathlib.Nat.{div-div-eq-div-mul}
use mathlib.Core.List.{[], ◌∷◌}
use native.Mathlib.Omega.{arith}
use wookie.Base.Tests.{ltb, if◌then◌else◌}
use wookie.Base.Order.{Str}
use wookie.Base.Results.{ℤ, pos, negsuc}

abbrev pub long_of_bits : ℕ → ℤ
long_of_bits n = if ltb n (2 ^ 63) then pos n else negsuc (2 ^ 64 - n - 1)

abbrev pub bits_of_long : ℤ → ℕ
bits_of_long (pos n) = n % 2 ^ 64
bits_of_long (negsuc n) = 2 ^ 64 - 1 - n % 2 ^ 64

abbrev pub little_endian : Str → ℕ
little_endian [] = 0
little_endian (b ∷ bs) = b + 256 * little_endian bs

-- The recursion of `bit_xor` is on a count that only has to be large enough.
abbrev xor_with : ℕ → ℕ → ℕ → ℕ
xor_with count a b = digits (λ y. y) differ count a b

xor_with_enough : (n m a b : ℕ) → a ≤ n → a ≤ m → xor_with n a b ≡ xor_with m a b
xor_with_enough zero zero a b p q = refl
xor_with_enough zero (suc m) zero b p q = refl
xor_with_enough zero (suc m) (suc a) b p q = absurd (omega arith)
xor_with_enough (suc n) zero zero b p q = refl
xor_with_enough (suc n) zero (suc a) b p q = absurd (omega arith)
xor_with_enough (suc n) (suc m) zero b p q = refl
xor_with_enough (suc n) (suc m) (suc a) b p q =
    let shrinks : suc a / 2 ≤ a = omega arith in
    omega (
      arith,
      xor_with_enough n m (suc a / 2) (b / 2) (omega (arith, shrinks, p))
          (omega (arith, shrinks, q)),
    )

zero-bit_xor : (b : ℕ) → bit_xor 0 b ≡ b
zero-bit_xor b = bit_xor-bitwise 0 b

differ-digits : (x y : ℕ) → x < 2 → y < 2 → differ x y < 2
differ-digits zero y p q = q
differ-digits (suc x) zero p q = p
differ-digits (suc zero) (suc zero) p q = omega arith
differ-digits (suc zero) (suc (suc y)) p q = absurd (omega arith)
differ-digits (suc (suc x)) (suc y) p q = absurd (omega arith)

-- The digits behind the lowest one.
bit_xor-half : (a b : ℕ) → bit_xor a b / 2 ≡ bit_xor (a / 2) (b / 2)
bit_xor-half zero b = omega (arith, zero-bit_xor b, zero-bit_xor (b / 2))
bit_xor-half (suc a) b = omega (
  arith,
  bit_xor-bitwise (suc a) b,
  bit_xor-bitwise (suc a / 2) (b / 2),
  xor_with_enough a (suc a / 2) (suc a / 2) (b / 2) (omega arith) (omega arith),
  differ-digits (suc a % 2) (b % 2) (omega arith) (omega arith),
)

-- The digits behind the `n` lowest ones.
pub bit_xor-shift : (n a b : ℕ) → bit_xor a b / 2 ^ n ≡ bit_xor (a / 2 ^ n) (b / 2 ^ n)
bit_xor-shift zero a b = whole (bit_xor a b) ∙ ap₂ bit_xor (sym (whole a)) (sym (whole b))
  where
    whole : (x : ℕ) → x / 1 ≡ x
    whole x = omega arith
bit_xor-shift (suc n) a b =
    sym (halves (bit_xor a b))
    ∙ ap (λ x. x / 2 ^ n) (bit_xor-half a b)
    ∙ bit_xor-shift n (a / 2) (b / 2)
    ∙ ap₂ bit_xor (halves a) (halves b)
  where
    twice : 2 * 2 ^ n ≡ 2 ^ suc n
    twice = omega arith

    halves : (x : ℕ) → x / 2 / 2 ^ n ≡ x / 2 ^ suc n
    halves x = div-div-eq-div-mul x 2 (2 ^ n) ∙ ap (λ k. x / k) twice
