-- ===== src/Hash.antt =====
-- include/wookie/hash.hpp: `murmur`. A word of 64 bits is a number below 2^64, also where the code
-- keeps it in a `long`; characters are bytes.
pub mod Positive
mod Tests
use Prim.Native.Nat.{bit_xor}
use wookie.Base.{
  ℕ, zero, suc, ◌+◌, ◌-◌, ◌*◌, ◌/◌, ◌%◌, ◌^◌, none, some, length, take, drop, get_elem?, ltb,
  if◌then◌else◌, Str, ℤ, little_endian, long_of_bits, bits_of_long,
}

abbrev pub m : ℕ
m = 0xc6a4a7935bd1e995

abbrev pub r : ℕ
r = 47

-- `*` of `uint64_t`.
abbrev pub mul : ℕ → ℕ → ℕ
mul a b = a * b % 2 ^ 64

-- `>>` of `uint64_t`, and of `long`, which repeats the sign.
abbrev pub shift_right : ℕ → ℕ → ℕ
shift_right x n = x / 2 ^ n

abbrev pub shift_right_long : ℕ → ℕ → ℕ
shift_right_long x n = if ltb x (2 ^ 63) then x / 2 ^ n else x / 2 ^ n + (2 ^ 64 - 2 ^ (64 - n))

-- The body of the loop over the words of the string.
pub mix : ℕ → ℕ → ℕ
mix h word =
    let k = mul word m in
    let k = bit_xor k (shift_right k r) in let k = mul k m in mul (bit_xor h k) m

-- The loop, over `words` words.
pub mix_words : ℕ → ℕ → Str → ℕ
unfolding mix
mix_words zero h text = h
mix_words (suc words) h text = mix_words words (mix h (little_endian (take 8 text))) (drop 8 text)

-- The cases of the switch, from `n` down, each of which falls through to the next.
pub fall_through : ℕ → ℕ → Str → ℕ
fall_through zero h data2 = h
fall_through (suc n) h data2 =
    let byte : ℕ = elim (get_elem? data2 n) [ none ↦ 0 | some b ↦ b ] in
    fall_through n (bit_xor h (byte * 2 ^ (8 * n))) data2

-- The switch: `case 1` ends with a product, and there is no case 0.
pub mix_tail : ℕ → ℕ → Str → ℕ
unfolding fall_through
mix_tail zero h data2 = h
mix_tail (suc n) h data2 = mul (fall_through (suc n) h data2) m

-- The last three statements.
pub finish : ℕ → ℕ
finish h = let h = mul (bit_xor h (shift_right_long h r)) m in bit_xor h (shift_right_long h r)

-- `murmur` up to there, and `murmur`.
pub mixed : Str → ℤ → ℕ
unfolding mix_words mix_tail
mixed str seed =
    let size = length str in
    let h = bit_xor (bits_of_long seed) (mul size m) in
    let h = mix_words (size / 8) h str in mix_tail (size % 8) h (drop (8 * (size / 8)) str)

pub murmur : Str → ℤ → ℤ
unfolding mixed finish
murmur str seed = long_of_bits (finish (mixed str seed))
