-- ===== src/Decimal/Digits.antt =====
-- A number in decimal is read back.
use wookie.Base.{
  ℕ, zero, suc, ◌+◌, ◌-◌, ◌/◌, ◌%◌, ◌^◌, ◌==◌, ◌≡◌, ◌<◌, refl, sym, ap, subst, append-nil, ◌∙◌,
  true, false, Bool-cases, inl, inr, [], ◌∷◌, ◌++◌, replicate, length, All, if◌then◌else◌, Str, pos,
  arith,
}
use wookie.Decimal.{
  max_digits, count_loop, set_char, write_loop, decimal, lexical_cast, is_digit, read_digits, atoi,
}

-- The digits of a number, in front of others.
digits : ℕ → ℕ → Str → Str
digits zero value behind = behind
digits (suc fuel) value behind =
    let more = digits fuel (value / 10) ((b'0' + value % 10) ∷ behind) in
    if value == 0 then behind else more

set_last :
    (n c : ℕ) (behind : Str)
    → set_char n c (replicate (suc n) 0 ++ behind) ≡ replicate n 0 ++ c ∷ behind
set_last zero c behind = refl
set_last (suc n) c behind = ap (◌∷◌ 0) (set_last n c behind)

count_loop-from : (fuel value n : ℕ) → count_loop fuel value n ≡ n + count_loop fuel value 0
unfolding count_loop
count_loop-from zero value n = omega arith
count_loop-from (suc fuel) value n =
    ground (arith, count_loop-from fuel (value / 10) (n + 1), count_loop-from fuel (value / 10) 1)

write_last :
    (fuel value c n m : ℕ) (behind : Str)
    → m ≡ suc n
    → write_loop fuel value (m - 1) (set_char (m - 1) c (replicate m 0 ++ behind))
      ≡ write_loop fuel value n (replicate n 0 ++ c ∷ behind)
write_last fuel value c n m behind h =
    let before : m - 1 ≡ n = omega (arith, h) in
    rw (before, h) (ap (write_loop fuel value n) (set_last n c behind))

-- The digits of any number below ten.
is_digit-true : (d : ℕ) → d < 10 → is_digit (b'0' + d) ≡ true
is_digit-true d small = ground arith

write_loop-digits :
    (fuel value : ℕ) (behind : Str)
    → write_loop fuel value
        (count_loop fuel value 0)
        (replicate (count_loop fuel value 0) 0 ++ behind)
      ≡ digits fuel value behind
unfolding write_loop count_loop digits
write_loop-digits zero value behind = refl
write_loop-digits (suc fuel) value behind = elim (Bool-cases (value == 0)) [
  | inl nothing ↦ rw nothing refl
  | inr some_digit ↦ rw some_digit (
      write_last fuel (value / 10) (b'0' + value % 10) (count_loop fuel (value / 10) 0)
        (count_loop fuel (value / 10) 1) behind (omega (arith, count_loop-from fuel (value / 10) 1))
      ∙ write_loop-digits fuel (value / 10) ((b'0' + value % 10) ∷ behind))
]

read_digits-digits :
    (fuel value : ℕ) (behind : Str)
    → value < 10 ^ fuel
    → read_digits 0 (digits fuel value behind) ≡ read_digits value behind
unfolding digits
read_digits-digits zero value behind small = ap (λ v. read_digits v behind) (omega (arith, small))
read_digits-digits (suc fuel) value behind small = elim (Bool-cases (value == 0)) [
  | inl nothing ↦ rw nothing (ap (λ v. read_digits v behind) (ground (arith, nothing)))
  | inr some_digit ↦ rw some_digit (
      read_digits-digits fuel (value / 10) ((b'0' + value % 10) ∷ behind) (omega (arith, small))
      ∙ rw (is_digit-true (value % 10) (omega arith))
          (ap (λ v. read_digits v behind) (omega arith)))
]

-- What stands in front of the digits is a digit.
Starts : Str → Type 0
Starts [] = ⊥
Starts (c ∷ cs) = is_digit c ≡ true

digits-Starts : (fuel value : ℕ) (behind : Str) → Starts behind → Starts (digits fuel value behind)
unfolding digits Starts
digits-Starts zero value behind h = h
digits-Starts (suc fuel) value behind h = elim (Bool-cases (value == 0)) [
  | inl nothing ↦ rw nothing h
  | inr some_digit ↦ rw some_digit (
      digits-Starts fuel (value / 10) ((b'0' + value % 10) ∷ behind)
        (is_digit-true (value % 10) (omega arith)))
]

atoi-Starts : (text : Str) → Starts text → atoi text ≡ pos (read_digits 0 text)
unfolding atoi Starts
atoi-Starts [] h = elim h [ ]
atoi-Starts (c ∷ cs) h = ground (arith, h)

decimal-written :
    (fuel value : ℕ) → (value == 0) ≡ false → decimal fuel value ≡ digits fuel value []
unfolding decimal
decimal-written fuel value positive = rw positive (
    ap (write_loop fuel value (count_loop fuel value 0))
      (sym (append-nil (replicate (count_loop fuel value 0) 0)))
    ∙ write_loop-digits fuel value [])

digits-first :
    (fuel value : ℕ)
    → (value == 0) ≡ false
    → digits (suc fuel) value [] ≡ digits fuel (value / 10) ((b'0' + value % 10) ∷ [])
unfolding digits
digits-first fuel value positive = rw positive refl

decimal-digits :
    (fuel value : ℕ)
    → (value == 0) ≡ false
    → decimal (suc fuel) value ≡ digits fuel (value / 10) ((b'0' + value % 10) ∷ [])
decimal-digits fuel value positive =
    decimal-written (suc fuel) value positive ∙ digits-first fuel value positive

decimal-Starts : (fuel value : ℕ) → Starts (decimal (suc fuel) value)
unfolding decimal Starts
decimal-Starts fuel value = elim (Bool-cases (value == 0)) [
  | inl nothing ↦ rw nothing refl
  | inr positive ↦ subst Starts (sym (decimal-digits fuel value positive)) (
      digits-Starts fuel (value / 10) ((b'0' + value % 10) ∷ [])
        (is_digit-true (value % 10) (omega arith)))
]

read_digits-decimal :
    (fuel value : ℕ) → value < 10 ^ suc fuel → read_digits 0 (decimal (suc fuel) value) ≡ value
unfolding decimal
read_digits-decimal fuel value small = elim (Bool-cases (value == 0)) [
  | inl nothing ↦ rw nothing (ground (arith, nothing))
  | inr positive ↦
      ap (read_digits 0) (decimal-digits fuel value positive)
      ∙ read_digits-digits fuel (value / 10) ((b'0' + value % 10) ∷ []) (omega (arith, small))
      ∙ rw (is_digit-true (value % 10) (omega arith)) (omega arith)
]

-- What `lexical_cast` makes of a number of at most 20 digits, `atoi` reads as this number.
pub atoi-lexical_cast : (value : ℕ) → value < 10 ^ 20 → atoi (lexical_cast value) ≡ pos value
unfolding lexical_cast
atoi-lexical_cast value small =
    atoi-Starts (decimal 20 value) (decimal-Starts 19 value)
    ∙ ap pos (read_digits-decimal 19 value small)

digits-All :
    (fuel value : ℕ) (behind : Str)
    → All (λ c. is_digit c ≡ true) behind
    → All (λ c. is_digit c ≡ true) (digits fuel value behind)
unfolding digits
digits-All zero value behind h = h
digits-All (suc fuel) value behind h = elim (Bool-cases (value == 0)) [
  | inl nothing ↦ rw nothing h
  | inr some_digit ↦ rw some_digit (
      digits-All fuel (value / 10) ((b'0' + value % 10) ∷ behind)
        (is_digit-true (value % 10) (omega arith), h))
]

decimal-All : (fuel value : ℕ) → All (λ c. is_digit c ≡ true) (decimal fuel value)
unfolding decimal
decimal-All fuel value = elim (Bool-cases (value == 0)) [
  | inl nothing ↦ rw nothing (refl, tt)
  | inr positive ↦
      subst (All (λ c. is_digit c ≡ true)) (sym (decimal-written fuel value positive))
        (digits-All fuel value [] tt)
]

-- A number is written with digits only.
pub lexical_cast-All : (value : ℕ) → All (λ c. is_digit c ≡ true) (lexical_cast value)
unfolding lexical_cast
lexical_cast-All value = decimal-All max_digits value

length-Starts : (text : Str) → Starts text → 0 < length text
unfolding Starts
length-Starts [] h = elim h [ ]
length-Starts (c ∷ cs) h = omega arith

pub length-lexical_cast : (value : ℕ) → 0 < length (lexical_cast value)
unfolding lexical_cast
length-lexical_cast value = length-Starts (decimal 20 value) (decimal-Starts 19 value)
