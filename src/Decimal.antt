-- ===== src/Decimal.antt =====
-- include/wookie/lexical_cast.hpp: a `size_t` in decimal; and `atoi` as the programs use it. Both
-- loops have fuel for the 20 digits of a `size_t`.
pub mod Digits
use wookie.Base.{
  ℕ, zero, suc, ◌+◌, ◌-◌, ◌*◌, ◌/◌, ◌%◌, ◌==◌, Bool, ◌&&◌, ◌||◌, [], ◌∷◌, leb, replicate,
  if◌then◌else◌, Str, ℤ, pos, negsuc,
}

abbrev pub max_digits : ℕ
max_digits = 20

-- The loop that counts the digits.
pub count_loop : ℕ → ℕ → ℕ → ℕ
count_loop zero calculated length = length
count_loop (suc fuel) calculated length =
    let more = count_loop fuel (calculated / 10) (length + 1) in
    if calculated == 0 then length else more

-- `result[i] = c`.
abbrev pub set_char : ℕ → ℕ → Str → Str
set_char i c [] = []
set_char zero c (x ∷ xs) = c ∷ xs
set_char (suc i) c (x ∷ xs) = x ∷ set_char i c xs

-- The loop that writes them from the back.
pub write_loop : ℕ → ℕ → ℕ → Str → Str
write_loop zero value length result = result
write_loop (suc fuel) value length result =
    let more =
      write_loop fuel (value / 10) (length - 1)
        (set_char (length - 1) (b'0' + value % 10) result) in
    if value == 0 then result else more

-- `lexical_cast`, for as many digits as `fuel`.
pub decimal : ℕ → ℕ → Str
unfolding count_loop write_loop
decimal fuel value =
    let length = count_loop fuel value 0 in
    if value == 0 then b'0' ∷ [] else write_loop fuel value length (replicate length 0)

pub lexical_cast : ℕ → Str
unfolding decimal
lexical_cast value = decimal max_digits value

abbrev pub is_digit : ℕ → Bool
is_digit c = leb b'0' c && leb c b'9'

-- `isspace`.
abbrev pub is_space : ℕ → Bool
is_space c = c == 32 || leb 9 c && leb c 13

abbrev pub negative : ℕ → ℤ
negative zero = pos 0
negative (suc n) = negsuc n

abbrev pub read_digits : ℕ → Str → ℕ
read_digits n [] = n
read_digits n (c ∷ cs) =
    let more = read_digits (n * 10 + (c - b'0')) cs in if is_digit c then more else n

-- `atoi`, of a number that fits an `int`: white space, a sign and digits.
abbrev pub read_signed : Str → ℤ
read_signed [] = pos 0
read_signed (c ∷ cs) =
    if c == b'-'
    then negative (read_digits 0 cs)
    else if c == b'+'
    then pos (read_digits 0 cs)
    else pos (read_digits 0 (c ∷ cs))

pub atoi : Str → ℤ
atoi [] = pos 0
atoi (c ∷ cs) = let rest = atoi cs in if is_space c then rest else read_signed (c ∷ cs)
