-- ===== src/Iconv.antt =====
-- include/wookie/iconv.hpp: `charset_convert`, the loop around iconv. The conversion itself is
-- libc's and a parameter; the loop has as much fuel as the text has bytes.
pub mod Decode
pub mod Ascii
mod Tests
use wookie.Base.{
  ℕ, zero, suc, ◌+◌, ◌==◌, Option, none, some, [], ◌∷◌, ◌++◌, drop, length, if◌then◌else◌, Str,
  Result, ok, err, runtime_error, einval,
}

-- `E2BIG` and `EILSEQ`.
abbrev pub e2big : ℕ
e2big = 7

abbrev pub eilseq : ℕ
eilseq = 84

-- What a call of `iconv` did: the descriptor with its shift state, how many bytes it read and what
-- it wrote, and `errno` if it returned -1.
pub record Called (Cd : Type 0) : Type 0 where
  pub cd : Cd
  pub consumed : ℕ
  pub written : Str
  pub errno : Option ℕ

-- What the code uses of libc: `iconv_open` with the target first, `iconv` with the input and the
-- room for output, and `iconv` without input.
pub record Iconv : Type 1 where
  pub Cd : Type 0
  pub iconv_open : Str → Str → Option Cd
  pub iconv : Cd → Str → ℕ → Called Cd
  pub initial : Cd → Cd

-- The size of `m_tmp`.
abbrev pub room : ℕ
room = 4096

-- The input left after a call, or none where the loop breaks. `EILSEQ` drops a byte; at the end of
-- the input, where iconv does not report it, `inleft` would wrap.
pub left : Str → ℕ → Option ℕ → Option Str
left src consumed none = some (drop consumed src)
left src consumed (some e) =
    if e == einval
    then none
    else if e == e2big
    then some (drop consumed src)
    else if e == eilseq
    then some (drop (consumed + 1) src)
    else some (drop consumed src)

module _ (libc : Iconv) where
  open libc use {Cd, iconv_open, iconv, initial}

  -- `charset_convert::charset_convert`.
  pub open_convert : Str → Str → Result Cd
  open_convert to from = elim (iconv_open to from) [ none ↦ err runtime_error | some cd ↦ ok cd ]

  -- `charset_convert::reset`.
  pub reset : Cd → Cd
  reset cd = initial cd

  -- The loop of `charset_convert::convert`, with the output so far.
  pub convert_loop : ℕ → Cd → Str → Str → Option Str
  unfolding left
  convert_loop fuel cd [] out = some out
  convert_loop zero cd (c ∷ src) out = none
  convert_loop (suc fuel) cd (c ∷ src) out =
      let r = iconv cd (c ∷ src) room in
      elim (left (c ∷ src) r.consumed r.errno) [
        | none ↦ some (out ++ r.written)
        | some src' ↦ convert_loop fuel r.cd src' (out ++ r.written)
      ]

  -- `charset_convert::convert`.
  pub convert : Cd → Str → Option Str
  unfolding convert_loop
  convert cd text = convert_loop (length text) cd text []
