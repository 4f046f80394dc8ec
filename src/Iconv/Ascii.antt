-- ===== src/Iconv/Ascii.antt =====
-- An iconv for tests, from ASCII: bytes from 128 on are invalid.
use wookie.Base.{
  ℕ, zero, suc, ◌+◌, ◌<◌, ◌≡◌, refl, inl, inr, Bool-cases, Option, none, some, [], ◌∷◌,
  if◌then◌else◌, ltb, length, Str, Result, arith,
}
use wookie.Iconv.{Called, Iconv, e2big, eilseq, room}
use wookie.Iconv.Decode.{
  Character, valid, invalid, incomplete, Call, all, full, wrong, read, IsDocumented,
  charset_convert,
}

abbrev pub ascii : Str → Character
ascii [] = incomplete
ascii (c ∷ src) = if ltb c 128 then valid 1 (c ∷ []) else invalid

abbrev pub plain : ℕ × Str × Option ℕ → Called Unit
plain (consumed, written, errno) = record {
  cd = tt;
  consumed = consumed;
  written = written;
  errno = errno;
}

abbrev pub read_ascii : Str → ℕ → ℕ × Str × Option ℕ
read_ascii [] size = (0, [], none)
read_ascii (c ∷ src) zero = (0, [], some e2big)
read_ascii (c ∷ src) (suc size) =
    let (consumed, written, errno) = read_ascii src size in
    if ltb c 128 then (1 + consumed, c ∷ written, errno) else (0, [], some eilseq)

abbrev pub libc : Iconv
libc = record {
  Cd = Unit;
  iconv_open = λ to from. some tt;
  iconv = λ cd src size. plain (read_ascii src size);
  initial = λ cd. cd;
}

calls : (src : Str) (size : ℕ) → let r = read_ascii src size in Call ascii src r.0 r.1 r.2
calls [] size = all
calls (c ∷ src) zero = full
calls (c ∷ src) (suc size) = elim (Bool-cases (ltb c 128)) [
  | inl h ↦ rw h (read 1 (c ∷ []) (rw h refl) (calls src size))
  | inr h ↦ rw h (wrong (rw h refl))
]

progress :
    (src : Str) (size : ℕ)
    → 0 < length src
    → let r = read_ascii src (suc size) in r.2 ≡ some e2big → 0 < r.0
progress [] size some_input h = omega arith
progress (c ∷ src) size some_input h = ground arith

pub documented : IsDocumented libc ascii
documented = record {
  calls = λ cd src. calls src room;
  progress = λ cd src some_input h. progress src 4095 some_input h;
}

-- `charset_convert` with this iconv.
abbrev pub convert_ascii : Str → Str → Str → Result Str
convert_ascii = charset_convert libc ascii documented
