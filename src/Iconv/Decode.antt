-- ===== src/Iconv/Decode.antt =====
-- `convert` gives what decoding one character after the other gives, wherever the buffer ends.
use wookie.Base.{
  ℕ, zero, suc, ◌+◌, ◌-◌, ◌≤◌, ◌<◌, ◌≡◌, refl, sym, ap, subst, ◌∙◌, ◌⊎◌, inl, inr, Option, none,
  some, [], ◌∷◌, ◌++◌, drop, length, Str, Result, ok, ◌>>=◌, einval, arith, append-nil,
  append_assoc, Option-cases,
}
use wookie.Iconv.{Iconv, e2big, eilseq, room, left, open_convert, convert_loop, convert}

-- One character at the front of the input: its length and its form in the target charset.
pub data Character : Type 0 where
  valid : ℕ → Str → Character
  invalid incomplete : Character

-- What a text decodes to: a byte where no character begins is skipped, and the text ends where a
-- character is cut off.
pub data Decodes (char : Str → Character) : Str → Str → Type 0 where
  end : Decodes char [] []
  next :
      {src rest : Str} (n : ℕ) (out : Str)
      → char src ≡ valid n out
      → Decodes char (drop n src) rest
      → Decodes char src (out ++ rest)
  skip :
      {src rest : Str} → char src ≡ invalid → Decodes char (drop 1 src) rest → Decodes char src rest
  cut : {src : Str} → char src ≡ incomplete → Decodes char src []

-- What the documentation says that one call reads and writes: characters one by one, until the
-- input ends, the output is full, or no character or only a part of one is left.
pub data Call (char : Str → Character) : Str → ℕ → Str → Option ℕ → Type 0 where
  all : Call char [] 0 [] none
  full : {src : Str} → Call char src 0 [] (some e2big)
  wrong : {src : Str} → char src ≡ invalid → Call char src 0 [] (some eilseq)
  partial : {src : Str} → char src ≡ incomplete → Call char src 0 [] (some einval)
  read :
      {src written : Str} {consumed : ℕ} {errno : Option ℕ} (n : ℕ) (out : Str)
      → char src ≡ valid n out
      → Call char (drop n src) consumed written errno
      → Call char src (n + consumed) (out ++ written) errno

drop_nil : (n : ℕ) → drop {A = ℕ} n [] ≡ []
drop_nil zero = refl
drop_nil (suc n) = refl

drop_add : (n m : ℕ) (xs : Str) → drop (n + m) xs ≡ drop m (drop n xs)
drop_add zero m xs = ap (λ k. drop k xs) (omega arith)
drop_add (suc n) m [] = drop_nil (suc n + m) ∙ sym (drop_nil m)
drop_add (suc n) m (x ∷ xs) = ap (λ k. drop k (x ∷ xs)) (sum m) ∙ drop_add n m xs
  where
    sum : (m : ℕ) → suc n + m ≡ suc (n + m)
    sum m = omega arith

length-drop : (n : ℕ) (xs : Str) → length (drop n xs) ≡ length xs - n
length-drop zero xs = omega arith
length-drop (suc n) [] = omega arith
length-drop (suc n) (x ∷ xs) = omega (arith, length-drop n xs)

module _ (char : Str → Character) where
  -- Where a call stopped.
  Stopped : Option ℕ → Str → Type 0
  Stopped none src = src ≡ []
  Stopped (some e) src =
      ((e ≡ einval) × (char src ≡ incomplete)) ⊎ (e ≡ e2big) ⊎ (e ≡ eilseq) × (char src ≡ invalid)

  Call-Stopped :
      {src written : Str} {consumed : ℕ} {errno : Option ℕ}
      → Call char src consumed written errno
      → Stopped errno (drop consumed src)
  unfolding Stopped
  Call-Stopped all = refl
  Call-Stopped full = inr (inl refl)
  Call-Stopped (wrong h) = inr (inr (refl, h))
  Call-Stopped (partial h) = inl (refl, h)
  Call-Stopped {src} {errno = errno} (read {consumed = consumed} n out h c) =
      subst (Stopped errno) (sym (drop_add n consumed src)) (Call-Stopped c)

  -- What was read and what is decoded from the rest.
  Call-Decodes :
      {src written rest : Str} {consumed : ℕ} {errno : Option ℕ}
      → Call char src consumed written errno
      → Decodes char (drop consumed src) rest
      → Decodes char src (written ++ rest)
  Call-Decodes all d = d
  Call-Decodes full d = d
  Call-Decodes (wrong h) d = d
  Call-Decodes (partial h) d = d
  Call-Decodes {src} {rest = rest} (read {written = written} {consumed = consumed} n out h c) d =
      subst (Decodes char src) (sym (append_assoc out written rest)) (
        next n out h
          (Call-Decodes c (subst (λ t. Decodes char t rest) (drop_add n consumed src) d)))

  -- What `left` says of a call, which stopped at `drop consumed src`.
  Left : (src : Str) (consumed : ℕ) → Option Str → Type 0
  Left src consumed none = char (drop consumed src) ≡ incomplete
  Left src consumed (some rest) =
      ((rest ≡ []) ⊎ (length rest < length src))
      × ((out : Str) → Decodes char rest out → Decodes char (drop consumed src) out)

  left-Left :
      (src : Str) (consumed : ℕ) (errno : Option ℕ)
      → 0 < length src
      → Stopped errno (drop consumed src)
      → (errno ≡ some e2big → 0 < consumed)
      → Left src consumed (left src consumed errno)
  unfolding left Left Stopped
  left-Left src consumed none some_input at_end progress = (inl at_end, λ out d. d)
  left-Left src consumed (some e) some_input (inl (h, cut_off)) progress =
      subst (λ e. Left src consumed (left src consumed (some e))) (sym h) cut_off
  left-Left src consumed (some e) some_input (inr (inl h)) progress =
      subst (λ e. Left src consumed (left src consumed (some e))) (sym h)
        (inr (omega (arith, length-drop consumed src, progress (ap some h))), λ out d. d)
  left-Left src consumed (some e) some_input (inr (inr (h, bad))) progress =
      subst (λ e. Left src consumed (left src consumed (some e))) (sym h)
        (
          inr (omega (arith, length-drop (consumed + 1) src)),
          λ out d. skip bad (subst (λ t. Decodes char t out) (drop_add consumed 1 src) d),
        )

-- What is relied on of iconv: a call does what its documentation says, and a character fits in an
-- empty buffer.
pub record IsDocumented (libc : Iconv) (char : Str → Character) : Type 0 where
  pub calls :
      (cd : libc.Cd) (src : Str)
      → let r = libc.iconv cd src room in Call char src r.consumed r.written r.errno
  pub progress :
      (cd : libc.Cd) (src : Str)
      → 0 < length src
      → let r = libc.iconv cd src room in r.errno ≡ some e2big → 0 < r.consumed

module _ (libc : Iconv) (char : Str → Character) (documented : IsDocumented libc char) where
  open libc use {Cd, iconv}

  loop_breaks :
      (fuel : ℕ) (cd : Cd) (c : ℕ) (src out : Str)
      → let r = iconv cd (c ∷ src) room in
        left (c ∷ src) r.consumed r.errno ≡ none
        → convert_loop libc (suc fuel) cd (c ∷ src) out ≡ some (out ++ r.written)
  unfolding convert_loop
  loop_breaks fuel cd c src out h = ground (arith, h)

  loop_continues :
      (fuel : ℕ) (cd : Cd) (c : ℕ) (src out rest : Str)
      → let r = iconv cd (c ∷ src) room in
        left (c ∷ src) r.consumed r.errno ≡ some rest
        → convert_loop libc (suc fuel) cd (c ∷ src) out
          ≡ convert_loop libc fuel r.cd rest (out ++ r.written)
  unfolding convert_loop
  loop_continues fuel cd c src out rest h = ground (arith, h)

  loop_ends : (fuel : ℕ) (cd : Cd) (out : Str) → convert_loop libc fuel cd [] out ≡ some out
  unfolding convert_loop
  loop_ends zero cd out = refl
  loop_ends (suc fuel) cd out = refl

  convert_loop-Decodes :
      (fuel : ℕ) (cd : Cd) (src before : Str)
      → length src ≤ fuel
      → (out : Str) × (convert_loop libc fuel cd src before ≡ some (before ++ out))
        × Decodes char src out
  unfolding Left
  convert_loop-Decodes fuel cd [] before enough =
      ([], loop_ends fuel cd before ∙ ap some (sym (append-nil before)), end)
  convert_loop-Decodes zero cd (c ∷ src) before enough = absurd (omega arith)
  convert_loop-Decodes (suc fuel) cd (c ∷ src) before enough =
      let r = iconv cd (c ∷ src) room in
      let called = documented.calls cd (c ∷ src) in
      let found =
        left-Left char (c ∷ src) r.consumed r.errno (omega arith) (Call-Stopped char called)
          (documented.progress cd (c ∷ src) (omega arith)) in
      elim (Option-cases (left (c ∷ src) r.consumed r.errno)) [
        | inl stops ↦ (
          r.written ++ [],
          loop_breaks fuel cd c src before stops
              ∙ ap (λ t. some (before ++ t)) (sym (append-nil r.written)),
          Call-Decodes char called (cut (subst (Left char (c ∷ src) r.consumed) stops found)),
        )
        | inr (rest, h) ↦
            let goes_on = subst (Left char (c ∷ src) r.consumed) h found in
            let shorter : length rest ≤ fuel = elim goes_on.0 [
              | inl empty ↦ omega (arith, ap length empty)
              | inr less ↦ omega (arith, less, enough)
            ] in
            let (out, runs, decodes) =
              convert_loop-Decodes fuel r.cd rest (before ++ r.written) shorter in
            (
              r.written ++ out,
              loop_continues fuel cd c src before rest h
                  ∙ runs
                  ∙ ap some (append_assoc before r.written out),
              Call-Decodes char called (goes_on.1 out decodes),
            )
      ]

  -- When iconv does what its documentation says, `convert` ends on every text, and its output is
  -- what decoding one character after the other gives: where the buffer of 4096 bytes was full
  -- makes no difference, a byte where no character begins is skipped, and a character cut off at
  -- the end is dropped.
  pub convert-Decodes :
      (cd : Cd) (text : Str)
      → (out : Str) × (convert libc cd text ≡ some out) × Decodes char text out
  unfolding convert
  convert-Decodes cd text = convert_loop-Decodes (length text) cd text [] (omega arith)

  -- A `charset_convert` that is made for one text: `convert` returns, so its result can be passed on.
  abbrev pub charset_convert : Str → Str → Str → Result Str
  charset_convert to from text = do cd ← open_convert libc to from; ok (convert-Decodes cd text).0
