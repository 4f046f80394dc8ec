-- ===== src/Operators/Scan/Rest.antt =====
-- The unquoted rest that `prepare` leaves. Its offsets are those of the whole request, but each
-- `replace` works on the text that the earlier ones have shortened: right for one quote only.
use wookie.Base.{
  ℕ, ◌+◌, ◌-◌, ◌<◌, ◌≡◌, refl, sym, ap, ◌∙◌, inl, inr, false, none, some, List, [], ◌∷◌, ◌++◌,
  append-nil, append_assoc, arith, ◌==◌, Bool-cases, Option-cases, length, length-append, All, Str,
  nat_ord, str_ord,
}
use wookie.Operators.Scan.{
  OperatorsFound, operators_found, see, scan, substr, remove, FindRequest, prepare_quotes, prepare,
}
use wookie.Operators.Scan.Quotes.{
  see_open, see_close, see_plain, drop-append, take-append, length-snoc,
}

-- No quotation mark.
abbrev pub Plain : Str → Type 0
Plain = All (λ c. (c == b'"') ≡ false)

scan-append : (s : OperatorsFound) (p t : Str) → scan s (p ++ t) ≡ scan (scan s p) t
unfolding scan
scan-append s [] t = refl
scan-append s (c ∷ p) t = scan-append (see s c) p t

-- A text without marks moves the scanner on, and finds nothing.
scan-Plain :
    (s : OperatorsFound) (p : Str)
    → Plain p
    → ((scan s p).q1 ≡ s.q1)
      × ((scan s p).next ≡ s.next + length p)
      × ((scan s p).quotes ≡ s.quotes)
unfolding scan
scan-Plain s [] h = (refl, omega arith, refl)
scan-Plain s (c ∷ p) h =
    let (q, n, qs) = see_plain s c h.0 in
    let (q', n', qs') = scan-Plain (see s c) p h.1 in (q' ∙ q, omega (arith, n, n'), qs' ∙ qs)

-- The scanner behind `p "q"`, started outside quotes.
scan_quote :
    (s : OperatorsFound) (p q t : Str)
    → s.q1 ≡ none
    → Plain p
    → Plain q
    → (s' : OperatorsFound) × (scan s (p ++ b'"' ∷ (q ++ b'"' ∷ t)) ≡ scan s' t)
      × (s'.q1 ≡ none)
      × (s'.next ≡ s.next + length p + length q + 2)
      × (s'.quotes ≡ s.quotes ++ (s.next + length p + 1, s.next + length p + 1 + length q) ∷ [])
unfolding scan
scan_quote s p q t out hp hq =
    let s1 = scan s p in
    let (q1, n1, k1) = scan-Plain s p hp in
    let e2 = see_open s1 b'"' refl (q1 ∙ out) in
    let s2 = see s1 b'"' in
    let s3 = scan s2 q in
    let (q3, n3, k3) = scan-Plain s2 q hq in
    let e4 = see_close s3 b'"' refl (q3 ∙ ap (λ s. s.q1) e2) in
    let s4 = see s3 b'"' in
    let opened : s2.next ≡ s.next + length p + 1 = ap (λ s. s.next) e2 ∙ ap (λ (n : ℕ). n + 1) n1 in
    let first : s1.next + 1 ≡ s.next + length p + 1 = ap (λ (n : ℕ). n + 1) n1 in
    let second : s3.next ≡ s.next + length p + 1 + length q = omega (arith, n3, opened) in
    let kept : s3.quotes ≡ s.quotes = k3 ∙ ap (λ s. s.quotes) e2 ∙ k1 in
    (
      s4,
      scan-append s p (b'"' ∷ (q ++ b'"' ∷ t)) ∙ scan-append s2 q (b'"' ∷ t),
      ap (λ s. s.q1) e4,
      ap (λ s. s.next) e4 ∙ omega (arith, second),
      ap (λ s. s.quotes) e4 ∙ rw (kept, first, second),
    )

quotes-see : (s : OperatorsFound) (c : ℕ) → (m : List (ℕ × ℕ)) × ((see s c).quotes ≡ s.quotes ++ m)
quotes-see s c = elim (Bool-cases (c == b'"')) [
  | inl mark ↦ elim (Option-cases s.q1) [
    | inl out ↦ ([], ap (λ s. s.quotes) (see_open s c mark out) ∙ sym (append-nil s.quotes))
    | inr (a, inside) ↦ ((a, s.next) ∷ [], ap (λ s. s.quotes) (see_close s c mark inside))
  ]
  | inr plain ↦ ([], (see_plain s c plain).2 ∙ sym (append-nil s.quotes))
]

-- Quotes that were found stay at the front.
quotes-scan :
    (s : OperatorsFound) (t : Str) → (more : List (ℕ × ℕ)) × ((scan s t).quotes ≡ s.quotes ++ more)
unfolding scan see
quotes-scan s [] = ([], sym (append-nil _))
quotes-scan s (c ∷ t) =
    let (m, e) = quotes-see s c in
    let (ms, es) = quotes-scan (see s c) t in
    (m ++ ms, es ∙ ap (λ qs. qs ++ ms) e ∙ append_assoc s.quotes m ms)

module _ (p q d : Str) where
  substr_part : substr (p ++ (q ++ d)) (length p) (length q) ≡ some q
  unfolding substr
  substr_part = ground (arith, length-append p (q ++ d), drop-append p (q ++ d), take-append q d)

  remove_part : remove (p ++ (q ++ d)) (length p) (length q) ≡ some (p ++ d)
  unfolding remove
  remove_part = ground (
    arith,
    length-append p (q ++ d),
    take-append p (q ++ d),
    drop-append (p ++ q) d,
    append_assoc p q d,
    length-append p q,
  )

  -- The first quote found is cut out.
  prepare_first :
      (n : ℕ) (ops : List (ℕ × ℕ))
      → n ≡ length p + length q
      → (let w = p ++ (q ++ d) in
          prepare_quotes w (record { quotes = []; text = w }) ((length p, n) ∷ ops)
          ≡ prepare_quotes w (record { quotes = q ∷ []; text = p ++ d }) ops)
  unfolding prepare_quotes
  prepare_first n ops e =
      let size : n - length p ≡ length q = omega (arith, e) in
      ground (arith, size, substr_part, remove_part)

prepare_past_end :
    (text : Str) (res : FindRequest) (a b : ℕ) (ops : List (ℕ × ℕ))
    → length res.text < a
    → prepare_quotes text res ((a, b) ∷ ops) ≡ none
unfolding prepare_quotes remove substr
prepare_past_end text res a b ops h = ground arith

-- A request without quotation marks is its own rest.
pub prepare-no_quote : (p : Str) → Plain p → prepare p ≡ some (record { quotes = []; text = p })
unfolding prepare prepare_quotes
prepare-no_quote p h = ground (arith, (scan-Plain operators_found p h).2)

-- For all texts `p`, `q` and `t` without quotation marks, the request `p "q" t` gives the one
-- quote `q`, and the rest `p "" t`.
pub prepare-one_quote :
    (p q t : Str)
    → Plain p
    → Plain q
    → Plain t
    → prepare (p ++ b'"' ∷ (q ++ b'"' ∷ t))
      ≡ some (record { quotes = q ∷ []; text = p ++ b'"' ∷ b'"' ∷ t })
unfolding prepare prepare_quotes
prepare-one_quote p q t hp hq ht =
    let (s', e, out, n, qs) = scan_quote operators_found p q t refl hp hq in
    let found = ap (λ s. s.quotes) e ∙ (scan-Plain s' t ht).2 ∙ qs in
    let P = p ++ b'"' ∷ [] in
    let d = b'"' ∷ t in
    let size = length-snoc p b'"' in
    let cut = prepare_first P q d (0 + length p + 1 + length q) [] (omega (arith, size)) in
    let w = append_assoc p (b'"' ∷ []) in ground (arith, found, cut, w (q ++ d), w d, size)

-- For all texts `p`, `a`, `m` and `b` without quotation marks and every `t`, if `a` is longer by
-- two or more than `b` and `t` together, then `prepare` throws on the request `p "a" m "b" t`.
pub prepare-two_quotes :
    (p a m b t : Str)
    → Plain p
    → Plain a
    → Plain m
    → Plain b
    → length b + length t + 1 < length a
    → prepare (p ++ b'"' ∷ (a ++ b'"' ∷ (m ++ b'"' ∷ (b ++ b'"' ∷ t)))) ≡ none
unfolding prepare
prepare-two_quotes p a m b t hp ha hm hb h =
    let rest = m ++ b'"' ∷ (b ++ b'"' ∷ t) in
    let (s1, e1, out1, n1, qs1) = scan_quote operators_found p a rest refl hp ha in
    let (s2, e2, out2, n2, qs2) = scan_quote s1 m b t out1 hm hb in
    let (more, e3) = quotes-scan s2 t in
    let found =
      ap (λ s. s.quotes) (e1 ∙ e2)
      ∙ e3
      ∙ ap (λ qs. qs ++ more)
          (qs2
            ∙ ap (λ qs. qs ++ (s1.next + length m + 1, s1.next + length m + 1 + length b) ∷ [])
                qs1) in
    let P = p ++ b'"' ∷ [] in
    let d = b'"' ∷ rest in
    let size = length-snoc p b'"' in
    let second = (s1.next + length m + 1, s1.next + length m + 1 + length b) ∷ more in
    let cut = prepare_first P a d (0 + length p + 1 + length a) second (omega (arith, size)) in
    let left = length-append P d in
    let tail = length-append m (b'"' ∷ (b ++ b'"' ∷ t)) in
    let tail' = length-append b (b'"' ∷ t) in
    let thrown =
      prepare_past_end (P ++ (a ++ d)) (record { quotes = a ∷ []; text = P ++ d })
        (s1.next + length m + 1) (s1.next + length m + 1 + length b) more
        (omega (arith, left, tail, tail', n1, size, h)) in
    ground (arith, found, cut, thrown, append_assoc p (b'"' ∷ []) (a ++ d), size)
