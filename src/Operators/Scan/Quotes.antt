-- ===== src/Operators/Scan/Quotes.antt =====
-- What `prepare` computes: the quoted texts, and the rest of the request.
use wookie.Base.{
  ℕ, ◌+◌, ◌-◌, ◌≡◌, refl, sym, ap, ◌∙◌, inl, inr, true, false, none, some, List, [], ◌∷◌, ◌++◌,
  append-nil, append_assoc, arith, ◌==◌, Bool-cases, Option-cases, length, take, drop,
  length-append, Str, nat_ord, str_ord,
}
use wookie.Operators.Scan.{
  OperatorsFound, operators_found, see, scan, substr, remove, FindRequest, prepare_quotes, prepare,
}

-- The texts between a quotation mark and the next, left to right; a last mark without a partner
-- opens none. `quoted_in` has read `acc` behind an opening mark.
mutual
  pub quoted : Str → List Str
  quoted [] = []
  quoted (c ∷ t) = elim (c == b'"') [ true ↦ quoted_in [] t | false ↦ quoted t ]

  pub quoted_in : Str → Str → List Str
  quoted_in acc [] = []
  quoted_in acc (c ∷ t) = elim (c == b'"') [
    | true ↦ acc ∷ quoted t
    | false ↦ quoted_in (acc ++ c ∷ []) t
  ]

-- The parts of a text that pairs of positions name.
abbrev extract : Str → List (ℕ × ℕ) → List Str
extract w [] = []
extract w ((a, b) ∷ ops) = take (b - a) (drop a w) ∷ extract w ops

pub extract-append :
    (w : Str) (xs ys : List (ℕ × ℕ)) → extract w (xs ++ ys) ≡ extract w xs ++ extract w ys
extract-append w [] ys = refl
extract-append w ((a, b) ∷ xs) ys = ap (◌∷◌ (take (b - a) (drop a w))) (extract-append w xs ys)

pub drop-append : (p t : Str) → drop (length p) (p ++ t) ≡ t
drop-append [] t = refl
drop-append (c ∷ p) t = drop-append p t

pub take-append : (p t : Str) → take (length p) (p ++ t) ≡ p
take-append [] t = refl
take-append (c ∷ p) t = ap (◌∷◌ c) (take-append p t)

part : (pre acc t : Str) → take (length acc) (drop (length pre) ((pre ++ acc) ++ t)) ≡ acc
part pre acc t = rw (append_assoc pre acc t, drop-append pre (acc ++ t)) (take-append acc t)

-- The pair that a closing mark adds names what was read since the opening mark.
closed :
    (w pre acc : Str) (ops : List (ℕ × ℕ)) (n : ℕ) (t : Str) (rest : List Str)
    → w ≡ (pre ++ acc) ++ t
    → n ≡ length (pre ++ acc)
    → extract w (ops ++ (length pre, n) ∷ []) ++ rest ≡ extract w ops ++ acc ∷ rest
closed w pre acc ops n t rest e h =
    rw extract-append
      (append_assoc (extract w ops) _ rest ∙ ap (λ (q : Str). extract w ops ++ q ∷ rest) read)
  where
    size : n - length pre ≡ length acc
    size = omega (arith, h, length-append pre acc)

    read : take (n - length pre) (drop (length pre) w) ≡ acc
    read = rw (size, e) (part pre acc t)

pub see_open :
    (s : OperatorsFound) (c : ℕ)
    → (c == b'"') ≡ true
    → s.q1 ≡ none
    → see s c ≡ record s { q1 = some (s.next + 1); next = s.next + 1 }
unfolding see
see_open s c h q = ground arith

pub see_close :
    (s : OperatorsFound) (c : ℕ) {a : ℕ}
    → (c == b'"') ≡ true
    → s.q1 ≡ some a
    → see s c ≡ record s { q1 = none; next = s.next + 1; quotes = s.quotes ++ (a, s.next) ∷ [] }
unfolding see
see_close s c h q = ground arith

pub see_plain :
    (s : OperatorsFound) (c : ℕ)
    → (c == b'"') ≡ false
    → ((see s c).q1 ≡ s.q1) × ((see s c).next ≡ s.next + 1) × ((see s c).quotes ≡ s.quotes)
unfolding see
see_plain s c h = ground arith

pub length-snoc : (pre : Str) (c : ℕ) → length (pre ++ c ∷ []) ≡ length pre + 1
length-snoc pre c = omega (arith, length-append pre (c ∷ []))

mutual
  unfolding scan quoted quoted_in

  scan_outside :
      (w pre : Str) (s : OperatorsFound) (t : Str)
      → w ≡ pre ++ t
      → s.q1 ≡ none
      → s.next ≡ length pre
      → extract w (scan s t).quotes ≡ extract w s.quotes ++ quoted t
  scan_outside w pre s [] e q n = sym (append-nil _)
  scan_outside w pre s (c ∷ t) e q n = elim (Bool-cases (c == b'"')) [
    | inl mark ↦
        let s' : OperatorsFound = record s { q1 = some (s.next + 1); next = s.next + 1 } in
        ground (
          arith,
          mark,
          see_open s c mark q,
          scan_inside w (pre ++ c ∷ []) [] s' t
              (e
                ∙ sym (ap (λ l. l ++ t) (append-nil (pre ++ c ∷ [])) ∙ append_assoc pre (c ∷ []) t))
              (ap some (ap (λ k. k + 1) n ∙ sym (length-snoc pre c)))
              (ap (λ k. k + 1) n
                ∙ sym (ap length (append-nil (pre ++ c ∷ [])) ∙ length-snoc pre c)),
        )
    | inr plain ↦
        let (q', n', qs) = see_plain s c plain in
        ground (
          arith,
          plain,
          qs,
          scan_outside w (pre ++ c ∷ []) (see s c) t (e ∙ sym (append_assoc pre (c ∷ []) t))
              (q' ∙ q) (omega (arith, n', n, length-snoc pre c)),
        )
  ]

  scan_inside :
      (w pre acc : Str) (s : OperatorsFound) (t : Str)
      → w ≡ (pre ++ acc) ++ t
      → s.q1 ≡ some (length pre)
      → s.next ≡ length (pre ++ acc)
      → extract w (scan s t).quotes ≡ extract w s.quotes ++ quoted_in acc t
  scan_inside w pre acc s [] e q n = sym (append-nil _)
  scan_inside w pre acc s (c ∷ t) e q n = elim (Bool-cases (c == b'"')) [
    | inl mark ↦
        let op : ℕ × ℕ = (length pre, s.next) in
        let s' : OperatorsFound = record s {
          q1 = none;
          next = s.next + 1;
          quotes = s.quotes ++ op ∷ [];
        } in
        ground (
          arith,
          mark,
          see_close s c mark q,
          scan_outside w ((pre ++ acc) ++ c ∷ []) s' t
              (e ∙ sym (append_assoc (pre ++ acc) (c ∷ []) t)) refl
              (omega (arith, n, length-snoc (pre ++ acc) c)),
          closed w pre acc s.quotes s.next (c ∷ t) (quoted t) e n,
        )
    | inr plain ↦
        let (q', n', qs) = see_plain s c plain in
        let longer = append_assoc pre acc (c ∷ []) in
        ground (
          arith,
          plain,
          qs,
          scan_inside w pre (acc ++ c ∷ []) (see s c) t
              (e ∙ sym (append_assoc (pre ++ acc) (c ∷ []) t) ∙ ap (λ l. l ++ t) longer) (q' ∙ q)
              (omega (arith, n', n, length-snoc (pre ++ acc) c, ap length longer)),
        )
  ]

-- The pairs that the scanner finds name exactly the quoted texts, in order.
extract-scan : (text : Str) → extract text (scan operators_found text).quotes ≡ quoted text
extract-scan text = scan_outside text [] operators_found text refl refl refl

quotes-prepare_quotes :
    (text : Str) (res : FindRequest) (ops : List (ℕ × ℕ)) {r : FindRequest}
    → prepare_quotes text res ops ≡ some r
    → r.quotes ≡ res.quotes ++ extract text ops
unfolding prepare_quotes substr
quotes-prepare_quotes text res [] e = ground (arith, append-nil res.quotes)
quotes-prepare_quotes text res ((a, b) ∷ ops) {r} e =
    elim (Option-cases (remove res.text a (b - a))) [
      | inl thrown ↦ ground (arith, thrown)
      | inr (rest, left) ↦
          let quote = take (b - a) (drop a text) in
          ground (
            arith,
            left,
            quotes-prepare_quotes text (record { quotes = res.quotes ++ quote ∷ []; text = rest })
                ops {r = r},
            append_assoc res.quotes (quote ∷ []) (extract text ops),
          )
    ]

-- Whenever `prepare` returns, its quotes are the texts between the first quotation mark and the
-- second, the third and the fourth, and so on, in order; a last mark without a partner gives none.
pub quotes-prepare : (text : Str) {r : FindRequest} → prepare text ≡ some r → r.quotes ≡ quoted text
unfolding prepare
quotes-prepare text e =
    quotes-prepare_quotes text (record { quotes = []; text = text })
      (scan operators_found text).quotes e
    ∙ extract-scan text
