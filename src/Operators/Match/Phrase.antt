-- ===== src/Operators/Match/Phrase.antt =====
-- The phrase test decides whether the tokens of the quote stand at consecutive positions.
use wookie.Base.{
  ℕ, suc, ◌≤◌, ◌<◌, ◌≡◌, refl, sym, subst, ◌∙◌, ◌↔◌, inl, inr, true, none, List, [], ◌∷◌, arith,
  ◌==◌, Bool-cases, length, Str, nat_ord, str_ord, str_eq_iff, Map, find, Above, Ascending,
  Distinct,
}
use wookie.Operators.Match.{RawId, Quote, quote_ok}
use wookie.Operators.Match.Occurs.{PhraseAt, starts, occurs, loop-occurs}

PhraseAt-cons :
    (ids : List RawId) (p q : ℕ) (y : RawId) (pos : Map ℕ RawId)
    → q < p
    → PhraseAt ids p ((q, y) ∷ pos) ↔ PhraseAt ids p pos
PhraseAt-cons [] p q y pos h = (λ a. a, λ a. a)
PhraseAt-cons (id ∷ ids) p q y pos h =
    let rest = PhraseAt-cons ids (suc p) q y pos (omega arith) in
    (λ a. (ground arith, rest.0 a.1), λ a. (ground arith, rest.1 a.1))

-- No position is before `p`.
abbrev AtLeast : ℕ → Map ℕ RawId → Type 0
AtLeast p [] = Unit
AtLeast p ((q, y) ∷ pos) = (p ≤ q) × AtLeast p pos

Above-AtLeast : (p : ℕ) (pos : Map ℕ RawId) → Above p pos → AtLeast (suc p) pos
Above-AtLeast p [] a = tt
Above-AtLeast p ((q, y) ∷ pos) a = (ground arith, Above-AtLeast p pos a.1)

find-AtLeast : (p q : ℕ) (pos : Map ℕ RawId) → AtLeast q pos → p < q → find p pos ≡ none
find-AtLeast p q [] a h = refl
find-AtLeast p q ((r, y) ∷ pos) a h = ground (arith, find-AtLeast p q pos a.1 h)

starts-PhraseAt :
    (ids : List RawId) (p : ℕ) (pos : Map ℕ RawId) → starts ids p pos ≡ true → PhraseAt ids p pos
starts-PhraseAt [] p pos s = tt
starts-PhraseAt (id ∷ ids) p [] s = cc
starts-PhraseAt (id ∷ ids) p ((q, y) ∷ pos) s =
    let e : q ≡ p = ground arith in
    let rest = starts-PhraseAt ids (suc p) pos (ground arith) in
    (ground (arith, str_eq_iff y id), (PhraseAt-cons ids (suc p) q y pos (omega arith)).1 rest)

PhraseAt-starts :
    (ids : List RawId) (p : ℕ) (pos : Map ℕ RawId)
    → Ascending pos
    → AtLeast p pos
    → PhraseAt ids p pos
    → starts ids p pos ≡ true
PhraseAt-starts [] p pos s l a = refl
PhraseAt-starts (id ∷ ids) p [] s l a = cc a.0
PhraseAt-starts (id ∷ ids) p ((q, y) ∷ pos) s l a =
    let later = Above-AtLeast q pos s.0 in
    let e : q ≡ p = ground (arith, find-AtLeast p (suc q) pos later) in
    let rest = (PhraseAt-cons ids (suc p) q y pos (omega arith)).0 a.1 in
    let next =
      PhraseAt-starts ids (suc p) pos s.1 (subst (λ n. AtLeast (suc n) pos) e later) rest in
    ground (arith, next, str_eq_iff y id)

occurs-PhraseAt :
    (id : RawId) (ids : List RawId) (pos : Map ℕ RawId)
    → Ascending pos
    → occurs (id ∷ ids) pos ≡ true
    → (p : ℕ) × PhraseAt (id ∷ ids) p pos
occurs-PhraseAt id ids [] s o = cc
occurs-PhraseAt id ids ((q, y) ∷ pos) s o = elim (Bool-cases (starts (id ∷ ids) q ((q, y) ∷ pos))) [
  | inl here ↦ (q, starts-PhraseAt (id ∷ ids) q ((q, y) ∷ pos) here)
  | inr later ↦
      let (p, a) = occurs-PhraseAt id ids pos s.1 (ground (arith, later)) in
      let after : q < p =
        ground (arith, a.0, find-AtLeast p (suc q) pos (Above-AtLeast q pos s.0)) in
      (p, (PhraseAt-cons (id ∷ ids) p q y pos after).1 a)
]

PhraseAt-occurs :
    (id : RawId) (ids : List RawId) (p : ℕ) (pos : Map ℕ RawId)
    → Ascending pos
    → PhraseAt (id ∷ ids) p pos
    → occurs (id ∷ ids) pos ≡ true
PhraseAt-occurs id ids p [] s a = cc a.0
PhraseAt-occurs id ids p ((q, y) ∷ pos) s a = elim (Bool-cases (q == p)) [
  | inl here ↦
      let e : q ≡ p = ground arith in
      let rest = (PhraseAt-cons ids (suc p) q y pos (omega arith)).0 a.1 in
      let later = subst (λ n. AtLeast (suc n) pos) e (Above-AtLeast q pos s.0) in
      let next = PhraseAt-starts ids (suc p) pos s.1 later rest in
      ground (arith, next, str_eq_iff y id)
  | inr apart ↦
      let after : q < p =
        ground (arith, a.0, find-AtLeast p (suc q) pos (Above-AtLeast q pos s.0)) in
      let deeper =
        PhraseAt-occurs id ids p pos s.1 ((PhraseAt-cons (id ∷ ids) p q y pos after).0 a) in
      ground (arith, deeper)
]

quote_ok-occurs :
    (text : Str) (tokens : List Str) (indexes : List RawId) (pos : Map ℕ RawId)
    → length tokens ≡ length indexes
    → 0 < length indexes
    → Distinct indexes
    → quote_ok (record { text = text; tokens = tokens; indexes = indexes }) pos ≡ occurs indexes pos
unfolding quote_ok
quote_ok-occurs text tokens [] pos n h d = absurd (omega arith)
quote_ok-occurs text tokens (x ∷ ids) pos n h d =
    loop-occurs text tokens x ids pos 0 none n d.0 (omega arith) tt

-- A quote whose tokens have distinct keys, one key to a token and at least one, passes the test of
-- a document's position map exactly when the map holds the keys at consecutive positions, in the
-- order of the quote.
pub quote_ok-PhraseAt :
    (q : Quote) (pos : Map ℕ RawId)
    → length q.tokens ≡ length q.indexes
    → 0 < length q.indexes
    → Distinct q.indexes
    → Ascending pos
    → (quote_ok q pos ≡ true) ↔ ((p : ℕ) × PhraseAt q.indexes p pos)
quote_ok-PhraseAt q pos n h d s = to q.indexes n h d
  where
    to :
        (indexes : List RawId)
        → length q.tokens ≡ length indexes
        → 0 < length indexes
        → Distinct indexes
        → (quote_ok (record q { indexes = indexes }) pos ≡ true)
          ↔ ((p : ℕ) × PhraseAt indexes p pos)
    to [] n h d = absurd (omega arith)
    to (x ∷ ids) n h d =
        let e = quote_ok-occurs q.text q.tokens (x ∷ ids) pos n h d in
        (λ t. occurs-PhraseAt x ids pos s (sym e ∙ t), λ a. e ∙ PhraseAt-occurs x ids a.0 pos s a.1)
