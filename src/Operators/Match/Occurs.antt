-- ===== src/Operators/Match/Occurs.antt =====
-- The phrase test against the entries of the position map.
use wookie.Base.{
  ℕ, zero, suc, ◌+◌, ◌≤◌, ◌<◌, ◌≡◌, refl, inl, inr, Bool, true, false, ◌&&◌, ◌||◌, Option, none,
  some, List, [], ◌∷◌, arith, ◌==◌, if◌then◌else◌, Bool-cases, length, drop, get_elem?, Str,
  nat_ord, str_ord, str_eq, str_eq_iff, Map, find, contains,
}
use wookie.Operators.Match.{RawId, Quote, Progress, start, advance, quote_loop}

-- The document holds `ids` at the positions from `p` on.
abbrev pub PhraseAt : List RawId → ℕ → Map ℕ RawId → Type 0
PhraseAt [] p pos = Unit
PhraseAt (id ∷ ids) p pos = (find p pos ≡ some id) × PhraseAt ids (suc p) pos

-- The entries of the map begin with `ids` at `p` and the positions after it.
abbrev pub starts : List RawId → ℕ → Map ℕ RawId → Bool
starts [] p pos = true
starts (id ∷ ids) p [] = false
starts (id ∷ ids) p ((q, x) ∷ pos) = (q == p && str_eq x id) && starts ids (suc p) pos

abbrev pub occurs : List RawId → Map ℕ RawId → Bool
occurs ids [] = false
occurs ids ((q, x) ∷ pos) = starts ids q ((q, x) ∷ pos) || occurs ids pos

-- What is still wanted behind the `state` tokens that matched.
abbrev pending : List RawId → Progress → Map ℕ RawId → Bool
pending ids s pos = elim s.prev_pos [
  | none ↦ false
  | some r ↦ starts (drop s.state ids) (suc r) pos
]

-- `prev_pos` is set exactly while some tokens have matched.
abbrev Fits : ℕ → Option ℕ → Type 0
Fits zero none = Unit
Fits zero (some r) = ⊥
Fits (suc k) none = ⊥
Fits (suc k) (some r) = Unit

drop-get_elem? :
    (ids : List RawId) (i : ℕ)
    → i < length ids
    → (x : RawId) × (get_elem? ids i ≡ some x) × (drop i ids ≡ x ∷ drop (suc i) ids)
drop-get_elem? [] i h = absurd (omega arith)
drop-get_elem? (y ∷ ids) zero h = (y, refl, refl)
drop-get_elem? (y ∷ ids) (suc i) h = drop-get_elem? ids i (omega arith)

drop_all : (ids : List RawId) (i : ℕ) → length ids ≤ i → drop i ids ≡ []
drop_all [] zero h = refl
drop_all [] (suc i) h = refl
drop_all (y ∷ ids) zero h = absurd (omega arith)
drop_all (y ∷ ids) (suc i) h = drop_all ids i (omega arith)

contains-get_elem? :
    (ids : List RawId) (i : ℕ) {x : RawId} → get_elem? ids i ≡ some x → contains x ids ≡ true
contains-get_elem? [] i h = cc
contains-get_elem? (y ∷ ids) zero {x} h = ground (arith, str_eq_iff x y)
contains-get_elem? (y ∷ ids) (suc i) {x} h = ground (arith, contains-get_elem? ids i h)

module _ (text : Str) (tokens : List Str) (x : RawId) (ids : List RawId) where
  abbrev quote : Quote
  quote = record { text = text; tokens = tokens; indexes = x ∷ ids }

  advance-hit :
      (k r p : ℕ) (y : RawId) {z : RawId}
      → length tokens ≡ suc (length ids)
      → suc k ≤ length ids
      → get_elem? ids k ≡ some z
      → str_eq y z ≡ true
      → advance quote (record { state = suc k; prev_pos = some r }) p y
        ≡ (if p == r + 1 then record { state = suc (suc k); prev_pos = some (r + 1) } else start)
  unfolding advance
  advance-hit k r p y n h got hit = ground arith

  advance-miss :
      (k r p : ℕ) (y : RawId) {z : RawId}
      → length tokens ≡ suc (length ids)
      → suc k ≤ length ids
      → get_elem? ids k ≡ some z
      → str_eq y z ≡ false
      → advance quote (record { state = suc k; prev_pos = some r }) p y
        ≡ (if str_eq y x then record { state = 1; prev_pos = some p } else start)
  unfolding advance
  advance-miss k r p y n h got miss = ground arith

  advance-start :
      (p : ℕ) (y : RawId)
      → length tokens ≡ suc (length ids)
      → advance quote start p y
        ≡ (if str_eq y x then record { state = 1; prev_pos = some p } else start)
  unfolding advance
  advance-start p y n = ground arith

  pub loop-occurs :
      (pos : Map ℕ RawId) (state : ℕ) (prev : Option ℕ)
      → length tokens ≡ suc (length ids)
      → contains x ids ≡ false
      → state ≤ length ids
      → Fits state prev
      → quote_loop quote (record { state = state; prev_pos = prev }) pos ≡ (
          pending (x ∷ ids) (record { state = state; prev_pos = prev }) pos || occurs (x ∷ ids) pos)
  unfolding quote_loop
  loop-occurs [] zero none n d h f = refl
  loop-occurs [] zero (some r) n d h f = absurd f
  loop-occurs [] (suc k) none n d h f = absurd f
  loop-occurs [] (suc k) (some r) n d h f =
      let (z, got, e) = drop-get_elem? ids k (omega arith) in rw e
  loop-occurs ((p, y) ∷ pos) zero none n d h f = ground (
    arith,
    loop-occurs pos 0 none n d (omega arith) tt,
    λ (m : 1 ≤ length ids). loop-occurs pos 1 (some p) n d m tt,
    drop_all ids 0,
    str_eq_iff y x,
    advance-start p y n,
  )
  loop-occurs ((p, y) ∷ pos) zero (some r) n d h f = absurd f
  loop-occurs ((p, y) ∷ pos) (suc k) none n d h f = absurd f
  loop-occurs ((p, y) ∷ pos) (suc k) (some r) n d h f =
      let (z, got, e) = drop-get_elem? ids k (omega arith) in
      let again = loop-occurs pos 0 none n d (omega arith) tt in
      elim (Bool-cases (str_eq y z)) [
        | inl hit ↦ ground (
          arith,
          hit,
          advance-hit k r p y n h got hit,
          e,
          again,
          λ (m : suc (suc k) ≤ length ids). loop-occurs pos (suc (suc k)) (some (r + 1)) n d m tt,
          drop_all ids (suc k),
          str_eq_iff y x,
          str_eq_iff y z,
          contains-get_elem? ids k got,
        )
        | inr miss ↦ ground (
          arith,
          miss,
          advance-miss k r p y n h got miss,
          e,
          again,
          loop-occurs pos 1 (some p) n d (omega arith) tt,
        )
      ]
