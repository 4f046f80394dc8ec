-- ===== src/Similarity/Interleavings.antt =====
-- The positions that the threads take, in any interleaving.
use wookie.Base.{
  ℕ, zero, suc, ◌+◌, ◌*◌, ◌/◌, ◌%◌, ◌<◌, ◌≤◌, ◌==◌, ◌≡◌, ◌⊎◌, inl, inr, refl, sym, ap, ◌&&◌, List,
  [], ◌∷◌, ◌++◌, count_if, All, ltb, leb, if◌then◌else◌, arith, Bool-cases, nat_ord, str_ord,
}
use native.Mathlib.Nat.{div-add-mod, mul-le-mul_left, add-mod_right, mod-eq_of_lt, mod-lt}
use wookie.TfIdf.{size_mod, add_size}
use wookie.Similarity.Parse.{share}

-- The number of times that a position is taken.
abbrev pub times : ℕ → List ℕ → ℕ
times i is = count_if (λ j. i == j) is

le_or_lt : (a b : ℕ) → (a ≤ b) ⊎ (b + 1 ≤ a)
le_or_lt a b = elim (Bool-cases (leb a b)) [
  | inl h ↦ inl (ground arith)
  | inr h ↦ inr (ground arith)
]

-- Two numbers of a class are a step apart.
next_of_class : (i k step : ℕ) → i % step ≡ k % step → k < i → k + step ≤ i
next_of_class i k step same_class after =
    let i_is : step * (i / step) + i % step ≡ i = div-add-mod i step in
    let k_is : step * (k / step) + k % step ≡ k = div-add-mod k step in
    elim (le_or_lt (i / step) (k / step)) [
      | inl h ↦
          let below : step * (i / step) ≤ step * (k / step) = mul-le-mul_left step h in
          absurd (omega (arith, i_is, k_is, same_class, below, after))
      | inr h ↦
          let above : step * (k / step + 1) ≤ step * (i / step) = mul-le-mul_left step h in
          omega (arith, i_is, k_is, same_class, above)
    ]

-- A thread takes each position of its class from its first one on, once.
times-share :
    (fuel i k step n : ℕ)
    → 0 < step
    → n + step ≤ size_mod
    → n ≤ fuel + k
    → times i (share fuel k step n)
      ≡ (if leb k i && (ltb i n && (i % step == k % step)) then 1 else 0)
unfolding share
times-share zero i k step n positive fits enough = ground arith
times-share (suc fuel) i k step n positive fits enough = ground (
  arith,
  times-share fuel i (add_size k step) step n positive fits,
  mod-eq_of_lt {n = k + step} {m = size_mod},
  add-mod_right k step,
  next_of_class i k step,
  enough,
)

-- What the threads `id` from `n` down take.
abbrev pub shares : ℕ → ℕ → ℕ → List (List ℕ)
shares zero step n = []
shares (suc id) step n = share n id step n ∷ shares id step n

-- The positions in the order of time, each the next one of some thread.
pub data Interleaving : List (List ℕ) → List ℕ → Type 0 where
  ended : {threads : List (List ℕ)} → All (λ is. is ≡ []) threads → Interleaving threads []
  takes :
      {threads : List (List ℕ)} {later : List ℕ} (before : List (List ℕ)) (i : ℕ) (rest : List ℕ)
      (behind : List (List ℕ))
      → threads ≡ before ++ (i ∷ rest) ∷ behind
      → Interleaving (before ++ rest ∷ behind) later
      → Interleaving threads (i ∷ later)

total : ℕ → List (List ℕ) → ℕ
total i [] = 0
total i (is ∷ threads) = times i is + total i threads

total-append : (i : ℕ) (xs ys : List (List ℕ)) → total i (xs ++ ys) ≡ total i xs + total i ys
unfolding total
total-append i [] ys = omega arith
total-append i (x ∷ xs) ys = omega (arith, total-append i xs ys)

total-ended : (i : ℕ) (threads : List (List ℕ)) → All (λ is. is ≡ []) threads → total i threads ≡ 0
unfolding total
total-ended i [] all = refl
total-ended i (is ∷ threads) (none_left, all) =
    omega (arith, ap (times i) none_left, total-ended i threads all)

-- No position is lost or added.
times-Interleaving :
    (i : ℕ) {threads : List (List ℕ)} {order : List ℕ}
    → Interleaving threads order
    → times i order ≡ total i threads
unfolding total
times-Interleaving i {threads} (ended all) = sym (total-ended i threads all)
times-Interleaving i {threads} (takes {later = later} before j rest behind shape more) = grind (
  arith,
  times-Interleaving i more,
  total-append i before (rest ∷ behind),
  total-append i before ((j ∷ rest) ∷ behind),
  ap (total i) shape,
)

-- Of the threads below `ids`, only the one of the position's class takes it.
total-shares :
    (i ids step n : ℕ)
    → i < n
    → ids ≤ step
    → n + step ≤ size_mod
    → total i (shares ids step n) ≡ (if ltb (i % step) ids then 1 else 0)
unfolding total
total-shares i zero step n small some_threads fits = ground arith
total-shares i (suc id) step n small some_threads fits = ground (
  arith,
  total-shares i id step n small (omega arith) fits,
  times-share n i id step n (omega arith) fits (omega arith),
  mod-eq_of_lt {n = id} {m = step} some_threads,
  div-add-mod i step,
  small,
)

pub times-threads :
    (i step n : ℕ) {order : List ℕ}
    → i < n
    → 0 < step
    → n + step ≤ size_mod
    → Interleaving (shares step step n) order
    → times i order ≡ 1
times-threads i step n small positive fits run = ground (
  arith,
  times-Interleaving i run,
  total-shares i step step n small (omega arith) fits,
  mod-lt i positive,
)
