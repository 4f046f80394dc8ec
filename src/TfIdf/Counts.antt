-- ===== src/TfIdf/Counts.antt =====
-- The counts of `tf`, and merging.
use wookie.Base.{
  ℕ, ◌+◌, ◌%◌, ◌^◌, ◌≤◌, ◌<◌, ◌≡◌, refl, sym, ap, ◌∙◌, subst, inl, inr, none, some, [], ◌∷◌, arith,
  if◌then◌else◌, Bool-cases, Option-cases, All, same, Str, nat_ord, str_ord, str_eq, same_iff, Map,
  find, place, modify, Ascending, find-place, find-modify, find-Above, place-Ascending,
  modify-Ascending, ℤ, pos, negsuc,
}
use wookie.TfIdf.{
  size_mod, size_of_int, int_of_size, add_size, Tf, empty_tf, feed_word, count, TfIdf, merge_words,
  merge,
}

-- The sum of all counts.
abbrev pub sum : Map Str ℕ → ℕ
sum [] = 0
sum ((word, n) ∷ ws) = n + sum ws

-- The words ascend, each count is a `size_t`, and the total is the sum of the counts, as a `size_t`.
pub record IsCounted (t : Tf) : Type 0 where
  pub ordered : Ascending t.words
  pub fits : All (λ e. e.1 < size_mod) t.words
  pub total : t.total_words ≡ sum t.words % size_mod

pub empty-IsCounted : IsCounted empty_tf
empty-IsCounted = record { ordered = tt; fits = tt; total = refl }

sum-place : (word : Str) (n : ℕ) (m : Map Str ℕ) → sum (place word n m) ≡ n + sum m
sum-place word n [] = refl
sum-place word n ((w, k) ∷ m) = ground (arith, sum-place word n m)

fits-place :
    (word : Str) (n : ℕ) (m : Map Str ℕ)
    → n < size_mod
    → All (λ e. e.1 < size_mod) m
    → All (λ e. e.1 < size_mod) (place word n m)
fits-place word n [] h a = (h, tt)
fits-place word n ((w, k) ∷ m) h a = ground (arith, fits-place word n m h a.1)

sum-modify :
    (word : Str) (n : ℕ) (m : Map Str ℕ) {j : ℕ}
    → find word m ≡ some j
    → sum (modify word (λ i. add_size i n) m) % size_mod ≡ (sum m + n) % size_mod
sum-modify word n [] h = cc
sum-modify word n ((w, k) ∷ m) {j} h = elim (Bool-cases (same word w)) [
  | inl here ↦ rw (here, modify) (omega arith)
  | inr later ↦
      rw (later, modify) (omega (arith, sum-modify word n m {j = j} (ground (arith, later))))
]

fits-modify :
    (word : Str) (n : ℕ) (m : Map Str ℕ)
    → All (λ e. e.1 < size_mod) m
    → All (λ e. e.1 < size_mod) (modify word (λ i. add_size i n) m)
fits-modify word n [] a = tt
fits-modify word n ((w, k) ∷ m) a = ground (arith, fits-modify word n m a.1)

-- An `int` is at most 2^31 in absolute value.
abbrev pub IsInt : ℤ → Type 0
IsInt (pos n) = n < 2 ^ 31
IsInt (negsuc n) = n < 2 ^ 31

size_of_int_lt : (num : ℤ) → IsInt num → size_of_int num < size_mod
size_of_int_lt (pos n) h = omega arith
size_of_int_lt (negsuc n) h = omega arith

feed_word_new :
    (t : Tf) (word : Str) (num : ℤ)
    → find word t.words ≡ none
    → feed_word t word num ≡ record {
      words = place word (size_of_int num) t.words;
      total_words = add_size t.total_words (size_of_int num);
    }
unfolding feed_word
feed_word_new t word num missing = ground (arith, missing)

-- Feeding any `int` number of any word keeps this, wrapped sums included.
pub feed_word-IsCounted :
    (t : Tf) (word : Str) (num : ℤ) → IsInt num → IsCounted t → IsCounted (feed_word t word num)
unfolding feed_word
feed_word-IsCounted t word num small v = elim (Option-cases (find word t.words)) [
  | inl missing ↦ subst IsCounted (sym (feed_word_new t word num missing)) (record {
    ordered = place-Ascending word (size_of_int num) t.words missing v.ordered;
    fits = fits-place word (size_of_int num) t.words (size_of_int_lt num small) v.fits;
    total = omega (arith, v.total, sum-place word (size_of_int num) t.words);
  })
  | inr (k, known) ↦
      rw (known, feed_word)
        (record {
          ordered = modify-Ascending word (λ m. add_size m (size_of_int num)) t.words v.ordered;
          fits = fits-modify word (size_of_int num) t.words v.fits;
          total = omega (arith, v.total, sum-modify word (size_of_int num) t.words known);
        })
]

-- The count of the word that is fed grows by the number, as a `size_t`, and no other count changes.
pub count-feed_word :
    (t : Tf) (word other : Str) (num : ℤ)
    → IsInt num
    → count (feed_word t word num) other
      ≡ (if str_eq other word then add_size (count t other) (size_of_int num) else count t other)
unfolding feed_word count
count-feed_word t word other num small = ground (
  arith,
  find-place other word (size_of_int num) t.words,
  find-modify other word (λ (m : ℕ). add_size m (size_of_int num)) t.words,
  size_of_int_lt num small,
  same_iff other word,
)

int_of_size-IsInt : (n : ℕ) → IsInt (int_of_size n)
int_of_size-IsInt n = ground arith

count-merge_words :
    (t : Tf) (ws : Map Str ℕ) (word : Str)
    → Ascending ws
    → count (merge_words t ws) word ≡ elim (find word ws) [
      | none ↦ count t word
      | some n ↦ add_size (count t word) (size_of_int (int_of_size n))
    ]
unfolding merge_words
count-merge_words t [] word a = refl
count-merge_words t ((w, n) ∷ ws) word a = ground (
  arith,
  count-merge_words (feed_word t w (int_of_size n)) ws word a.1,
  count-feed_word t w word (int_of_size n) (int_of_size-IsInt n),
  find-Above w ws a.0,
  same_iff word w,
)

merge_words-IsCounted : (t : Tf) (ws : Map Str ℕ) → IsCounted t → IsCounted (merge_words t ws)
unfolding merge_words
merge_words-IsCounted t [] v = v
merge_words-IsCounted t ((w, n) ∷ ws) v =
    merge_words-IsCounted (feed_word t w (int_of_size n)) ws
      (feed_word-IsCounted t w (int_of_size n) (int_of_size-IsInt n) v)

int_of_size_small : (n : ℕ) → n < 2 ^ 31 → size_of_int (int_of_size n) ≡ n
int_of_size_small n h = ground arith

count_lt : (t : Tf) (word : Str) → IsCounted t → count t word < size_mod
unfolding count
count_lt t word v = in_map t.words v.fits
  where
    in_map :
        (m : Map Str ℕ)
        → All (λ e. e.1 < size_mod) m
        → elim (find word m) as (λ o. ℕ) [ none ↦ 0 | some n ↦ n ] < size_mod
    in_map [] a = omega arith
    in_map ((w, n) ∷ m) a = ground (arith, in_map m a.1)

int_of_size_large :
    (n : ℕ) → 2 ^ 31 ≤ n → n < 2 ^ 32 → size_of_int (int_of_size n) + 2 ^ 32 ≡ n + size_mod
int_of_size_large n large small = ground arith

count-merge :
    (t other : TfIdf)
    → IsCounted t.df
    → IsCounted other.df
    → (word : Str)
    → count (merge t other).df word
      ≡ add_size (count t.df word) (size_of_int (int_of_size (count other.df word)))
unfolding merge count
count-merge t other v w word = elim (Option-cases (find word other.df.words)) [
  | inl missing ↦
      ground
        (arith, missing, count-merge_words t.df other.df.words word w.ordered, count_lt t.df word v)
  | inr (n, known) ↦ ground (arith, known, count-merge_words t.df other.df.words word w.ordered)
]

-- Merging keeps the total equal to the sum, and adds to the count of every word the other's count,
-- which goes through an `int` on the way: its low 32 bits, read as a signed number, are added as a
-- `size_t`. So a count below 2^31 is added as it is, and a count from 2^31 on and below 2^32 is
-- added less 2^32, modulo 2^64.
pub merge_lem :
    (t other : TfIdf)
    → IsCounted t.df
    → IsCounted other.df
    → IsCounted (merge t other).df
      × ((word : Str)
          → count (merge t other).df word
            ≡ add_size (count t.df word) (size_of_int (int_of_size (count other.df word))))
      × ((word : Str)
          → count other.df word < 2 ^ 31
          → count (merge t other).df word ≡ add_size (count t.df word) (count other.df word))
      × ((word : Str)
          → 2 ^ 31 ≤ count other.df word
          → count other.df word < 2 ^ 32
          → (count (merge t other).df word + 2 ^ 32) % size_mod
            ≡ (count t.df word + count other.df word) % size_mod)
unfolding merge
merge_lem t other v w = (
  merge-IsCounted,
  merged,
  λ word small.
      merged word
      ∙ ap (λ n. add_size (count t.df word) n) (int_of_size_small (count other.df word) small),
  λ word large small.
      omega (arith, merged word, int_of_size_large (count other.df word) large small),
)
  where
    merge-IsCounted : IsCounted (merge t other).df
    merge-IsCounted = merge_words-IsCounted t.df other.df.words v

    merged :
        (word : Str)
        → count (merge t other).df word
          ≡ add_size (count t.df word) (size_of_int (int_of_size (count other.df word)))
    merged = count-merge t other v w
