-- ===== src/Parser/Ngrams.antt =====
-- `parser::generate_ngrams` of include/wookie/parser.hpp: the set of the numbers that stand for four
-- characters in a row.
use wookie.Base.{
  ◌==◌, ◌≡◌, refl, Ordering, true, false, List, [], ◌∷◌, ◌++◌, take, drop, length, Str, Ord,
  nat_ord, str_ord, sort_unique, StrictlySorted, sort_unique-StrictlySorted, long_of_bits,
  little_endian, ℤ, pos, negsuc, arith,
}
use wookie.Parser.{Outside}

-- `operator<` of `long`.
abbrev pub int_compare : ℤ → ℤ → Ordering
int_compare (pos a) (pos b) = nat_ord.cmp a b
int_compare (pos a) (negsuc b) = Ordering.gt
int_compare (negsuc a) (pos b) = Ordering.lt
int_compare (negsuc a) (negsuc b) = nat_ord.cmp b a

pub int_compare_refl : (a : ℤ) → int_compare a a ≡ Ordering.eq
int_compare_refl (pos a) = nat_ord.cmp_refl a
int_compare_refl (negsuc a) = nat_ord.cmp_refl a

pub int_compare_eq : (a b : ℤ) → int_compare a b ≡ Ordering.eq → a ≡ b
int_compare_eq (pos a) (pos b) h = ground arith
int_compare_eq (pos a) (negsuc b) h = cc
int_compare_eq (negsuc a) (pos b) h = cc
int_compare_eq (negsuc a) (negsuc b) h = ground arith

pub int_compare_gt : (a b : ℤ) → int_compare a b ≡ Ordering.gt → int_compare b a ≡ Ordering.lt
int_compare_gt (pos a) (pos b) h = ground arith
int_compare_gt (pos a) (negsuc b) h = refl
int_compare_gt (negsuc a) (pos b) h = cc
int_compare_gt (negsuc a) (negsuc b) h = ground arith

pub int_compare_trans :
    (a b c : ℤ)
    → int_compare a b ≡ Ordering.lt
    → int_compare b c ≡ Ordering.lt
    → int_compare a c ≡ Ordering.lt
int_compare_trans (pos a) (pos b) (pos c) h k = ground arith
int_compare_trans (pos a) (pos b) (negsuc c) h k = cc
int_compare_trans (pos a) (negsuc b) c h k = cc
int_compare_trans (negsuc a) (pos b) (pos c) h k = refl
int_compare_trans (negsuc a) (pos b) (negsuc c) h k = cc
int_compare_trans (negsuc a) (negsuc b) (pos c) h k = refl
int_compare_trans (negsuc a) (negsuc b) (negsuc c) h k = ground arith

instance abbrev pub int_ord : Ord ℤ
int_ord = record {
  cmp = int_compare;
  cmp_refl = int_compare_refl;
  cmp_eq = int_compare_eq;
  cmp_gt = int_compare_gt;
  cmp_trans = int_compare_trans;
}

abbrev pub concat : List Str → Str
concat [] = []
concat (s ∷ ss) = s ++ concat ss

-- The `memcpy` of at most eight bytes over a zero.
unfoldable pub lngram : List Str → ℤ
lngram ng = long_of_bits (little_endian (take 8 (concat ng)))

-- The loop over the characters, with the last ones in `ng`.
unfoldable pub ngram_loop : List Str → List Str → List ℤ → List ℤ
unfolding lngram
ngram_loop ng [] ngrams = ngrams
ngram_loop ng (c ∷ cs) ngrams = elim (length (ng ++ c ∷ []) == 4) [
  | true ↦ ngram_loop (drop 1 (ng ++ c ∷ [])) cs (ngrams ++ lngram (ng ++ c ∷ []) ∷ [])
  | false ↦ ngram_loop (ng ++ c ∷ []) cs ngrams
]

unfoldable pub generate_ngrams : Outside → Str → List ℤ → List ℤ
unfolding ngram_loop
generate_ngrams out text ngrams = sort_unique (ngram_loop [] (out.characters text) ngrams)

-- They ascend strictly.
pub generate_ngrams-StrictlySorted :
    (out : Outside) (text : Str) (ngrams : List ℤ)
    → StrictlySorted (generate_ngrams out text ngrams)
unfolding generate_ngrams
generate_ngrams-StrictlySorted out text ngrams =
    sort_unique-StrictlySorted (ngram_loop [] (out.characters text) ngrams)
