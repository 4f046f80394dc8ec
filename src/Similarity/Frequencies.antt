-- ===== src/Similarity/Frequencies.antt =====
-- The document frequencies of all threads.
use wookie.Base.{
  ◌+◌, ◌<◌, ◌≤◌, ◌^◌, ◌≡◌, sym, ap, ◌∙◌, Bool, List, [], ◌∷◌, ◌++◌, map, arith, length,
  length-append, count_if, contains, Str, nat_ord, str_ord, Bag, bag, count_bag, count_bag-bag,
}
use wookie.Split.{Locale}
use wookie.TfIdf.{count, empty_tf, TfIdf, empty_tfidf, merge}
use wookie.TfIdf.Counts.{IsCounted, empty-IsCounted, merge_lem}
use wookie.TfIdf.Frequency.{
  lower_words, process_texts, count-process_texts, process_texts-IsCounted, count-empty_tf,
}
use wookie.Parser.{Outside, Parser, parser, merge_into}
use wookie.Similarity.Parse.{merge_threads}

-- A thread's parser after the texts of its documents.
abbrev pub worked : Locale → List Str → Parser
worked loc texts = record parser { m_tfidf = process_texts loc empty_tfidf texts }

abbrev pub all_texts : List (List Str) → List Str
all_texts [] = []
all_texts (part ∷ parts) = part ++ all_texts parts

module _ {A : Type 0} (p : A → Bool) where
  count_if-append : (xs ys : List A) → count_if p (xs ++ ys) ≡ count_if p xs + count_if p ys
  count_if-append [] ys = omega arith
  count_if-append (x ∷ xs) ys = ground (arith, count_if-append xs ys)

  count_if-le : (xs : List A) → count_if p xs ≤ length xs
  count_if-le [] = omega arith
  count_if-le (x ∷ xs) = ground (arith, count_if-le xs)

-- A text has the word.
abbrev pub has_word : Locale → Str → Str → Bool
has_word loc word text = contains word (lower_words loc text)

count-merge_threads :
    (out : Outside) (df : TfIdf) (parts : List (List Str)) (word : Str)
    → IsCounted df.df
    → count df.df word + length (all_texts parts) < 2 ^ 31
    → count (merge_threads out df (map (worked out.loc) parts)).df word
      ≡ count df.df word + count_if (has_word out.loc word) (all_texts parts)
unfolding merge_threads merge_into
count-merge_threads out df [] word counted small = omega arith
count-merge_threads out df (part ∷ parts) word counted small =
    let sizes = length-append part (all_texts parts) in
    let here = count-process_texts out.loc part word (omega (arith, small, sizes)) in
    let few = count_if-le (has_word out.loc word) part in
    let (after_counted, every, merged, large) =
      merge_lem df (process_texts out.loc empty_tfidf part) counted
        (process_texts-IsCounted out.loc part) in
    let count_now = merged word (omega (arith, here, few, small, sizes)) in
    let now : count (merge df (process_texts out.loc empty_tfidf part)).df word
        ≡ count df.df word + count_if (has_word out.loc word) part =
      omega (arith, count_now, here, few, small, sizes) in
    omega (
      arith,
      count-merge_threads out (merge df (process_texts out.loc empty_tfidf part)) parts word
          after_counted (omega (arith, now, few, small, sizes)),
      now,
      count_if-append (has_word out.loc word) part (all_texts parts),
    )

-- For a bag of fewer than 2^31 texts, however they are distributed among threads and in whatever
-- order each thread takes them: when the threads have ended and their collections are merged, the
-- count of every word is the number of the texts in the bag that have it in lower case.
pub count_bag-merge_threads :
    (out : Outside) (texts : Bag Str) (parts : List (List Str)) (word : Str)
    → bag (all_texts parts) ≡ texts
    → length (all_texts parts) < 2 ^ 31
    → count (merge_threads out empty_tfidf (map (worked out.loc) parts)).df word
      ≡ count_bag (has_word out.loc word) texts
count_bag-merge_threads out texts parts word distributed small =
    let none_yet : count empty_tf word ≡ 0 = count-empty_tf word in
    let counted =
      count-merge_threads out empty_tfidf parts word empty-IsCounted
        (omega (arith, none_yet, small)) in
    omega (arith, counted, none_yet)
    ∙ sym (count_bag-bag (has_word out.loc word) (all_texts parts))
    ∙ ap (count_bag (has_word out.loc word)) distributed
