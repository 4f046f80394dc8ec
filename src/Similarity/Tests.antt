-- ===== src/Similarity/Tests.antt =====
-- Two documents, a request and the elements made of them.
use mathlib.Core.List.{Permᴰ}
use mathlib.Core.Quot
use wookie.TfIdf.{size_mod, count, empty_tfidf}
use wookie.Similarity.Frequencies.{worked, has_word, count_bag-merge_threads}
use wookie.Base.{
  ok, sym, subst, ◌<◌, All, Bag, bag, count_bag, ℕ, zero, suc, ◌≡◌, refl, ap, true, false, some,
  List, [], ◌∷◌, length, map, replicate, Str, nat_ord, str_ord, arith, pos,
}
use wookie.MsgPack.{array}
use wookie.Documents.{Simdoc}
use wookie.Parser.{Outside}
use wookie.Parser.Sample
use wookie.Parser.Ngrams.{int_ord, lngram, ngram_loop, generate_ngrams}
use wookie.Similarity.{
  LearnElement, learn_element, generate_features, pack_learn_element, unpack_learn_element,
  load_elements,
}
use wookie.Similarity.Loader.{turns, Checking, check, success_rate, train}
use wookie.Similarity.Parse.{share, merge_threads, request_ngrams, visit_elements}
use wookie.Similarity.Features.{generate_features-counted}
use wookie.Similarity.Train.{train-load_elements}
use wookie.Similarity.Interleavings.{ended, takes}
use wookie.Similarity.Pairs.{
  load_lines, load_line, add_line, load_pairs, IsLoaded, load_pairs-IsLoaded,
}
use wookie.Similarity.Threads.{visit_elements-map}
use wookie.Similarity.Checks.{IsTallied, rate}
use wookie.Similarity.Stored.{Fits, stored, check-stored}

abbrev out : Outside
out = record Sample.out { characters = map (λ c. c ∷ []) }

abbrev abcd : Str
abcd = b'a' ∷ b'b' ∷ b'c' ∷ b'd' ∷ []

abbrev abcde : Str
abcde = b'a' ∷ b'b' ∷ b'c' ∷ b'd' ∷ b'e' ∷ []

abbrev document : Str → Simdoc
document text = record { id = pos 7; text = text; ngrams = generate_ngrams out text [] }

abbrev element : LearnElement
element = record learn_element {
  doc_ids = pos 7 ∷ pos 8 ∷ [];
  request = abcd;
  req_ngrams = generate_ngrams out abcd [];
  label = pos 1;
}

generate_features-counted_example :
    generate_features element (document abcde) (document abcd)
    ≡ some (
      true,
      record element { valid = true; features = pos 2 ∷ pos 1 ∷ pos 1 ∷ pos 1 ∷ pos 1 ∷ [] },
    )
unfolding generate_ngrams ngram_loop lngram
generate_features-counted_example =
    generate_features-counted out element (document abcde) (document abcd) refl refl refl

abbrev five : LearnElement
five = record element { req_ngrams = pos 5 ∷ []; valid = true }

train-load_elements_example :
    train (record five { valid = false } ∷ [])
    ≡ record { samples = []; positive = 0; negative = 0; invalid = 1 }
unfolding load_elements unpack_learn_element pack_learn_element
train-load_elements_example =
    train-load_elements (array (pack_learn_element five ∷ [])) (record five { valid = false } ∷ [])
      refl

visit_elements-map_example :
    visit_elements out (1 ∷ 0 ∷ []) (learn_element ∷ element ∷ [])
    ≡ request_ngrams out learn_element ∷ request_ngrams out element ∷ []
unfolding share
visit_elements-map_example =
    visit_elements-map out (learn_element ∷ element ∷ []) 2 (omega arith) (omega arith)
      (takes [] 1 [] ((0 ∷ []) ∷ []) refl (takes ([] ∷ []) 0 [] [] refl (ended (refl, (refl, tt)))))

abbrev zeros : ℕ → List ℕ
zeros n = replicate n 0

length-zeros : (n : ℕ) → length (zeros n) ≡ n
length-zeros zero = refl
length-zeros (suc n) = ap suc (length-zeros n)

abbrev letters : Outside
letters = record Sample.out { loc = record { words = map (λ c. c ∷ []); to_lower = λ word. word } }

abbrev texts : Bag Str
texts = bag ((b'a' ∷ []) ∷ (b'a' ∷ b'a' ∷ []) ∷ (b'b' ∷ []) ∷ [])

count_bag-merge_threads_example :
    count
      (merge_threads letters empty_tfidf (
        map
          (worked letters.loc)
          (((b'a' ∷ b'a' ∷ []) ∷ []) ∷ ((b'b' ∷ []) ∷ (b'a' ∷ []) ∷ []) ∷ []))).df
      (b'a' ∷ [])
    ≡ count_bag (has_word letters.loc (b'a' ∷ [])) texts
count_bag-merge_threads_example =
    count_bag-merge_threads letters texts
      (((b'a' ∷ b'a' ∷ []) ∷ []) ∷ ((b'b' ∷ []) ∷ (b'a' ∷ []) ∷ []) ∷ []) (b'a' ∷ [])
      (Quot.sound (Permᴰ.trans (Permᴰ.cons refl (Permᴰ.swap refl refl)) (Permᴰ.swap refl refl)))
      (omega arith)

abbrev line : Str
line = b'7' ∷ 9 ∷ b'8' ∷ 9 ∷ b'1' ∷ 9 ∷ b'a' ∷ 10 ∷ []

load_pairs-IsLoaded_example : IsLoaded (load_pairs (pos 2) line)
load_pairs-IsLoaded_example = load_pairs-IsLoaded (pos 2) line

stored-Fits : All Fits (stored out (pos 2) line)
unfolding request_ngrams load_pairs load_lines load_line add_line generate_ngrams ngram_loop
stored-Fits = (((omega arith, (omega arith, tt)), omega arith, tt), tt)

length-stored : length (stored out (pos 2) line) ≡ 1
unfolding request_ngrams load_pairs load_lines load_line add_line
length-stored = refl

check-stored_example :
    (les : List LearnElement) × (t : Checking) × (load_elements
        (array (map pack_learn_element (stored out (pos 2) line)))
      ≡ ok les)
    × (check (document abcd ∷ []) (λ features. true) les (pos 3) zeros ≡ some t)
    × IsTallied t (turns (pos 3) (length les))
    × (success_rate t ≡ rate t.score)
check-stored_example =
    check-stored out (pos 2) line (document abcd ∷ []) (λ features. true) (pos 3) zeros stored-Fits
      (omega arith) length-zeros
      (subst (λ n. turns (pos 3) n < size_mod) (sym length-stored) (omega arith))
