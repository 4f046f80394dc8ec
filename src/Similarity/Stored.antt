-- ===== src/Similarity/Stored.antt =====
-- The elements that elliptics_parse_docs.cpp stores, as elliptics_load_docs.cpp reads them.
use wookie.Base.{
  ℕ, ◌<◌, ◌^◌, ◌≡◌, refl, sym, ap, subst, ◌∙◌, Bool, false, some, List, [], ◌∷◌, map, length,
  length-map, All, Str, nat_ord, str_ord, ok, map_result, arith, ℤ,
}
use wookie.MsgPack.{
  array, from_signed, to_signed, to_int, to_long, to_vector-array, to_list-from_list,
}
use wookie.Documents.{Simdoc}
use wookie.Documents.RoundTrip.{FitsSigned, signed_fit}
use wookie.TfIdf.{size_mod}
use wookie.Parser.{Outside}
use wookie.Similarity.{LearnElement, pack_learn_element, unpack_learn_element, load_elements}
use wookie.Similarity.Parse.{request_ngrams}
use wookie.Similarity.Pairs.{load_pairs, load_pairs-IsLoaded}
use wookie.Similarity.Loader.{Checking, check, success_rate, turns}
use wookie.Similarity.Reads.{Paired}
use wookie.Similarity.Checks.{Labelled, IsTallied, rate, check-success_rate}

-- The numbers fit their C++ types.
abbrev pub Fits : LearnElement → Type 0
Fits le =
    All (FitsSigned (2 ^ 31)) le.doc_ids
    × FitsSigned (2 ^ 31) le.label
    × All (FitsSigned (2 ^ 63)) le.req_ngrams

-- What is left of an element.
abbrev pub read_back : LearnElement → LearnElement
read_back le = record le { valid = false; features = [] }

all_fit :
    (bound : ℕ) (zs : List ℤ)
    → All (FitsSigned bound) zs
    → All (λ z. to_signed bound (from_signed z) ≡ ok z) zs
all_fit bound [] h = tt
all_fit bound (z ∷ zs) h = (signed_fit bound z h.0, all_fit bound zs h.1)

unpack_learn_element-pack_learn_element :
    (le : LearnElement) → Fits le → unpack_learn_element (pack_learn_element le) ≡ ok (read_back le)
unfolding unpack_learn_element pack_learn_element
unpack_learn_element-pack_learn_element le (ids, label, ngrams) = ground (
  arith,
  to_vector-array to_int from_signed le.doc_ids (all_fit (2 ^ 31) le.doc_ids ids),
  signed_fit (2 ^ 31) le.label label,
  to_vector-array to_long from_signed le.req_ngrams (all_fit (2 ^ 63) le.req_ngrams ngrams),
)

map_result-pack :
    (les : List LearnElement)
    → All Fits les
    → map_result unpack_learn_element (map pack_learn_element les) ≡ ok (map read_back les)
map_result-pack [] fits = refl
map_result-pack (le ∷ les) fits =
    rw (unpack_learn_element-pack_learn_element le fits.0, map_result-pack les fits.1) refl

load_elements-pack :
    (les : List LearnElement)
    → All Fits les
    → load_elements (array (map pack_learn_element les)) ≡ ok (map read_back les)
unfolding load_elements
load_elements-pack les fits =
    ap (map_result unpack_learn_element) (to_list-from_list (map pack_learn_element les))
    ∙ map_result-pack les fits

All-map :
    {A B : Type 0} (P : A → Type 0) (Q : B → Type 0) (f : A → B) (xs : List A)
    → ((x : A) → P x → Q (f x))
    → All P xs
    → All Q (map f xs)
All-map P Q f [] each all = tt
All-map P Q f (x ∷ xs) each all = (each x all.0, All-map P Q f xs each all.1)

-- The elements that the threads leave.
abbrev pub stored : Outside → ℤ → Str → List LearnElement
stored out max_line_num text = map (request_ngrams out) (load_pairs max_line_num text).m_elements

-- For any file of pairs and any bound on its lines, where the numbers of the elements read from it
-- fit their C++ types, with at least one document, and `rand` called once in a turn, in fewer than
-- 2^64 turns: when the n-grams of the requests are generated and the elements are packed, `load` of
-- elliptics_load_docs.cpp unpacks elements with which `check` reads no vector past its end. It counts
-- at most one element in a turn; its total, its successes and its positives are the sums of the
-- score's counts that they stand for, and the rate that it prints is the share of the right answers
-- in percent, or has no value if nothing was counted.
pub check-stored :
    (out : Outside) (max_line_num : ℤ) (text : Str) (docs : List Simdoc) (is_half : List ℤ → Bool)
    (num : ℤ) (rand : ℕ → List ℕ)
    → All Fits (stored out max_line_num text)
    → 0 < length docs
    → ((n : ℕ) → length (rand n) ≡ n)
    → turns num (length (stored out max_line_num text)) < size_mod
    → (les : List LearnElement) × (t : Checking) × (load_elements
          (array (map pack_learn_element (stored out max_line_num text)))
        ≡ ok les)
      × (check docs is_half les num rand ≡ some t)
      × IsTallied t (turns num (length les))
      × (success_rate t ≡ rate t.score)
unfolding request_ngrams
check-stored out max_line_num text docs is_half num rand fits some_doc drawn small =
    let les = stored out max_line_num text in
    let made = (load_pairs-IsLoaded max_line_num text).made in
    let paired : All Paired (map read_back les) =
      All-map Paired Paired read_back les (λ le h. h)
        (All-map (λ le. Paired le × Labelled le) Paired (request_ngrams out)
          (load_pairs max_line_num text).m_elements (λ le h. h.0) made) in
    let labelled : All Labelled (map read_back les) =
      All-map Labelled Labelled read_back les (λ le h. h)
        (All-map (λ le. Paired le × Labelled le) Labelled (request_ngrams out)
          (load_pairs max_line_num text).m_elements (λ le h. h.1) made) in
    let (t, run, tallied, rated) =
      check-success_rate docs is_half (map read_back les) num rand some_doc paired labelled drawn
        (subst (λ n. turns num n < size_mod) (sym (length-map read_back les)) small) in
    (map read_back les, t, load_elements-pack les fits, run, tallied, rated)
