-- ===== src/Similarity.antt =====
-- test/similarity: the features of two documents, the elements that they are learned from, and the
-- loader that trains on the elements or checks them. dlib and elliptics are outside.
mod Tests
pub mod Loader
pub mod Parse
pub mod Features
pub mod Train
pub mod Interleavings
pub mod Threads
pub mod Alone
pub mod Reads
pub mod Frequencies
pub mod Pairs
pub mod Stored
pub mod Checks
use wookie.Base.{
  ◌>>=◌, ℕ, zero, suc, ◌==◌, ◌+◌, ◌*◌, ◌<◌, ◌≡◌, Bool, true, false, Option, none, some, List, [],
  ◌∷◌, ◌++◌, ◌&&◌, ◌||◌, Ordering, map, length, ltb, if◌then◌else◌, get_elem?, replicate, take, min,
  Str, Map, find, insert, assign, nat_ord, str_ord, set_intersection, type_error, Result, ok, err,
  or_err, ℤ, pos, negsuc,
}
use wookie.MsgPack.{Object, raw, array, via_array, from_signed, to_int, to_long, to_str, to_vector}
use wookie.Documents.{Simdoc}
use wookie.TfIdf.{int_of_size, add_size}
use wookie.Parser.{Outside}
use wookie.Parser.Ngrams.{int_ord, generate_ngrams}
use wookie.Score.{Score, score, add}

-- Entries written through an iterator over the first list: none if they go past its end.
abbrev pub overwrite : List ℤ → List ℤ → Option (List ℤ)
overwrite tmp [] = some tmp
overwrite [] (x ∷ xs) = none
overwrite (t ∷ tmp) (x ∷ xs) = elim (overwrite tmp xs) [ none ↦ none | some out ↦ some (x ∷ out) ]

-- `intersect`.
pub intersect : List ℤ → List ℤ → Option (List ℤ)
intersect f s =
    if length f == 0 || length s == 0
    then some []
    else elim (overwrite (replicate (min (length f) (length s)) (pos 0)) (set_intersection f s)) [
      | none ↦ none
      | some tmp ↦ some (take (length (set_intersection f s)) tmp)
    ]

-- `learn_element`.
pub record LearnElement : Type 0 where
  pub doc_ids : List ℤ
  pub request : Str
  pub req_ngrams : List ℤ
  pub label : ℤ
  pub valid : Bool
  pub features : List ℤ

abbrev pub learn_element : LearnElement
learn_element = record {
  doc_ids = [];
  request = [];
  req_ngrams = [];
  label = negsuc 0;
  valid = false;
  features = [];
}

-- `generate_features`: what is returned and the element after it.
pub generate_features : LearnElement → Simdoc → Simdoc → Option (Bool × LearnElement)
unfolding intersect
generate_features le d1 d2 =
    let f = d1.ngrams in
    let s = d2.ngrams in
    if length f == 0 || length s == 0 then some (false, le) else elim (intersect f s) [
      | none ↦ none
      | some inter ↦ elim (intersect inter le.req_ngrams) [
        | none ↦ none
        | some both ↦ some (
          true,
          record le {
            valid = true;
            features =
                le.features
                ++ int_of_size (length f)
                  ∷ int_of_size (length s)
                  ∷ int_of_size (length inter)
                  ∷ int_of_size (length le.req_ngrams)
                  ∷ int_of_size (length both)
                  ∷ [];
          },
        )
      ]
    ]

-- `MSGPACK_DEFINE(doc_ids, label, request, req_ngrams)`.
pub pack_learn_element : LearnElement → Object
pack_learn_element le = array (
    array (map from_signed le.doc_ids)
    ∷ from_signed le.label
    ∷ raw le.request
    ∷ array (map from_signed le.req_ngrams)
    ∷ [])

-- An item that the array lacks leaves its field as it is.
abbrev item_or : {A : Type 0} → (Object → Result A) → List Object → ℕ → A → Result A
item_or f p i a = elim (get_elem? p i) [ none ↦ ok a | some o ↦ f o ]

pub unpack_learn_element : Object → Result LearnElement
unpack_learn_element o = do
  p ← or_err (via_array o) type_error
  doc_ids ← item_or (to_vector to_int) p 0 learn_element.doc_ids
  label ← item_or to_int p 1 learn_element.label
  request ← item_or to_str p 2 learn_element.request
  req_ngrams ← item_or (to_vector to_long) p 3 learn_element.req_ngrams
  ok (record learn_element {
    doc_ids = doc_ids;
    label = label;
    request = request;
    req_ngrams = req_ngrams;
  })

-- `msg.get().convert(&m_elements)` of `loader::load`.
pub load_elements : Object → Result (List LearnElement)
unfolding unpack_learn_element
load_elements = to_vector unpack_learn_element
