-- ===== src/Similarity/Loader.antt =====
-- `loader` of test/similarity/elliptics_load_docs.cpp behind the reads from elliptics, with
-- `dlib_learner::add_sample` of test/similarity/dlib.hpp. The training of dlib and `rand` are
-- outside. A counter is at most the number of elements, which are in memory.
use wookie.Base.{
  ℕ, suc, ◌+◌, ◌*◌, ◌/◌, ◌%◌, ◌==◌, update_at, Bool, false, not, Option, none, some, List, [], ◌∷◌,
  ◌++◌, ◌&&◌, ◌||◌, length, ltb, if◌then◌else◌, get_elem?, min, Map, find, insert, assign, same, ℤ,
  pos, negsuc,
}
use wookie.Documents.{Simdoc}
use wookie.TfIdf.{int_of_size}
use wookie.Parser.Ngrams.{int_ord}
use wookie.Score.{Score, score, add}
use wookie.Similarity.{LearnElement, generate_features}

-- What was given to `dlib_learner`, the features of a sample with its label, and the counters.
pub record Training : Type 0 where
  pub samples : List (List ℤ × ℤ)
  pub positive : ℕ
  pub negative : ℕ
  pub invalid : ℕ

abbrev pub is_positive : ℤ → Bool
is_positive (pos n) = ltb 0 n
is_positive (negsuc n) = false

-- `add_sample`.
unfoldable pub add_sample : List (List ℤ × ℤ) → LearnElement → List (List ℤ × ℤ)
add_sample samples le = if not le.valid then samples else samples ++ (le.features, le.label) ∷ []

-- One element in the loop of `train`.
unfoldable pub train_element : Training → LearnElement → Training
unfolding add_sample
train_element t le =
    if not le.valid
    then record t { invalid = t.invalid + 1 }
    else if is_positive le.label
    then record t { positive = t.positive + 1; samples = add_sample t.samples le }
    else if ltb t.negative (t.positive * 2)
    then record t { negative = t.negative + 1; samples = add_sample t.samples le }
    else t

unfoldable pub train_loop : Training → List LearnElement → Training
train_loop t [] = t
train_loop t (le ∷ les) = train_loop (train_element t le) les

abbrev pub training : Training
training = record { samples = []; positive = 0; negative = 0; invalid = 0 }

-- `train`, up to the call of `train_and_test`.
unfoldable pub train : List LearnElement → Training
unfolding train_loop
train les = train_loop training les

-- The loop over the documents read, the first of which has the number `i`.
unfoldable pub positions_from : ℕ → List Simdoc → Map ℤ ℕ → Map ℤ ℕ
positions_from i [] positions = positions
positions_from i (doc ∷ docs) positions = positions_from (suc i) docs (assign doc.id i positions)

-- `m_id_position[id]`.
abbrev pub position : ℤ → Map ℤ ℕ → ℕ
position id positions = elim (find id positions) [ none ↦ 0 | some i ↦ i ]

-- `make_element`, with the map after it; none where a vector is read past its end.
unfoldable pub make_element :
    List Simdoc → Map ℤ ℕ → LearnElement → Option (Bool × LearnElement × Map ℤ ℕ)
make_element docs positions le = elim (get_elem? le.doc_ids 0) [
  | none ↦ none
  | some id1 ↦ elim (get_elem? le.doc_ids 1) [
    | none ↦ none
    | some id2 ↦
        let first = insert id1 0 positions in
        let both = insert id2 0 first in
        elim (get_elem? docs (position id1 first)) [
          | none ↦ none
          | some d1 ↦ elim (get_elem? docs (position id2 both)) [
            | none ↦ none
            | some d2 ↦ elim (generate_features le d1 d2) [
              | none ↦ none
              | some (made, after) ↦ some (made, after, both)
            ]
          ]
        ]
  ]
]

-- The variables of `check`. `total`, `success` and `positive` are at most the number of picks.
pub record Checking : Type 0 where
  pub elements : List LearnElement
  pub id_position : Map ℤ ℕ
  pub total : ℕ
  pub success : ℕ
  pub positive : ℕ
  pub score : Score

module _ (docs : List Simdoc) (is_half : List ℤ → Bool) where
  -- What an element counts, `l >= 0.5` given.
  unfoldable pub count_element : Checking → LearnElement → Bool → Checking
  count_element s le l = record s {
    total = s.total + 1;
    positive = if same le.label (pos 1) then s.positive + 1 else s.positive;
    score = add s.score (is_positive le.label) l;
    success =
        if (same le.label (pos 1) && l) || (same le.label (negsuc 0) && not l)
        then s.success + 1
        else s.success;
  }

  -- One turn of the loop of `check`, with the value of `rand()`. `is_half` says whether the learned
  -- function is 0.5 or more at some features.
  unfoldable pub check_pick : Checking → ℕ → Option Checking
  unfolding count_element
  check_pick s rand =
      let lepos = rand % length s.elements in
      elim (get_elem? s.elements lepos) [
        | none ↦ none
        | some le ↦ elim (make_element docs s.id_position le) [
          | none ↦ none
          | some (made, after, positions) ↦
              let kept = record s {
                elements = update_at (λ old. after) lepos s.elements;
                id_position = positions;
              } in
              some (if made then count_element kept after (is_half after.features) else kept)
        ]
      ]

  -- The loop, with the values that `rand()` returns.
  unfoldable pub check_loop : Checking → List ℕ → Option Checking
  check_loop s [] = some s
  check_loop s (rand ∷ rands) = elim (check_pick s rand) [
    | none ↦ none
    | some after ↦ check_loop after rands
  ]

-- `success * 100 / total`, which has no value for no element.
unfoldable pub success_rate : Checking → Option ℕ
success_rate s = if s.total == 0 then none else some (s.success * 100 / s.total)

-- `std::min<int>(num, m_elements.size())` turns.
abbrev pub turns : ℤ → ℕ → ℕ
turns (pos num) size = elim (int_of_size size) [ pos n ↦ min num n | negsuc n ↦ 0 ]
turns (negsuc num) size = 0

-- `check`, where `load` made the elements and the positions.
unfoldable pub check :
    List Simdoc → (List ℤ → Bool) → List LearnElement → ℤ → (ℕ → List ℕ) → Option Checking
unfolding check_loop positions_from
check docs is_half les num rand =
    check_loop docs is_half
      (record {
        elements = les;
        id_position = positions_from 0 docs [];
        total = 0;
        success = 0;
        positive = 0;
        score = score;
      })
      (rand (turns num (length les)))
