-- ===== src/Similarity/Checks.antt =====
-- What `check` counts.
use wookie.Base.{
  ℕ, suc, ◌+◌, ◌*◌, ◌/◌, ◌%◌, ◌<◌, ◌≤◌, ◌==◌, ◌≡◌, ◌⊎◌, inl, inr, refl, sym, subst, Bool, true,
  false, Option, none, some, List, [], ◌∷◌, Map, insert, length, All, arith, Option-cases,
  if◌then◌else◌, get_elem?, update_at, All-get_elem?, All-update_at, some_injective, nat_ord,
  str_ord, ℤ, pos, negsuc,
}
use wookie.Documents.{Simdoc}
use wookie.Parser.Ngrams.{int_ord}
use wookie.TfIdf.{size_mod}
use wookie.Score.{Score, score, add}
use wookie.Score.Counts.{Counts, add-Counts}
use wookie.Similarity.{LearnElement, generate_features}
use wookie.Similarity.Reads.{Paired, check-some}
use wookie.Similarity.Loader.{
  is_positive, make_element, Checking, count_element, check_pick, check_loop, check, success_rate,
  turns, positions_from, position,
}

-- The labels that are stored.
abbrev pub Labelled : LearnElement → Type 0
Labelled le = (le.label ≡ pos 1) ⊎ (le.label ≡ negsuc 0)

-- The share of the answers that are right, in percent.
abbrev pub rate : Score → Option ℕ
rate s =
    let right = s.m_true_positive + s.m_true_negative in
    let all = s.m_true_positive + s.m_false_positive + s.m_true_negative + s.m_false_negative in
    if all == 0 then none else some (right * 100 / all)

-- The variables against the counts of the score, after `n` turns or fewer.
pub record IsTallied (s : Checking) (n : ℕ) : Type 0 where
  pub total :
      s.total
      ≡ s.score.m_true_positive + s.score.m_false_positive + s.score.m_true_negative
        + s.score.m_false_negative
  pub success : s.success ≡ s.score.m_true_positive + s.score.m_true_negative
  pub positive : s.positive ≡ s.score.m_true_positive + s.score.m_false_negative
  pub turned : s.total ≤ n
  pub labelled : All Labelled s.elements

module _ (docs : List Simdoc) (is_half : List ℤ → Bool) where
  count_element-IsTallied :
      (s : Checking) (le : LearnElement) (l : Bool) (n : ℕ)
      → Labelled le
      → suc n < size_mod
      → IsTallied s n
      → IsTallied (count_element docs is_half s le l) (suc n)
  unfolding count_element
  count_element-IsTallied s le l n label small t =
      let counted : Counts s.score (add s.score (is_positive le.label) l)
          ((is_positive le.label, l) ∷ []) =
        add-Counts s.score (is_positive le.label) l (omega (arith, t.total, t.turned)) in
      record {
        total = ground (
          arith, t.total, counted.true_positive, counted.true_negative, counted.false_positive,
          counted.false_negative,
        );
        success = ground (arith, t.success, counted.true_positive, counted.true_negative, label);
        positive = ground (arith, t.positive, counted.true_positive, counted.false_negative, label);
        turned = omega (arith, t.turned);
        labelled = t.labelled;
      }

generate_features-label :
    (le after : LearnElement) (d1 d2 : Simdoc) {made : Bool}
    → generate_features le d1 d2 ≡ some (made, after)
    → after.label ≡ le.label
unfolding generate_features
generate_features-label le after d1 d2 h = ground (arith, h)

make_element-label :
    (docs : List Simdoc) (positions : Map ℤ ℕ) (le after : LearnElement) {made : Bool}
    {later : Map ℤ ℕ}
    → make_element docs positions le ≡ some (made, after, later)
    → after.label ≡ le.label
unfolding make_element
make_element-label docs positions le after h = elim (Option-cases (get_elem? le.doc_ids 0)) [
  | inl e1 ↦ absurd (ground (arith, h, e1))
  | inr (id1, e1) ↦ elim (Option-cases (get_elem? le.doc_ids 1)) [
    | inl e2 ↦ absurd (ground (arith, h, e1, e2))
    | inr (id2, e2) ↦
        let first = insert id1 0 positions in
        let both = insert id2 0 first in
        elim (Option-cases (get_elem? docs (position id1 first))) [
          | inl e3 ↦ absurd (ground (arith, h, e1, e2, e3))
          | inr (d1, e3) ↦ elim (Option-cases (get_elem? docs (position id2 both))) [
            | inl e4 ↦ absurd (ground (arith, h, e1, e2, e3, e4))
            | inr (d2, e4) ↦ elim (Option-cases (generate_features le d1 d2)) [
              | inl e5 ↦ absurd (ground (arith, h, e1, e2, e3, e4, e5))
              | inr ((b, a), e5) ↦
                  let kept : a.label ≡ le.label = generate_features-label le a d1 d2 e5 in
                  ground (arith, h, e1, e2, e3, e4, e5, kept)
            ]
          ]
        ]
  ]
]

module _ (docs : List Simdoc) (is_half : List ℤ → Bool) where
  counted_or_not :
      (s : Checking) (le : LearnElement) (made : Bool) (n : ℕ)
      → Labelled le
      → suc n < size_mod
      → IsTallied s n
      → IsTallied
          (if made then count_element docs is_half s le (is_half le.features) else s)
          (suc n)
  counted_or_not s le true n label small t =
      count_element-IsTallied docs is_half s le (is_half le.features) n label small t
  counted_or_not s le false n label small t = record {
    total = t.total;
    success = t.success;
    positive = t.positive;
    turned = omega (arith, t.turned);
    labelled = t.labelled;
  }

  check_pick-IsTallied :
      (s : Checking) (rand n : ℕ) {t : Checking}
      → suc n < size_mod
      → IsTallied s n
      → check_pick docs is_half s rand ≡ some t
      → IsTallied t (suc n)
  unfolding check_pick
  check_pick-IsTallied s rand n {t} small tallied picked =
      let lepos = rand % length s.elements in
      elim (Option-cases (get_elem? s.elements lepos)) [
        | inl e1 ↦ absurd (ground (arith, picked, e1))
        | inr (le, e1) ↦ elim (Option-cases (make_element docs s.id_position le)) [
          | inl e2 ↦ absurd (ground (arith, picked, e1, e2))
          | inr ((made, after, later), e2) ↦
              let label : Labelled after =
                subst (λ z. (z ≡ pos 1) ⊎ (z ≡ negsuc 0))
                  (sym (make_element-label docs s.id_position le after e2))
                  (All-get_elem? Labelled s.elements lepos tallied.labelled e1) in
              let kept : Checking = record s {
                elements = update_at (λ old. after) lepos s.elements;
                id_position = later;
              } in
              let before : IsTallied kept n = record {
                total = tallied.total;
                success = tallied.success;
                positive = tallied.positive;
                turned = tallied.turned;
                labelled = All-update_at Labelled after lepos s.elements tallied.labelled label;
              } in
              subst (λ r. IsTallied r (suc n)) (ground (arith, picked, e1, e2))
                (counted_or_not kept after made n label small before)
        ]
      ]

  check_loop-IsTallied :
      (s : Checking) (rands : List ℕ) (n : ℕ) {t : Checking}
      → n + length rands < size_mod
      → IsTallied s n
      → check_loop docs is_half s rands ≡ some t
      → IsTallied t (n + length rands)
  unfolding check_loop
  check_loop-IsTallied s [] n small tallied run =
      subst (λ r. IsTallied r (n + 0)) (some_injective run)
        (subst (IsTallied s) (omega arith) tallied)
  check_loop-IsTallied s (rand ∷ rands) n {t} small tallied run =
      elim (Option-cases (check_pick docs is_half s rand)) [
        | inl e ↦ absurd (ground (arith, run, e))
        | inr (after, e) ↦ subst (IsTallied t) (omega arith) (
            check_loop-IsTallied after rands (suc n) (omega (arith, small))
              (check_pick-IsTallied s rand n (omega (arith, small)) tallied e)
              (ground (arith, run, e)))
      ]

check-IsTallied :
    (docs : List Simdoc) (is_half : List ℤ → Bool) (les : List LearnElement) (num : ℤ)
    (rand : ℕ → List ℕ) {t : Checking}
    → All Labelled les
    → ((n : ℕ) → length (rand n) ≡ n)
    → turns num (length les) < size_mod
    → check docs is_half les num rand ≡ some t
    → IsTallied t (turns num (length les))
unfolding check
check-IsTallied docs is_half les num rand {t} labels drawn small run =
    let n = turns num (length les) in
    subst (IsTallied t) (omega (arith, drawn n)) (
      check_loop-IsTallied docs is_half
        (record {
          elements = les;
          id_position = positions_from 0 docs [];
          total = 0;
          success = 0;
          positive = 0;
          score = score;
        })
        (rand n) 0 (omega (arith, drawn n, small))
        (record {
          total = omega arith;
          success = omega arith;
          positive = omega arith;
          turned = omega arith;
          labelled = labels;
        })
        run)

-- For at least one document, and elements with two documents and a label of 1 or -1 each, where
-- `rand` is called once in a turn and the turns are fewer than 2^64: `check` reads no vector past its
-- end. It counts at most one element in a turn; its total, its successes and its positives are the
-- sums of the score's counts that they stand for, and the rate that it prints is the share of the
-- right answers in percent, or has no value if nothing was counted.
pub check-success_rate :
    (docs : List Simdoc) (is_half : List ℤ → Bool) (les : List LearnElement) (num : ℤ)
    (rand : ℕ → List ℕ)
    → 0 < length docs
    → All Paired les
    → All Labelled les
    → ((n : ℕ) → length (rand n) ≡ n)
    → turns num (length les) < size_mod
    → (t : Checking) × (check docs is_half les num rand ≡ some t)
      × IsTallied t (turns num (length les))
      × (success_rate t ≡ rate t.score)
unfolding success_rate
check-success_rate docs is_half les num rand some_doc paired labels drawn small =
    let (t, run) = check-some docs is_half les num rand some_doc paired drawn in
    let tallied = check-IsTallied docs is_half les num rand labels drawn small run in
    (t, run, tallied, rw (tallied.total, tallied.success) refl)
