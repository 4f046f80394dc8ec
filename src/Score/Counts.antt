-- ===== src/Score/Counts.antt =====
-- What the counts are after any answers.
use wookie.Base.{
  ℕ, ◌+◌, ◌<◌, ◌≡◌, Bool, true, false, not, ◌&&◌, List, [], ◌∷◌, arith, length, count_if,
  if◌then◌else◌,
}
use wookie.TfIdf.{size_mod}
use wookie.Score.{
  Score, score, cnt_add, add_true_positive, add_true_negative, add_false_positive,
  add_false_negative, add,
}

-- The answers, each with the value and what was measured, in order.
add_all : Score → List (Bool × Bool) → Score
add_all s [] = s
add_all s ((value, measured) ∷ answers) = add_all (add s value measured) answers

-- The counts of `answers` on top of those of `s`.
pub record Counts (s t : Score) (answers : List (Bool × Bool)) : Type 0 where
  pub true_positive :
      t.m_true_positive
      ≡ s.m_true_positive + count_if (λ (value, measured). value && measured) answers
  pub false_positive :
      t.m_false_positive
      ≡ s.m_false_positive + count_if (λ (value, measured). not value && measured) answers
  pub true_negative :
      t.m_true_negative
      ≡ s.m_true_negative + count_if (λ (value, measured). not value && not measured) answers
  pub false_negative :
      t.m_false_negative
      ≡ s.m_false_negative + count_if (λ (value, measured). value && not measured) answers

total : Score → ℕ
total s = s.m_true_positive + s.m_false_positive + s.m_true_negative + s.m_false_negative

step :
    (s t : Score) {r : Score} (answers : List (Bool × Bool)) (answer : Bool × Bool)
    → Counts t r answers
    → t.m_true_positive ≡ s.m_true_positive + (if answer.0 && answer.1 then 1 else 0)
    → t.m_false_positive ≡ s.m_false_positive + (if not answer.0 && answer.1 then 1 else 0)
    → t.m_true_negative ≡ s.m_true_negative + (if not answer.0 && not answer.1 then 1 else 0)
    → t.m_false_negative ≡ s.m_false_negative + (if answer.0 && not answer.1 then 1 else 0)
    → Counts s r (answer ∷ answers)
step s t answers (value, measured) c tp fp tn fn = record {
  true_positive = ground (arith, c.true_positive, tp);
  false_positive = ground (arith, c.false_positive, fp);
  true_negative = ground (arith, c.true_negative, tn);
  false_negative = ground (arith, c.false_negative, fn);
}

add_all_from :
    (s : Score) (answers : List (Bool × Bool))
    → total s + length answers < size_mod
    → Counts s (add_all s answers) answers
unfolding add_all total add cnt_add add_true_positive add_true_negative add_false_positive
    add_false_negative
add_all_from s [] small = record {
  true_positive = omega arith;
  false_positive = omega arith;
  true_negative = omega arith;
  false_negative = omega arith;
}
add_all_from s ((true, true) ∷ answers) small =
    let c : Counts (add s true true) (add_all (add s true true) answers) answers =
      add_all_from (add s true true) answers (omega arith) in
    step s (add s true true) answers (true, true) c (omega arith) (omega arith) (omega arith)
      (omega arith)
add_all_from s ((true, false) ∷ answers) small =
    let c : Counts (add s true false) (add_all (add s true false) answers) answers =
      add_all_from (add s true false) answers (omega arith) in
    step s (add s true false) answers (true, false) c (omega arith) (omega arith) (omega arith)
      (omega arith)
add_all_from s ((false, true) ∷ answers) small =
    let c : Counts (add s false true) (add_all (add s false true) answers) answers =
      add_all_from (add s false true) answers (omega arith) in
    step s (add s false true) answers (false, true) c (omega arith) (omega arith) (omega arith)
      (omega arith)
add_all_from s ((false, false) ∷ answers) small =
    let c : Counts (add s false false) (add_all (add s false false) answers) answers =
      add_all_from (add s false false) answers (omega arith) in
    step s (add s false false) answers (false, false) c (omega arith) (omega arith) (omega arith)
      (omega arith)

-- After any answers, fewer than 2^64 in number, from a new score: each of the four counts is the
-- number of the answers of its kind.
add_all-Counts :
    (answers : List (Bool × Bool))
    → length answers < size_mod
    → Counts score (add_all score answers) answers
unfolding total
add_all-Counts answers small = add_all_from score answers (omega arith)

-- One answer.
pub add-Counts :
    (s : Score) (value measured : Bool)
    → s.m_true_positive + s.m_false_positive + s.m_true_negative + s.m_false_negative + 1 < size_mod
    → Counts s (add s value measured) ((value, measured) ∷ [])
unfolding add_all total
add-Counts s value measured small = add_all_from s ((value, measured) ∷ []) (omega (arith, small))
