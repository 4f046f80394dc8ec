-- ===== src/Score.antt =====
-- include/wookie/score.hpp: counts of right and wrong answers, and the scores made of them. The
-- floating-point numbers are a parameter.
pub mod Counts
use wookie.Base.{ℕ, ◌+◌, ◌%◌, Bool, not, if◌then◌else◌, ℤ, pos}
use wookie.TfIdf.{Double, size_mod, size_of_int, add_size}

-- `cnt` is its `value`, a `size_t`.
pub record Score : Type 0 where
  pub m_true_positive : ℕ
  pub m_false_positive : ℕ
  pub m_true_negative : ℕ
  pub m_false_negative : ℕ

abbrev pub score : Score
score = record {
  m_true_positive = 0;
  m_false_positive = 0;
  m_true_negative = 0;
  m_false_negative = 0;
}

-- `cnt::add`, of an `ssize_t`.
pub cnt_add : ℕ → ℤ → ℕ
cnt_add value num = add_size value (size_of_int num)

pub add_true_positive : Score → ℤ → Score
unfolding cnt_add
add_true_positive s num = record s { m_true_positive = cnt_add s.m_true_positive num }

pub add_true_negative : Score → ℤ → Score
unfolding cnt_add
add_true_negative s num = record s { m_true_negative = cnt_add s.m_true_negative num }

pub add_false_positive : Score → ℤ → Score
unfolding cnt_add
add_false_positive s num = record s { m_false_positive = cnt_add s.m_false_positive num }

pub add_false_negative : Score → ℤ → Score
unfolding cnt_add
add_false_negative s num = record s { m_false_negative = cnt_add s.m_false_negative num }

-- `score::add`.
pub add : Score → Bool → Bool → Score
unfolding add_true_positive add_true_negative add_false_positive add_false_negative
add s value_positive measured_positive =
    if measured_positive
    then if value_positive then add_true_positive s (pos 1) else add_false_positive s (pos 1)
    else if not value_positive
    then add_true_negative s (pos 1)
    else add_false_negative s (pos 1)

module _ (d : Double) where
  open d use {D, of_size, mul, div}

  pub precision : Score → D
  precision s =
      div (of_size s.m_true_positive)
        (of_size ((s.m_true_positive + s.m_false_positive) % size_mod))

  pub recall : Score → D
  recall s =
      div (of_size s.m_true_positive)
        (of_size ((s.m_true_positive + s.m_false_negative) % size_mod))

  pub f1 : Score → D
  unfolding precision recall
  f1 s = div (mul (mul (of_size 2) (precision s)) (recall s)) (d.add (precision s) (recall s))
