-- ===== src/Timer.antt =====
-- include/wookie/timer.hpp: milliseconds since the last restart. What the clock shows is an argument,
-- and `since` is the difference of two of its times in milliseconds.
use wookie.Base.{zero, suc, ◌≢◌, ℤ, pos, negsuc, arith}

module _ {TimePoint : Type 0} (since : TimePoint → TimePoint → ℤ) where
  -- A timer is its `m_last_time`.
  abbrev pub at_least_one : ℤ → ℤ
  at_least_one (pos zero) = pos 1
  at_least_one (pos (suc n)) = pos (suc n)
  at_least_one (negsuc n) = negsuc n

  pub elapsed : TimePoint → TimePoint → ℤ
  elapsed m_last_time now = at_least_one (since now m_last_time)

  pub restart : TimePoint → TimePoint → TimePoint × ℤ
  restart m_last_time now = (now, at_least_one (since now m_last_time))

  at_least_one-nonzero : (t : ℤ) → at_least_one t ≢ pos 0
  at_least_one-nonzero (pos zero) h = ground (arith, h)
  at_least_one-nonzero (pos (suc n)) h = ground (arith, h)
  at_least_one-nonzero (negsuc n) h = cc

  -- No time is ever zero.
  elapsed-nonzero : (m_last_time now : TimePoint) → elapsed m_last_time now ≢ pos 0
  unfolding elapsed
  elapsed-nonzero m_last_time now = at_least_one-nonzero (since now m_last_time)
