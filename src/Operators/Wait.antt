-- ===== src/Operators/Wait.antt =====
-- The two constructors of `find_result`, `on_wait_completion`, and the class `operators`.
use wookie.Base.{
  ◌≡◌, ◌↔◌, Bool, true, false, Option, none, some, List, [], if◌then◌else◌, Str, Error, Result, ok,
  err, Result-cases, arith, inl, inr,
}
use wookie.MsgPack.{Codec}
use wookie.Split.{Locale}
use wookie.Storage.{RawId, Session, Elliptics, create_session, transform_tokens}
use wookie.Operators.Find.{find_request, on_result_ready, find}

-- `m_ready` and `m_error`.
pub record Waiting : Type 0 where
  pub m_ready : Bool
  pub m_error : Option Error

pub on_wait_completion : Option Error → Waiting → Waiting
on_wait_completion error s = record { m_ready = true; m_error = error }

-- The loop that waits, and `throw_error`; none if it waits for ever.
pub wait : {A : Type 0} → Waiting → A → Option (Result A)
wait s results =
    if s.m_ready then some (elim s.m_error [ none ↦ ok results | some e ↦ err e ]) else none

module _ (c : Codec) (e : Elliptics c.Data) (loc : Locale) (st : Session) where
  -- The constructor without callback, with `results_array` after it, which is also `operators::find`
  -- without callback. An exception of `find` leaves the constructor; one of `on_result_ready` leaves
  -- the thread of elliptics that runs it, and the completion is never called.
  unfoldable pub find_result : Str → e.World → Option (Result (List RawId))
  unfolding find_request on_result_ready on_wait_completion wait
  find_result text w =
      let waiting : Waiting = record { m_ready = false; m_error = none } in
      elim (find_request c e loc st text) [
        | err thrown ↦ some (err thrown)
        | ok request ↦
            elim (on_result_ready c request.quotes (
              e.find_all_indexes (create_session st) (transform_tokens c e st request.str_indexes)
                w)) [
                  | err thrown ↦ wait waiting []
                  | ok (ids, error) ↦ wait (on_wait_completion error waiting) ids
                ]
      ]

  -- The search that waits returns what the search with a callback hands to it without an error.
  find_result-find :
      (text : Str) (w : e.World) (ids : List RawId)
      → (find_result text w ≡ some (ok ids)) ↔ (find c e loc st text w ≡ ok (ids, none))
  unfolding find_result find on_wait_completion wait
  find_result-find text w ids = elim (Result-cases (find_request c e loc st text)) [
    | inr (thrown, h) ↦ ground (arith, h)
    | inl (request, h) ↦ ground (arith, h)
  ]
