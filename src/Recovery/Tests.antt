-- ===== src/Recovery/Tests.antt =====
-- A recovery of one url over one connection.
use wookie.Base.{◌≡◌, ◌≤◌, length, refl, true, false, some, [], ◌∷◌, Str, arith}
use wookie.Recovery.{
  Awaited, RecoveryHandler, Reach, reading, process_next, process_all, on_read, on_pushed, pushed,
  on_request, read, here, next,
}
use wookie.Recovery.Sound.{IsSound}
use wookie.Recovery.Progress.{on_request-IsSound}
use wookie.Recovery.Work.{steps, steps-on_request}
use wookie.Recovery.Finish.{ReadsOk, closed-on_request}
use wookie.Recovery.Stalled.{closed-failed_read}

abbrev url : Str
url = b'u' ∷ []

abbrev first : Awaited
first = record { processor = 0; url = url; phase = reading }

abbrev started : RecoveryHandler
started = on_request (some []) (some 1) true (some (url ∷ []))

awaits_first : started.awaited ≡ first ∷ []
unfolding on_request process_all process_next
awaits_first = refl

on_request-IsSound_example : IsSound 1 1 (on_read started [] 0 url [] false)
on_request-IsSound_example =
    on_request-IsSound [] 1 (url ∷ []) (omega arith) (omega arith)
      (next here (read [] 0 url [] false awaits_first))

closed-failed_read_example : (on_read started [] 0 url [] true).closed ≡ 0
closed-failed_read_example =
    closed-failed_read [] 1 (url ∷ []) (omega arith) (omega arith) here [] 0 url [] awaits_first
      here

whole : Reach started (on_pushed (on_read started [] 0 url [] false) [] 0 [] false)
unfolding on_read
whole = next (next here (read [] 0 url [] false awaits_first)) (pushed [] 0 url [] false refl)

steps-on_request_example : steps whole ≤ 2
steps-on_request_example = steps-on_request [] 1 (url ∷ []) (omega arith) (omega arith) whole

abbrev last : RecoveryHandler
last = on_pushed (on_read started [] 0 url [] false) [] 0 [] false

all_read : ReadsOk whole
unfolding whole
all_read = ((tt, refl), tt)

none_awaited : last.awaited ≡ []
unfolding on_request process_all process_next on_read on_pushed
none_awaited = refl

closed-on_request_example : (last.closed ≡ 1) × (last.urls ≡ []) × (length last.written ≡ 1)
closed-on_request_example =
    closed-on_request [] 1 (url ∷ []) (omega arith) (omega arith) whole all_read none_awaited
