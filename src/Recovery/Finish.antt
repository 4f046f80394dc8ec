-- ===== src/Recovery/Finish.antt =====
-- The end of a recovery in which no read fails.
use wookie.Base.{
  List-cases, ℕ, suc, ◌+◌, ◌≤◌, ◌<◌, ◌≡◌, sym, ap, subst, inl, inr, true, false, some, List, [],
  ◌∷◌, ◌++◌, arith, if◌then◌else◌, length, Str, nat_ord, contains, length-append, ltb,
}
use wookie.Recovery.{
  Awaited, RecoveryHandler, reading, pushing, erase_processor, process_next, on_read, on_pushed,
  process_all, connections, handler, on_request, Step, read, pushed, Reach, here, next,
}
use wookie.Recovery.Sound.{IsSound, takes, leaves, closes, fewer, known_now}
use wookie.Recovery.Progress.{on_request-IsSound, length-connections}
use wookie.Recovery.Stalled.{length-erase_processor}

-- No read failed.
abbrev pub ReadOk : {s t : RecoveryHandler} → Step s t → Type 0
ReadOk (read before p url behind failed h) = failed ≡ false
ReadOk (pushed before p url behind failed h) = Unit

abbrev pub ReadsOk : {s t : RecoveryHandler} → Reach s t → Type 0
ReadsOk here = Unit
ReadsOk (next r step) = ReadsOk r × ReadOk step

-- Every connection that is registered waits for a callback, and every url is written, awaited or left.
abbrev Full : ℕ → RecoveryHandler → Type 0
Full urls s =
    (length s.awaited ≡ length s.processors)
    × (length s.written + length s.awaited + length s.urls ≡ urls)

process_next-Full :
    (urls : ℕ) (s : RecoveryHandler) (p : ℕ)
    → suc (length s.awaited) ≡ length s.processors
    → length s.written + length s.awaited + length s.urls ≡ urls
    → contains p s.processors ≡ true
    → Full urls (process_next s p)
process_next-Full urls s p one_idle total known =
    let shorter = length-erase_processor p s.processors known in
    elim (List-cases s.urls) [
      | inr (url, rest, h) ↦ subst (Full urls) (sym (takes s p h)) (omega (arith, ap length h))
      | inl h ↦ elim (List-cases (erase_processor p s.processors)) [
        | inl e ↦ subst (Full urls) (sym (closes s p h e)) (omega (arith, shorter, ap length e))
        | inr (q, qs, e) ↦
            subst (Full urls) (sym (leaves s p h e)) (omega (arith, shorter, ap length e))
      ]
    ]

Step-Full :
    {n urls : ℕ} {s t : RecoveryHandler} (step : Step s t)
    → ReadOk step
    → IsSound n urls s
    → Full urls s
    → Full urls t
unfolding on_read on_pushed
Step-Full (read before p url behind true h) good v full = cc good
Step-Full {s = s} (read before p url behind false h) good v full =
    let b : Awaited = record { processor = p; url = url; phase = pushing } in
    let a : Awaited = record { processor = p; url = url; phase = reading } in
    omega (
      arith,
      full,
      ap length h,
      length-append before (b ∷ behind),
      length-append before (a ∷ behind),
    )
Step-Full {urls = urls} {s = s} (pushed before p url behind failed h) good v full =
    let a : Awaited = record { processor = p; url = url; phase = pushing } in
    let byte : List ℕ = (if failed then b'f' else b's') ∷ [] in
    let gone = fewer s a before behind v h in
    process_next-Full urls (record s { awaited = before ++ behind; written = s.written ++ byte }) p
      (omega (arith, full, gone)) (omega (arith, full, gone, length-append s.written byte))
      (known_now s a before behind v h)

process_all-Full :
    (urls : ℕ) (s : RecoveryHandler) (ps : List ℕ)
    → length s.awaited + length ps ≡ length s.processors
    → length s.written + length s.awaited + length s.urls ≡ urls
    → length ps ≤ length s.urls
    → Full urls (process_all s ps)
unfolding process_all
process_all-Full urls s [] idle total enough = omega arith
process_all-Full urls s (p ∷ ps) idle total enough = elim (List-cases s.urls) [
  | inl none_left ↦ absurd (ground (arith, none_left, enough))
  | inr (url, rest, h) ↦
      let t : RecoveryHandler = record s {
        urls = rest;
        awaited = record { processor = p; url = url; phase = reading } ∷ s.awaited;
      } in
      subst (λ t. Full urls (process_all t ps)) (sym (takes s p h))
        (process_all-Full urls t ps (omega arith) (omega (arith, ap length h))
          (omega (arith, ap length h)))
]

module _ (name : Str) (n : ℕ) (urls : List Str) (some_connection : 0 < n)
    (enough : n ≤ length urls) where
  Reach-Full :
      {s : RecoveryHandler} (r : Reach (on_request (some name) (some n) true (some urls)) s)
      → ReadsOk r
      → Full (length urls) s
  unfolding on_request
  Reach-Full here good =
      let positive : ltb n 1 ≡ false = ground arith in
      rw positive (
        process_all-Full (length urls)
          (record handler {
            processors = connections n;
            urls = urls;
            headers = some (200, length urls);
          })
          (connections n) (omega (arith, length-connections n)) (omega arith)
          (omega (arith, length-connections n)))
  Reach-Full (next r step) good =
      Step-Full step good.1 (on_request-IsSound name n urls some_connection enough r)
        (Reach-Full r good.0)

-- From a request for at least one connection and at most as many as urls are found: when no read has
-- failed and no callback is awaited any more, whatever the answers of the pushes and in whatever
-- order, the response is closed, once, no url is left, and one byte was written for every url.
pub closed-on_request :
    (name : Str) (n : ℕ) (urls : List Str)
    → 0 < n
    → n ≤ length urls
    → {s : RecoveryHandler} (r : Reach (on_request (some name) (some n) true (some urls)) s)
    → ReadsOk r
    → s.awaited ≡ []
    → (s.closed ≡ 1) × (s.urls ≡ []) × (length s.written ≡ length urls)
closed-on_request name n urls some_connection enough {s} r good finished =
    let v = on_request-IsSound name n urls some_connection enough r in
    let full = Reach-Full name n urls some_connection enough r good in
    let nobody : s.processors ≡ [] = ground (arith, full.0, finished, List-cases s.processors) in
    let none_left : s.urls ≡ [] = ground (arith, nobody, v.leaving) in
    (
      ground (arith, v.closing, nobody),
      none_left,
      omega (arith, full.1, ap length finished, ap length none_left),
    )
