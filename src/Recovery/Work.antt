-- ===== src/Recovery/Work.antt =====
-- The callbacks that a recovery still needs.
use wookie.Base.{
  List-cases, ℕ, zero, suc, ◌+◌, ◌*◌, ◌≤◌, ◌<◌, ◌≡◌, sym, ap, subst, inl, inr, true, false, some,
  List, [], ◌∷◌, ◌++◌, arith, if◌then◌else◌, length, Str, nat_ord, ltb,
}
use wookie.Recovery.{
  Awaited, RecoveryHandler, Phase, reading, pushing, erase_processor, process_next, on_read,
  on_pushed, process_all, connections, handler, on_request, Step, read, pushed, Reach, here, next,
}
use wookie.Recovery.Sound.{takes, leaves, closes}

-- The callbacks that a url still needs, at most: one for its read, one for its push.
abbrev weight : Phase → ℕ
weight reading = 2
weight pushing = 1

abbrev weights : List Awaited → ℕ
weights [] = 0
weights (a ∷ awaited) = weight a.phase + weights awaited

abbrev pub work : RecoveryHandler → ℕ
work s = 2 * length s.urls + weights s.awaited

weights-append : (xs ys : List Awaited) → weights (xs ++ ys) ≡ weights xs + weights ys
weights-append [] ys = omega arith
weights-append (x ∷ xs) ys = omega (arith, weights-append xs ys)

work-process_next : (s : RecoveryHandler) (p : ℕ) → work (process_next s p) ≤ work s
work-process_next s p = elim (List-cases s.urls) [
  | inr (url, rest, h) ↦
      subst (λ t. work t ≤ work s) (sym (takes s p h)) (omega (arith, ap length h))
  | inl h ↦ elim (List-cases (erase_processor p s.processors)) [
    | inl e ↦ subst (λ t. work t ≤ work s) (sym (closes s p h e)) (omega arith)
    | inr (q, qs, e) ↦ subst (λ t. work t ≤ work s) (sym (leaves s p h e)) (omega arith)
  ]
]

Step-work : {s t : RecoveryHandler} → Step s t → work t < work s
unfolding on_read on_pushed
Step-work {s} (read before p url behind true h) = omega (
  arith,
  ap weights h,
  weights-append before (record { processor = p; url = url; phase = reading } ∷ behind),
  weights-append before behind,
)
Step-work {s} (read before p url behind false h) = omega (
  arith,
  ap weights h,
  weights-append before (record { processor = p; url = url; phase = reading } ∷ behind),
  weights-append before (record { processor = p; url = url; phase = pushing } ∷ behind),
)
Step-work {s} (pushed before p url behind failed h) = omega (
  arith,
  ap weights h,
  weights-append before (record { processor = p; url = url; phase = pushing } ∷ behind),
  weights-append before behind,
  work-process_next
      (record s {
        awaited = before ++ behind;
        written = s.written ++ (if failed then b'f' else b's') ∷ [];
      })
      p,
)

-- The number of callbacks that have run.
abbrev pub steps : {s t : RecoveryHandler} → Reach s t → ℕ
steps here = 0
steps (next r step) = steps r + 1

steps-Reach : {s t : RecoveryHandler} (r : Reach s t) → steps r + work t ≤ work s
steps-Reach here = omega arith
steps-Reach (next r step) = omega (arith, steps-Reach r, Step-work step)

work-process_all : (s : RecoveryHandler) (ps : List ℕ) → work (process_all s ps) ≤ work s
unfolding process_all
work-process_all s [] = omega arith
work-process_all s (p ∷ ps) =
    omega (arith, work-process_all (process_next s p) ps, work-process_next s p)

started_work :
    (name : Str) (n : ℕ) (urls : List Str)
    → work (on_request (some name) (some n) true (some urls)) ≤ 2 * length urls
unfolding on_request
started_work name zero urls = omega arith
started_work name (suc n) urls =
    let positive : ltb (suc n) 1 ≡ false = ground arith in
    rw positive (
      omega (
        arith,
        work-process_all
            (record handler {
              processors = connections (suc n);
              urls = urls;
              headers = some (200, length urls);
            })
            (connections (suc n)),
      ))

-- From a request for at least one connection and at most as many as urls are found, whatever the
-- answers and their order, at most two callbacks run for each url.
pub steps-on_request :
    (name : Str) (n : ℕ) (urls : List Str)
    → 0 < n
    → n ≤ length urls
    → {s : RecoveryHandler} (r : Reach (on_request (some name) (some n) true (some urls)) s)
    → steps r ≤ 2 * length urls
steps-on_request name n urls some_connection enough r =
    omega (arith, steps-Reach r, started_work name n urls)
