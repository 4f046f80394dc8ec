-- ===== src/Recovery/Stalled.antt =====
-- What a failed read does to the rest of a recovery.
use wookie.Base.{
  List-cases, ℕ, suc, ◌+◌, ◌≤◌, ◌<◌, ◌≡◌, sym, subst, inl, inr, true, false, some, List, [], ◌∷◌,
  ◌++◌, arith, if◌then◌else◌, length, Str, nat_ord, same_iff, contains, length-append, ltb,
}
use wookie.Recovery.{
  Awaited, RecoveryHandler, reading, pushing, erase_processor, process_next, on_read, on_pushed,
  process_all, connections, handler, on_request, Step, read, pushed, Reach, here, next,
}
use wookie.Recovery.Sound.{IsSound, takes, leaves, closes, fewer, known_now, Step-IsSound}
use wookie.Recovery.Progress.{on_request-IsSound, length-connections}

-- At least `d` connections are registered for which no callback is awaited.
abbrev Room : ℕ → RecoveryHandler → Type 0
Room d s = length s.awaited + d ≤ length s.processors

pub length-erase_processor :
    (p : ℕ) (ps : List ℕ) → contains p ps ≡ true → suc (length (erase_processor p ps)) ≡ length ps
length-erase_processor p [] h = cc
length-erase_processor p (q ∷ ps) h = ground (arith, h, length-erase_processor p ps, same_iff p q)

process_next-Room :
    (d : ℕ) (s : RecoveryHandler) (p : ℕ)
    → Room (suc d) s
    → contains p s.processors ≡ true
    → Room d (process_next s p)
process_next-Room d s p room known =
    let shorter = length-erase_processor p s.processors known in
    elim (List-cases s.urls) [
      | inr (url, rest, h) ↦ subst (Room d) (sym (takes s p h)) (omega arith)
      | inl h ↦ elim (List-cases (erase_processor p s.processors)) [
        | inl e ↦ subst (Room d) (sym (closes s p h e)) (ground (arith, shorter, e, room))
        | inr (q, qs, e) ↦ subst (Room d) (sym (leaves s p h e)) (ground (arith, shorter, e, room))
      ]
    ]

Step-Room :
    {n urls : ℕ} {s t : RecoveryHandler} (d : ℕ) → Step s t → IsSound n urls s → Room d s → Room d t
unfolding on_read on_pushed
Step-Room {s = s} d (read before p url behind true h) v room =
    ground (
      arith,
      room,
      fewer s (record { processor = p; url = url; phase = reading }) before behind v h,
    )
Step-Room {s = s} d (read before p url behind false h) v room =
    let a : Awaited = record { processor = p; url = url; phase = reading } in
    let b : Awaited = record { processor = p; url = url; phase = pushing } in
    ground (
      arith,
      room,
      fewer s a before behind v h,
      length-append before (b ∷ behind),
      length-append before behind,
    )
Step-Room {s = s} d (pushed before p url behind failed h) v room =
    let a : Awaited = record { processor = p; url = url; phase = pushing } in
    process_next-Room d
      (record s {
        awaited = before ++ behind;
        written = s.written ++ (if failed then b'f' else b's') ∷ [];
      })
      p (ground (arith, room, fewer s a before behind v h)) (known_now s a before behind v h)

process_all-Room :
    (s : RecoveryHandler) (ps : List ℕ)
    → Room (length ps) s
    → length ps ≤ length s.urls
    → Room 0 (process_all s ps)
unfolding process_all
process_all-Room s [] room enough = room
process_all-Room s (p ∷ ps) room enough = elim (List-cases s.urls) [
  | inl none_left ↦ absurd (ground (arith, none_left, enough))
  | inr (url, rest, h) ↦
      subst (λ t. Room 0 (process_all t ps)) (sym (takes s p h))
        (process_all-Room
          (record s {
            urls = rest;
            awaited = record { processor = p; url = url; phase = reading } ∷ s.awaited;
          })
          ps (omega arith) (ground (arith, enough, h)))
]

module _ (name : Str) (n : ℕ) (urls : List Str) (some_connection : 0 < n)
    (enough : n ≤ length urls) where
  Reach-Room :
      {s : RecoveryHandler} → Reach (on_request (some name) (some n) true (some urls)) s → Room 0 s
  unfolding on_request
  Reach-Room here =
      let positive : ltb n 1 ≡ false = ground arith in
      rw positive (
        process_all-Room
          (record handler {
            processors = connections n;
            urls = urls;
            headers = some (200, length urls);
          })
          (connections n) (omega arith) (ground (arith, enough, length-connections n)))
  Reach-Room (next r step) =
      Step-Room 0 step (on_request-IsSound name n urls some_connection enough r) (Reach-Room r)

  after_failure :
      {s t : RecoveryHandler}
      → IsSound n (length urls) s
      → Room 1 s
      → Reach s t
      → IsSound n (length urls) t × Room 1 t
  after_failure v room here = (v, room)
  after_failure v room (next r step) =
      let (w, more) = after_failure v room r in (Step-IsSound step w, Step-Room 1 step w more)

-- From a request for at least one connection and at most as many as urls are found: once a read has
-- failed, the response stays open, whatever answers come and in whatever order.
pub closed-failed_read :
    (name : Str) (n : ℕ) (urls : List Str)
    → 0 < n
    → n ≤ length urls
    → {s t : RecoveryHandler} → Reach (on_request (some name) (some n) true (some urls)) s
    → (before : List Awaited) (p : ℕ) (url : Str) (behind : List Awaited)
    → s.awaited ≡ before ++ record { processor = p; url = url; phase = reading } ∷ behind
    → Reach (on_read s before p url behind true) t
    → t.closed ≡ 0
unfolding on_read
closed-failed_read name n urls some_connection enough {s} {t} r before p url behind h later =
    let v = on_request-IsSound name n urls some_connection enough r in
    let a : Awaited = record { processor = p; url = url; phase = reading } in
    let (w, room) =
      after_failure name n urls some_connection enough
        (Step-IsSound (read before p url behind true h) v)
        (ground
          (arith, Reach-Room name n urls some_connection enough r, fewer s a before behind v h))
        later in
    ground (arith, w.closing, room, List-cases t.processors)
