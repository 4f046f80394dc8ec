-- ===== src/Recovery/Progress.antt =====
-- What holds at every time of a recovery.
use wookie.Base.{
  ℕ, zero, suc, ◌≤◌, ◌<◌, ◌≡◌, refl, sym, subst, inl, inr, true, false, some, List, [], ◌∷◌, arith,
  length, Str, nat_ord, str_ord, same_iff, contains, Distinct, ltb, All, List-cases,
}
use wookie.Recovery.{
  RecoveryHandler, reading, process_all, connections, handler, on_request, Reach, here, next,
}
use wookie.Recovery.Sound.{busy, IsSound, takes, process_next-IsSound, Step-IsSound}

still_idle :
    (p : ℕ) (ps : List ℕ) (waiting : List ℕ)
    → contains p ps ≡ false
    → All (λ q. contains q waiting ≡ false) ps
    → All (λ q. contains q (p ∷ waiting) ≡ false) ps
still_idle p [] waiting h a = tt
still_idle p (q ∷ ps) waiting h a = (
  ground (arith, h, a.0, same_iff p q, same_iff q p),
  still_idle p ps waiting (ground (arith, h)) a.1,
)

process_all-IsSound :
    {n urls : ℕ} (s : RecoveryHandler) (ps : List ℕ)
    → IsSound n urls s
    → Distinct ps
    → All (λ p. contains p (busy s.awaited) ≡ false) ps
    → All (λ p. contains p s.processors ≡ true) ps
    → length ps ≤ length s.urls
    → IsSound n urls (process_all s ps)
unfolding process_all
process_all-IsSound s [] v d idle known enough = v
process_all-IsSound {n} {urls} s (p ∷ ps) v d idle known enough = elim (List-cases s.urls) [
  | inl none_left ↦ absurd (ground (arith, none_left, enough))
  | inr (url, rest, h) ↦
      let t : RecoveryHandler = record s {
        urls = rest;
        awaited = record { processor = p; url = url; phase = reading } ∷ s.awaited;
      } in
      let e = takes s p h in
      subst (λ t. IsSound n urls (process_all t ps)) (sym e)
        (process_all-IsSound t ps
          (subst (IsSound n urls) e (process_next-IsSound s p v idle.0 known.0)) d.1
          (still_idle p ps (busy s.awaited) d.0 idle.1) known.1 (ground (arith, enough, h)))
]

connections_above : (n k : ℕ) → n ≤ k → contains k (connections n) ≡ false
connections_above zero k h = refl
connections_above (suc n) k h = ground (arith, connections_above n k (omega arith), same_iff k n)

connections-Distinct : (n : ℕ) → Distinct (connections n)
connections-Distinct zero = tt
connections-Distinct (suc n) = (connections_above n n (omega arith), connections-Distinct n)

pub length-connections : (n : ℕ) → length (connections n) ≡ n
length-connections zero = refl
length-connections (suc n) = ground (arith, length-connections n)

each_contained :
    (ps qs : List ℕ)
    → ((p : ℕ) → contains p ps ≡ true → contains p qs ≡ true)
    → All (λ p. contains p qs ≡ true) ps
each_contained [] qs h = tt
each_contained (p ∷ ps) qs h =
    (h p (ground (arith, same_iff p p)), each_contained ps qs λ q k. h q (ground (arith, k)))

none_busy : (ps : List ℕ) → All (λ p. contains p [] ≡ false) ps
none_busy [] = tt
none_busy (p ∷ ps) = (refl, none_busy ps)

pub started-IsSound :
    (name : Str) (n : ℕ) (urls : List Str)
    → 0 < n
    → n ≤ length urls
    → IsSound n (length urls) (on_request (some name) (some n) true (some urls))
unfolding on_request
started-IsSound name zero urls some_connection enough = absurd (omega arith)
started-IsSound name (suc n) urls some_connection enough =
    let positive : ltb (suc n) 1 ≡ false = ground arith in
    rw positive (
      process_all-IsSound
        (record handler {
          processors = connections (suc n);
          urls = urls;
          headers = some (200, length urls);
        })
        (connections (suc n))
        (record {
          once = tt;
          registered = λ p h. absurd (ground (arith, h));
          announced = refl;
          sent = omega arith;
          closing = refl;
          leaving = inl (length-connections (suc n));
        })
        (connections-Distinct (suc n)) (none_busy (connections (suc n)))
        (each_contained (connections (suc n)) (connections (suc n)) λ p h. h)
        (ground (arith, enough, length-connections n)))

-- From a request for at least one connection and at most as many as urls are found, through any
-- answers of the reads and pushes in any order: no connection waits for two callbacks, and all that
-- wait are registered; the header that was sent is 200 with the number of urls found as the length of
-- the body, and the bytes written, the callbacks awaited and the urls left are together never more
-- than that length; the response is closed exactly once if no
-- connection is left, and is open else; and a connection leaves only when no url is left.
pub on_request-IsSound :
    (name : Str) (n : ℕ) (urls : List Str)
    → 0 < n
    → n ≤ length urls
    → {s : RecoveryHandler} → Reach (on_request (some name) (some n) true (some urls)) s
    → IsSound n (length urls) s
on_request-IsSound name n urls some_connection enough here =
    started-IsSound name n urls some_connection enough
on_request-IsSound name n urls some_connection enough (next r step) =
    Step-IsSound step (on_request-IsSound name n urls some_connection enough r)
