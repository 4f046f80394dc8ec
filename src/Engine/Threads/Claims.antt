-- ===== src/Engine/Threads/Claims.antt =====
-- How often a url is being fetched: by a download whose reply has not come, or by a thread that has
-- entered it in the map in flight and waits for the page cache. Counts forget the order of threads.
use wookie.Base.{
  ℕ, ◌+◌, ◌-◌, ◌<◌, ◌≡◌, Bool, true, false, List, [], ◌∷◌, ◌++◌, arith, ◌==◌, if◌then◌else◌, Str,
  nat_ord, str_ord, str_eq, str_eq_iff, Result,
}
use wookie.Documents.{Time}
use wookie.Engine.{Response, not_modified}
use wookie.Engine.Inflight.{inflight_erase}
use wookie.Engine.Crawl.{remove, at}
use wookie.Engine.Reply.{Outside}
use wookie.Engine.Threads.{Pc, idle, replied, looping, reading, Moved, move, Threads}

abbrev pub times : Str → List Str → ℕ
times u [] = 0
times u (x ∷ xs) = (if str_eq u x then 1 else 0) + times u xs

pub times-append : (u : Str) (xs ys : List Str) → times u (xs ++ ys) ≡ times u xs + times u ys
times-append u [] ys = omega arith
times-append u (x ∷ xs) ys = omega (arith, times-append u xs ys)

pub times-remove :
    (k u : Str) (xs : List Str)
    → times k (remove u xs) ≡ (if str_eq k u then times k xs - 1 else times k xs)
times-remove k u [] = ground arith
times-remove k u (x ∷ xs) =
    ground (arith, times-remove k u xs, str_eq_iff k u, str_eq_iff k x, str_eq_iff u x)

module _ {Url : Type 0} (out : Outside Url) where
  open out use {net, Data}
  open net use {to_string}

  abbrev pub claim : Str → Pc Url → ℕ
  claim u idle = 0
  claim u (replied reply body) = 0
  claim u (looping reply body links) = 0
  claim u (reading reply body url links) = if str_eq u (to_string url) then 1 else 0

  abbrev pub claims : Str → List (Pc Url) → ℕ
  claims u [] = 0
  claims u (pc ∷ workers) = claim u pc + claims u workers

  pub claims-append :
      (u : Str) (xs ys : List (Pc Url)) → claims u (xs ++ ys) ≡ claims u xs + claims u ys
  claims-append u [] ys = omega arith
  claims-append u (x ∷ xs) ys = omega (arith, claims-append u xs ys)

  -- The fetches of a url that go on.
  abbrev pub fetching : Str → Threads Url → ℕ
  fetching u s = times u s.pending + claims u s.workers

  -- A reply to a download that a link started, if `linked`, or else to one that the application
  -- started, comes to an idle thread, which takes the url out of the map in flight.
  abbrev pub taken :
      Threads Url
      → List (Pc Url)
      → Time
      → Bool
      → Response Url
      → Str
      → Bool
      → List (Pc Url)
      → Threads Url
  taken s before now linked reply body failed behind =
      let (engine, old_doc) = inflight_erase net s.engine reply.request_url now in
      let text = if reply.code == not_modified then old_doc.body else body in
      record {
        engine = engine;
        pending = if linked then remove (to_string reply.request_url) s.pending else s.pending;
        workers = before ++ (if failed then idle else replied reply text) ∷ behind;
      }

  -- A thread makes a move.
  abbrev pub moved : Threads Url → List (Pc Url) → Moved Url → List (Pc Url) → Threads Url
  moved s before m behind = record {
    engine = m.engine;
    pending = s.pending ++ m.started;
    workers = before ++ m.pc ∷ behind;
  }

  -- Threads in any order, with other answers of the outside at every step. A reply is to a download
  -- that a link started and that is awaited, or to one that the application started itself with
  -- `engine.download`, for any url.
  pub data Step (s : Threads Url) : Threads Url → Type 0 where
    answer :
        (before behind : List (Pc Url)) (now : Time) (reply : Response Url) (body : Str)
        (failed : Bool)
        → s.workers ≡ before ++ idle ∷ behind
        → 0 < times (to_string reply.request_url) s.pending
        → Step s (taken s before now true reply body failed behind)
    answer_root :
        (before behind : List (Pc Url)) (now : Time) (reply : Response Url) (body : Str)
        (failed : Bool)
        → s.workers ≡ before ++ idle ∷ behind
        → Step s (taken s before now false reply body failed behind)
    turn :
        (before : List (Pc Url)) (pc : Pc Url) (behind : List (Pc Url)) (read : Str → Result Data)
        (now : Time)
        → s.workers ≡ before ++ pc ∷ behind
        → Step s (moved s before (move (at out read now) s.engine pc) behind)

  pub data Reach (s : Threads Url) : Threads Url → Type 0 where
    here : Reach s s
    next : {t r : Threads Url} → Reach s t → Step t r → Reach s r

  -- Whenever the application has a reply of its own, that url is not being fetched for a link.
  abbrev pub ApartStep : {s t : Threads Url} → Step s t → Type 0
  ApartStep (answer before behind now reply body failed h awaited) = Unit {0}
  ApartStep {s} (answer_root before behind now reply body failed h) =
      fetching (to_string reply.request_url) s ≡ 0
  ApartStep (turn before pc behind read now h) = Unit {0}

  abbrev pub Apart : {s t : Threads Url} → Reach s t → Type 0
  Apart here = Unit {0}
  Apart (next r step) = Apart r × ApartStep step
