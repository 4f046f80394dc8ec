-- ===== src/Engine/Threads.antt =====
-- The handlers of several downloader threads, interleaved. A handler gives way between its calls of
-- `inflight_insert` and `inflight_erase`, which hold the lock of the map in flight, and around its
-- wait for the page cache; what lies between is one move.
pub mod Claims
pub mod Outcomes
pub mod Moves
pub mod Exclusive
pub mod Run
use wookie.Base.{
  ℕ, zero, suc, ◌==◌, none, some, List, [], ◌∷◌, if◌then◌else◌, Str, nat_ord, str_ord, sort_unique,
  ok, err, Error, Option, Result,
}
use wookie.Documents.{Time, Document}
use wookie.Engine.{Response, EngineData, not_modified, document_new, download}
use wookie.Engine.Inflight.{inflight_insert, inflight_erase, new_document}
use wookie.Engine.Reply.{
  Outside, accepted, parsed, run_processors, store_reply, link_url, cached_link,
}

-- Where a thread stands, with the local variables that are live there: it waits for a reply, begins
-- `process_reply`, is at the head of the loop over the links, or waits for the page cache.
pub data Pc (Url : Type 0) : Type 0 where
  idle : Pc Url
  replied : Response Url → Str → Pc Url
  looping : Response Url → Str → List Str → Pc Url
  reading : Response Url → Str → Url → List Str → Pc Url

-- After a move: the engine, where the thread stands, the urls whose download has started, and what
-- was thrown.
pub record Moved (Url : Type 0) : Type 0 where
  pub engine : EngineData Url
  pub pc : Pc Url
  pub started : List Str
  pub thrown : Option Error

module _ {Url : Type 0} (out : Outside Url) where
  open out use {net, Data, read_data, unpack_document, time_before, now}
  open net use {to_string}

  -- Where a thread stands when the parsers have run: an exception ends the handler.
  abbrev pub after_parsers : Response Url → Str → Result (List Str) → Pc Url
  after_parsers reply body (err e) = idle
  after_parsers reply body (ok urls) = looping reply body (sort_unique urls)

  abbrev pub error_of : Result (List Str) → Option Error
  error_of (err e) = some e
  error_of (ok urls) = none

  -- One move of a thread. `cached_link` is `found_in_page_cache` and the processors behind it.
  unfoldable pub move : EngineData Url → Pc Url → Moved Url
  unfolding inflight_insert
  move s idle = record { engine = s; pc = idle; started = []; thrown = none }
  move s (replied reply body) =
      let stored = store_reply out s reply body in
      if accepted s.filters reply body
      then record {
        engine =
            if reply.code == not_modified
            then stored
            else run_processors stored.processors reply body document_new stored;
        pc = after_parsers reply body (parsed s.parsers reply body);
        started = [];
        thrown = error_of (parsed s.parsers reply body);
      }
      else record {
        engine = run_processors stored.fallback_processors reply body document_new stored;
        pc = idle;
        started = [];
        thrown = none;
      }
  move s (looping reply body []) = record { engine = s; pc = idle; started = []; thrown = none }
  move s (looping reply body (link ∷ links)) = elim (link_url out s reply link) [
    | none ↦ record { engine = s; pc = looping reply body links; started = []; thrown = none }
    | some request_url ↦
        let (s', fresh) = inflight_insert net s request_url (new_document net now) in
        if fresh
        then record {
          engine = s';
          pc = reading reply body request_url links;
          started = [];
          thrown = none;
        }
        else record { engine = s; pc = looping reply body links; started = []; thrown = none }
  ]
  move s (reading reply body request_url links) = elim (read_data (to_string request_url)) [
    | err e ↦ record {
      engine = download s request_url;
      pc = looping reply body links;
      started = to_string request_url ∷ [];
      thrown = none;
    }
    | ok bytes ↦ elim (unpack_document bytes) [
      | err e ↦ record { engine = s; pc = idle; started = []; thrown = some e }
      | ok doc ↦ record {
        engine = cached_link out s reply body request_url doc;
        pc = looping reply body links;
        started = if time_before doc.ts s.generation_time then to_string request_url ∷ [] else [];
        thrown = none;
      }
    ]
  ]

-- The engine, the strings of the urls whose download a link started and whose reply has not come,
-- and the threads.
pub record Threads (Url : Type 0) : Type 0 where
  pub engine : EngineData Url
  pub pending : List Str
  pub workers : List (Pc Url)
