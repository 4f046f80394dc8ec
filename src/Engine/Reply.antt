-- ===== src/Engine/Reply.antt =====
-- `engine_data::process_reply` and `engine_data::process_url`.
pub mod Feeds
pub mod Downloads
pub mod Logs
pub mod Branches
pub mod Cache
use wookie.Base.{
  ◌>>=◌, ℕ, ◌+◌, Bool, true, false, not, ◌&&◌, ◌||◌, Option, none, some, List, [], ◌∷◌, ◌++◌, ◌==◌,
  if◌then◌else◌, Str, nat_ord, str_ord, str_eq, sort_unique, Error, Result, ok, err,
}
use wookie.Documents.{Time, Document}
use wookie.Engine.{
  UrlOps, Response, not_modified, DocumentType, document_cache, document_new, EngineData, Event,
  feed, write, process, emit, download,
}
use wookie.Engine.Inflight.{inflight_insert, inflight_erase, new_document, found_in_page_cache}

-- What the handlers ask the outside for: urls, the answer of the storage to the read of a key (an
-- error code, or the bytes, whose unpacking may throw), the order of times and the clock.
pub record Outside (Url : Type 0) : Type 1 where
  pub net : UrlOps Url
  pub Data : Type 0
  pub read_data : Str → Result Data
  pub unpack_document : Data → Result Document
  pub time_before : Time → Time → Bool
  pub now : Time

abbrev pub http : Str
http = b'h' ∷ b't' ∷ b't' ∷ b'p' ∷ []

abbrev pub https : Str
https = b'h' ∷ b't' ∷ b't' ∷ b'p' ∷ b's' ∷ []

module _ {Url : Type 0} where
  -- The loop over the filters, which stops at the first that refuses.
  abbrev pub accepted : List (Response Url → Str → Bool) → Response Url → Str → Bool
  accepted [] reply body = true
  accepted (f ∷ fs) reply body =
      let rest = accepted fs reply body in if f reply body then rest else false

  abbrev pub accepted_url : List (Response Url → Url → Bool) → Response Url → Url → Bool
  accepted_url [] reply url = true
  accepted_url (f ∷ fs) reply url =
      let rest = accepted_url fs reply url in if f reply url then rest else false

  unfoldable pub run_processors :
      List ℕ → Response Url → Str → DocumentType → EngineData Url → EngineData Url
  run_processors [] reply body type s = s
  run_processors (p ∷ ps) reply body type s =
      run_processors ps reply body type (emit s (process p reply body type))

  -- The loop over the parsers.
  abbrev pub parsed :
      List (Response Url → Str → Result (List Str)) → Response Url → Str → Result (List Str)
  parsed [] reply body = ok []
  parsed (p ∷ ps) reply body = do
    new_urls ← p reply body
    urls ← parsed ps reply body
    ok (new_urls ++ urls)

module _ {Url : Type 0} (out : Outside Url) where
  open out use {net, Data, read_data, unpack_document, time_before, now}
  open net use {to_string, parse, is_valid, resolved, scheme, host}

  -- `store_document`.
  pub store_document : EngineData Url → Url → Str → Time → EngineData Url
  store_document s url content ts =
      emit s (write (record { ts = ts; key = to_string url; body = content }))

  -- The tests that a link passes before it is fetched, in the code's order; they give the url that
  -- is requested.
  unfoldable pub link_url : EngineData Url → Response Url → Str → Option Url
  link_url s reply link =
      let relative_url = parse link in
      let request_url = resolved reply.url relative_url in
      if not (is_valid relative_url)
      then none
      else if not (is_valid request_url)
      then none
      else if not (str_eq (scheme request_url) https) && not (str_eq (scheme request_url) http)
      then none
      else if str_eq (host request_url) [] || str_eq (to_string request_url) (to_string reply.url)
      then none
      else if accepted_url s.url_filters reply relative_url
      then some request_url
      else none

  -- A link that the page cache holds, `doc`, with the url in flight.
  unfoldable pub cached_link : EngineData Url → Response Url → Str → Url → Document → EngineData Url
  cached_link s reply body request_url doc =
      if time_before doc.ts s.generation_time
      then (let s' = found_in_page_cache net s request_url doc in
          if reply.code == not_modified
          then s'
          else run_processors s'.processors reply body document_cache s')
      else s

  -- A link that passed the tests. An exception from unpacking is the second component.
  unfoldable pub fetch_link :
      EngineData Url → Response Url → Str → Url → EngineData Url × Option Error
  unfolding cached_link
  fetch_link s reply body request_url =
      let (s', fresh) = inflight_insert net s request_url (new_document net now) in
      if not fresh then (s, none) else elim (read_data (to_string request_url)) [
        | err e ↦ (download s' request_url, none)
        | ok bytes ↦ elim (unpack_document bytes) [
          | err e ↦ (s', some e)
          | ok doc ↦ (cached_link s' reply body request_url doc, none)
        ]
      ]

  -- The body of the loop over the links.
  unfoldable pub process_link :
      EngineData Url → Response Url → Str → Str → EngineData Url × Option Error
  unfolding link_url fetch_link
  process_link s reply body link = elim (link_url s reply link) [
    | none ↦ (s, none)
    | some request_url ↦ fetch_link s reply body request_url
  ]

  -- An exception leaves the loop, with the changes made before it.
  unfoldable pub process_links :
      EngineData Url → Response Url → Str → List Str → EngineData Url × Option Error
  process_links s reply body [] = (s, none)
  process_links s reply body (link ∷ links) =
      let (s', thrown) = process_link s reply body link in
      elim thrown [ none ↦ process_links s' reply body links | some e ↦ (s', some e) ]

  -- The reply is counted, and stored under its url and, after a redirection, its request's.
  unfoldable pub store_reply : EngineData Url → Response Url → Str → EngineData Url
  unfolding store_document
  store_reply s reply body =
      let s' = store_document (record s { total = s.total + 1 }) reply.url body now in
      if str_eq (to_string reply.url) (to_string reply.request_url)
      then s'
      else store_document s' reply.request_url body now

  -- The links that the parsers found, sorted and without repetitions; a parser may have thrown.
  abbrev pub follow_links :
      EngineData Url → Response Url → Str → Result (List Str) → EngineData Url × Option Error
  follow_links s reply body (err e) = (s, some e)
  follow_links s reply body (ok urls) = process_links s reply body (sort_unique urls)

  -- `process_reply`.
  unfoldable pub process_reply : EngineData Url → Response Url → Str → EngineData Url × Option Error
  unfolding store_reply
  process_reply s reply body =
      let stored = store_reply s reply body in
      if accepted s.filters reply body
      then (let processed =
            if reply.code == not_modified
            then stored
            else run_processors stored.processors reply body document_new stored in
          follow_links processed reply body (parsed s.parsers reply body))
      else (run_processors stored.fallback_processors reply body document_new stored, none)

  -- `process_url`: `failed` is the error of the download.
  unfoldable pub process_url :
      EngineData Url → Response Url → Str → Bool → EngineData Url × Option Error
  process_url s reply body failed =
      let (s', old_doc) = inflight_erase net s reply.request_url now in
      if failed
      then (s', none)
      else if reply.code == not_modified
      then process_reply s' reply old_doc.body
      else process_reply s' reply body
