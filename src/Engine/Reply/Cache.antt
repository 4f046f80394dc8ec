-- ===== src/Engine/Reply/Cache.antt =====
-- What becomes of a cached page whose url is fetched with `if-modified-since`.
use wookie.Base.{
  ℕ, ◌≡◌, refl, ap, ◌∙◌, inl, inr, false, none, some, List, [], ◌∷◌, ◌++◌, arith, Str, nat_ord,
  str_ord, same_iff, find, erase, find-insert, Result-cases,
}
use wookie.Documents.{Document}
use wookie.Engine.{
  Response, not_modified, DocumentType, document_cache, EngineData, process, emit, download,
}
use wookie.Engine.Inflight.{inflight_insert, inflight_erase, new_document, found_in_page_cache}
use wookie.Engine.Reply.{
  Outside, run_processors, cached_link, fetch_link, process_reply, process_url,
}
use wookie.Engine.Reply.Logs.{written}
use wookie.Engine.Reply.Branches.{stored_pages, process_reply-branches}

module _ {Url : Type 0} (out : Outside Url) where
  open out use {net, Data, read_data, unpack_document, time_before, now}
  open net use {to_string}

  run_processors-inflight :
      (ps : List ℕ) (reply : Response Url) (body : Str) (type : DocumentType) (s : EngineData Url)
      → (run_processors ps reply body type s).inflight ≡ s.inflight
  unfolding run_processors
  run_processors-inflight [] reply body type s = refl
  run_processors-inflight (p ∷ ps) reply body type s =
      run_processors-inflight ps reply body type (emit s (process p reply body type))

  -- Behind a link to a new url, the map holds a document without text, also where the page cache
  -- gave one with text and that one's time is sent as `if-modified-since`.
  fetch_link-inflight :
      (s : EngineData Url) (reply : Response Url) (body : Str) (url : Url)
      → find (to_string url) s.inflight ≡ none
      → find (to_string url) (fetch_link out s reply body url).0.inflight
        ≡ some (new_document net now)
  unfolding fetch_link cached_link inflight_insert found_in_page_cache download
  fetch_link-inflight s reply body url missing =
      let d = new_document net now in
      let s1 = (inflight_insert net s url d).0 in
      let here = find-insert (to_string url) (to_string url) d s.inflight in
      elim (Result-cases (read_data (to_string url))) [
        | inr (e, unread) ↦
            ground (arith, missing, unread, here, same_iff (to_string url) (to_string url))
        | inl (bytes, read) ↦ elim (Result-cases (unpack_document bytes)) [
          | inr (e, thrown) ↦
              ground (arith, missing, read, thrown, here, same_iff (to_string url) (to_string url))
          | inl (doc, unpacked) ↦ ground (
            arith,
            missing,
            read,
            unpacked,
            here,
            same_iff (to_string url) (to_string url),
            run_processors-inflight s.processors reply body document_cache
                (found_in_page_cache net s1 url doc),
          )
        ]
      ]

  -- A reply `not modified` is processed with the text of the document in flight, and the page that
  -- came with the reply is ignored.
  process_url-not_modified :
      (s : EngineData Url) (reply : Response Url) (body : Str) (d : Document)
      → reply.code ≡ not_modified
      → find (to_string reply.request_url) s.inflight ≡ some d
      → process_url out s reply body false
        ≡ process_reply out
            (record s { inflight = erase (to_string reply.request_url) s.inflight })
            reply
            d.body
  unfolding process_url inflight_erase
  process_url-not_modified s reply body d code known = ground (arith, known, code)

  -- If the application hands the engine a cached document for a url that is not in flight, and the
  -- reply to that url's download says `not modified`, then the whole handler does what `process_reply`
  -- does with the text of the document in place of the page that came, in the state where the url has
  -- left the map in flight; and the text of the document is what is stored again.
  pub found_in_page_cache-not_modified :
      (s : EngineData Url) (url : Url) (doc : Document) (reply : Response Url) (body : Str)
      → find (to_string url) s.inflight ≡ none
      → reply.code ≡ not_modified
      → to_string reply.request_url ≡ to_string url
      → (let t = found_in_page_cache net s url doc in
          (process_url out t reply body false
            ≡ process_reply out
                (record t { inflight = erase (to_string url) t.inflight })
                reply
                doc.body)
          × (written (process_url out t reply body false).0.log
              ≡ written t.log ++ stored_pages out reply doc.body))
  unfolding found_in_page_cache
  found_in_page_cache-not_modified s url doc reply body missing code e =
      let t = found_in_page_cache net s url doc in
      let held : find (to_string reply.request_url) t.inflight ≡ some doc = ground (
        arith,
        e,
        missing,
        find-insert (to_string url) (to_string url) doc s.inflight,
        same_iff (to_string url) (to_string url),
      ) in
      let handled = process_url-not_modified t reply body doc code held in
      (
        handled
            ∙ ap
                (λ u. process_reply out (record t { inflight = erase u t.inflight }) reply doc.body)
                e,
        ap (λ r. written r.0.log) handled ∙ (process_reply-branches out _ reply doc.body).1,
      )

  -- If a link of a page leads to a url that is not in flight, then, whatever the page cache
  -- holds for the url: when a later reply to the url says `not modified`, while the map still holds
  -- what the link left there, the engine stores empty documents under the reply's urls.
  pub fetch_link-not_modified :
      (s t : EngineData Url) (page reply : Response Url) (text body : Str) (url : Url)
      → find (to_string url) s.inflight ≡ none
      → find (to_string url) t.inflight
        ≡ find (to_string url) (fetch_link out s page text url).0.inflight
      → reply.code ≡ not_modified
      → to_string reply.request_url ≡ to_string url
      → written (process_url out t reply body false).0.log
        ≡ written t.log ++ stored_pages out reply []
  fetch_link-not_modified s t page reply text body url missing same_entry code e =
      let held =
        ap (λ k. find k t.inflight) e ∙ same_entry ∙ fetch_link-inflight s page text url missing in
      ap (λ r. written r.0.log)
        (process_url-not_modified t reply body (new_document net now) code held)
      ∙ (process_reply-branches out _ reply []).1
