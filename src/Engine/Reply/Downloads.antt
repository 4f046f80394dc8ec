-- ===== src/Engine/Reply/Downloads.antt =====
-- Which downloads a reply starts.
use wookie.Base.{
  ◌≡◌, refl, sym, ◌∙◌, inl, inr, true, none, some, List, [], ◌∷◌, ◌++◌, arith, ◌==◌, Bool-cases,
  Option-cases, Str, nat_ord, str_ord, same_iff, find, insert, contains, sort_unique,
  contains-sort_unique, Result-cases, Result, ok, err,
}
use wookie.Documents.{Document}
use wookie.Engine.{
  Response, not_modified, document_cache, document_new, EngineData, feed, feed_if_modified,
  download,
}
use wookie.Engine.Inflight.{inflight_insert, new_document, found_in_page_cache}
use wookie.Engine.Reply.{
  Outside, accepted, run_processors, parsed, link_url, cached_link, fetch_link, process_link,
  process_links, follow_links, store_reply, process_reply,
}
use wookie.Engine.Reply.Feeds.{
  fed-append, Feeds, run_processors-fed, store_reply-fed, insert_twice, quiet, Feeds-trans,
  enter_and_feed, enter,
}

-- The links that the parsers found.
abbrev pub links_of : Result (List Str) → List Str
links_of (err e) = []
links_of (ok urls) = urls

module _ {Url : Type 0} (out : Outside Url) where
  open out use {net, Data, read_data, unpack_document, time_before, now}
  open net use {to_string, parse, is_valid, resolved, scheme, host}

  module _ (P : Str → Type 0) where
    cached_link-Feeds :
        (s : EngineData Url) (reply : Response Url) (body : Str) (url : Url) (d doc : Document)
        → find (to_string url) s.inflight ≡ none
        → P (to_string url)
        → (let s' = record s { inflight = insert (to_string url) d s.inflight } in
            (new : List Str) × Feeds out P s (cached_link out s' reply body url doc) new)
    unfolding cached_link found_in_page_cache
    cached_link-Feeds s reply body url d doc missing p =
        let s1 : EngineData Url = record s { inflight = insert (to_string url) d s.inflight } in
        let s2 = found_in_page_cache net s1 url doc in
        let feeding = fed-append out s.log (feed_if_modified url doc.ts ∷ []) in
        let twice = insert_twice out (to_string url) d doc s.inflight in
        let (l, i, f) = run_processors-fed out s2.processors reply body document_cache s2 in
        elim (Bool-cases (time_before doc.ts s.generation_time)) [
          | inr no_need ↦ ([], rw (no_need, cached_link) (enter out P s s1 url d refl refl refl))
          | inl old ↦ elim (Bool-cases (reply.code == not_modified)) [
            | inl same_page ↦ (
              to_string url ∷ [],
              rw (old, cached_link, same_page)
                  (enter_and_feed out P s s2 url d missing p feeding twice refl),
            )
            | inr other ↦ (
              to_string url ∷ [],
              rw (old, cached_link, other)
                  (enter_and_feed out P s _ url d missing p (l ∙ feeding) (i ∙ twice) f),
            )
          ]
        ]

    fetch_link-Feeds :
        (s : EngineData Url) (reply : Response Url) (body : Str) (url : Url)
        → P (to_string url)
        → (new : List Str) × Feeds out P s (fetch_link out s reply body url).0 new
    unfolding fetch_link inflight_insert download
    fetch_link-Feeds s reply body url p = elim (Option-cases (find (to_string url) s.inflight)) [
      | inr (d, known) ↦ ([], rw (known, fetch_link) (quiet out P s s refl refl refl))
      | inl missing ↦ elim (Result-cases (read_data (to_string url))) [
        | inr (e, unread) ↦ (
          to_string url ∷ [],
          rw (missing, fetch_link, unread)
              (enter_and_feed out P s (download s1 url) url (new_document net now) missing p
                (fed-append out s.log (feed url ∷ [])) inserted refl),
        )
        | inl (bytes, read) ↦ elim (Result-cases (unpack_document bytes)) [
          | inr (e, thrown) ↦ (
            [],
            rw (missing, fetch_link, read, thrown)
                (enter out P s s1 url (new_document net now) refl inserted refl),
          )
          | inl (doc, unpacked) ↦
              let (new, f) =
                cached_link-Feeds s reply body url (new_document net now) doc missing p in
              (new, rw (missing, fetch_link, read, unpacked) f)
        ]
      ]
    ]
      where
        s1 : EngineData Url
        s1 = (inflight_insert net s url (new_document net now)).0

        inserted : s1.inflight ≡ insert (to_string url) (new_document net now) s.inflight
        inserted = refl

    -- Every link of the list that passes the tests leads to a url with the property.
    abbrev Leads : EngineData Url → Response Url → List Str → Type 0
    Leads s reply links =
        (link : Str) (url : Url)
        → contains link links ≡ true
        → link_url out s reply link ≡ some url
        → P (to_string url)

    process_link-Feeds :
        (s : EngineData Url) (reply : Response Url) (body link : Str)
        → ((url : Url) → link_url out s reply link ≡ some url → P (to_string url))
        → (new : List Str) × Feeds out P s (process_link out s reply body link).0 new
    unfolding process_link
    process_link-Feeds s reply body link p = elim (Option-cases (link_url out s reply link)) [
      | inl refused ↦ ([], rw (refused, process_link) (quiet out P s s refl refl refl))
      | inr (url, passed) ↦
          let (new, f) = fetch_link-Feeds s reply body url (p url passed) in
          (new, rw (passed, process_link) f)
    ]

    link_url-filters :
        (s t : EngineData Url) (reply : Response Url) (link : Str)
        → t.url_filters ≡ s.url_filters
        → link_url out t reply link ≡ link_url out s reply link
    unfolding link_url
    link_url-filters s t reply link e = rw e

    process_links-Feeds :
        (s : EngineData Url) (reply : Response Url) (body : Str) (links : List Str)
        → Leads s reply links
        → (new : List Str) × Feeds out P s (process_links out s reply body links).0 new
    unfolding process_links
    process_links-Feeds s reply body [] p = ([], quiet out P s s refl refl refl)
    process_links-Feeds s reply body (link ∷ links) p =
        let s' = (process_link out s reply body link).0 in
        let (new, f) =
          process_link-Feeds s reply body link
            (λ url h. p link url (ground (arith, same_iff link link)) h) in
        let (later, g) = process_links-Feeds s' reply body links λ l url h k.
          p l url (ground (arith, h)) (sym (link_url-filters s s' reply l f.filters_kept) ∙ k) in
        elim (Option-cases (process_link out s reply body link).1) [
          | inl done ↦ (new ++ later, rw (done, process_links) (Feeds-trans out P f g))
          | inr (e, thrown) ↦ (new, rw (thrown, process_links) f)
        ]

    follow_links-Feeds :
        (s : EngineData Url) (reply : Response Url) (body : Str) (found : Result (List Str))
        → Leads s reply (links_of found)
        → (new : List Str) × Feeds out P s (follow_links out s reply body found).0 new
    follow_links-Feeds s reply body (err e) p = ([], quiet out P s s refl refl refl)
    follow_links-Feeds s reply body (ok urls) p =
        process_links-Feeds s reply body (sort_unique urls)
          λ link url h. p link url (sym (contains-sort_unique link urls) ∙ h)

    replied :
        (s : EngineData Url) (reply : Response Url) (body : Str)
        → Leads s reply (links_of (parsed s.parsers reply body))
        → (new : List Str) × Feeds out P s (process_reply out s reply body).0 new
    unfolding process_reply
    replied s reply body p =
        let found = parsed s.parsers reply body in
        let stored = store_reply out s reply body in
        let (l, i, f) = store_reply-fed out s reply body in
        let leads =
          λ (t : EngineData Url) (e : t.url_filters ≡ s.url_filters) (link : Str) (url : Url)
              (h : contains link (links_of found) ≡ true)
              (k : link_url out t reply link ≡ some url).
            p link url h (sym (link_url-filters s t reply link e) ∙ k) in
        elim (Bool-cases (accepted s.filters reply body)) [
          | inr refused ↦
              let (l', i', f') =
                run_processors-fed out stored.fallback_processors reply body document_new stored in
              ([], rw (refused, process_reply) (quiet out P s _ (l' ∙ l) (i' ∙ i) (f' ∙ f)))
          | inl passed ↦ elim (Bool-cases (reply.code == not_modified)) [
            | inl same_page ↦
                let (new, g) = follow_links-Feeds stored reply body found (leads stored f) in
                (
                  new,
                  rw (passed, process_reply, same_page)
                      (Feeds-trans out P (quiet out P s stored l i f) g),
                )
            | inr other ↦
                let done = run_processors stored.processors reply body document_new stored in
                let (l', i', f') =
                  run_processors-fed out stored.processors reply body document_new stored in
                let (new, g) = follow_links-Feeds done reply body found (leads done (f' ∙ f)) in
                (
                  new,
                  rw (passed, process_reply, other)
                      (Feeds-trans out P (quiet out P s done (l' ∙ l) (i' ∙ i) (f' ∙ f)) g),
                )
          ]
        ]

  -- The url is where a link of the page leads that passes the tests.
  abbrev pub IsLink : EngineData Url → Response Url → Str → Str → Type 0
  IsLink s reply body u =
      (link : Str) × (url : Url) × (contains link (links_of (parsed s.parsers reply body)) ≡ true)
      × (link_url out s reply link ≡ some url)
      × (to_string url ≡ u)

  -- For every state, reply and page, whatever the outside answers and whether or not a parser, or the
  -- unpacking of a cached document, throws: the downloads that `process_reply` starts are of urls that
  -- are links of the page and pass the tests; no url is fed twice, none was in flight before, and all
  -- are in flight after; and what was in flight before still is, with the same document.
  pub process_reply-Feeds :
      (s : EngineData Url) (reply : Response Url) (body : Str)
      → (new : List Str) × Feeds out (IsLink s reply body) s (process_reply out s reply body).0 new
  process_reply-Feeds s reply body =
      replied (IsLink s reply body) s reply body λ link url h k. (link, url, h, k, refl)
