-- ===== src/Engine/Reply/Branches.antt =====
-- What a reply stores and which processors it calls, on every branch.
use wookie.Base.{
  ℕ, ◌+◌, ◌≡◌, refl, sym, ap₂, ◌∙◌, inl, inr, List, [], ◌∷◌, ◌++◌, append-nil, append_assoc, arith,
  ◌==◌, if◌then◌else◌, Bool-cases, Option-cases, Str, nat_ord, str_ord, str_eq, find, sort_unique,
  Result-cases, Result, ok, err,
}
use wookie.Documents.{Document}
use wookie.Engine.{
  Response, not_modified, document_new, EngineData, Event, feed, feed_if_modified, write, download,
}
use wookie.Engine.Inflight.{inflight_insert, new_document, found_in_page_cache}
use wookie.Engine.Reply.{
  Outside, accepted, run_processors, parsed, link_url, cached_link, fetch_link, process_link,
  process_links, follow_links, store_reply, process_reply,
}
use wookie.Engine.Reply.Logs.{
  written, called_new, written-append, called_new-append, Follows, Follows-refl, Follows-trans,
  emit-Follows, run_processors-Follows, with_page, run_processors_new,
}

module _ {Url : Type 0} (out : Outside Url) where
  open out use {net, Data, read_data, unpack_document, time_before, now}
  open net use {to_string, parse, is_valid, resolved, scheme, host}

  cached_link-Follows :
      (s : EngineData Url) (reply : Response Url) (body : Str) (url : Url) (doc : Document)
      → Follows s (cached_link out s reply body url doc)
  unfolding cached_link found_in_page_cache
  cached_link-Follows s reply body url doc =
      let s1 = (inflight_insert net s url doc).0 in
      let s2 = found_in_page_cache net s url doc in
      let inserted : Follows s s1 = record { writes = refl; calls = refl; total_kept = refl } in
      let fed = Follows-trans inserted (emit-Follows s1 (feed_if_modified url doc.ts) refl refl) in
      elim (Bool-cases (time_before doc.ts s.generation_time)) [
        | inr no_need ↦ rw (no_need, cached_link) (Follows-refl s)
        | inl old ↦ elim (Bool-cases (reply.code == not_modified)) [
          | inl same_page ↦ rw (old, cached_link, same_page) fed
          | inr other ↦
              rw (old, cached_link, other)
                (Follows-trans fed (run_processors-Follows s2.processors reply body s2))
        ]
      ]

  fetch_link-Follows :
      (s : EngineData Url) (reply : Response Url) (body : Str) (url : Url)
      → Follows s (fetch_link out s reply body url).0
  unfolding fetch_link inflight_insert download
  fetch_link-Follows s reply body url =
      let s1 = (inflight_insert net s url (new_document net now)).0 in
      let inserted : Follows s s1 = record { writes = refl; calls = refl; total_kept = refl } in
      elim (Option-cases (find (to_string url) s.inflight)) [
        | inr (d, known) ↦ rw (known, fetch_link) (Follows-refl s)
        | inl missing ↦ elim (Result-cases (read_data (to_string url))) [
          | inr (e, unread) ↦
              rw (missing, fetch_link, unread)
                (Follows-trans inserted (emit-Follows s1 (feed url) refl refl))
          | inl (bytes, read) ↦ elim (Result-cases (unpack_document bytes)) [
            | inr (e, thrown) ↦ rw (missing, fetch_link, read, thrown) inserted
            | inl (doc, unpacked) ↦
                rw (missing, fetch_link, read, unpacked)
                  (Follows-trans inserted (cached_link-Follows s1 reply body url doc))
          ]
        ]
      ]

  process_link-Follows :
      (s : EngineData Url) (reply : Response Url) (body link : Str)
      → Follows s (process_link out s reply body link).0
  unfolding process_link
  process_link-Follows s reply body link = elim (Option-cases (link_url out s reply link)) [
    | inl refused ↦ rw (refused, process_link) (Follows-refl s)
    | inr (url, passed) ↦ rw (passed, process_link) (fetch_link-Follows s reply body url)
  ]

  process_links-Follows :
      (s : EngineData Url) (reply : Response Url) (body : Str) (links : List Str)
      → Follows s (process_links out s reply body links).0
  unfolding process_links
  process_links-Follows s reply body [] = Follows-refl s
  process_links-Follows s reply body (link ∷ links) =
      let s' = (process_link out s reply body link).0 in
      let f = process_link-Follows s reply body link in
      elim (Option-cases (process_link out s reply body link).1) [
        | inl done ↦
            rw (done, process_links) (Follows-trans f (process_links-Follows s' reply body links))
        | inr (e, thrown) ↦ rw (thrown, process_links) f
      ]

  follow_links-Follows :
      (s : EngineData Url) (reply : Response Url) (body : Str) (found : Result (List Str))
      → Follows s (follow_links out s reply body found).0
  follow_links-Follows s reply body (err e) = Follows-refl s
  follow_links-Follows s reply body (ok urls) =
      process_links-Follows s reply body (sort_unique urls)

  -- The documents stored for a reply.
  abbrev pub stored_pages : Response Url → Str → List Document
  stored_pages reply body =
      record { ts = now; key = to_string reply.url; body = body }
      ∷ (if str_eq (to_string reply.url) (to_string reply.request_url)
          then []
          else record { ts = now; key = to_string reply.request_url; body = body } ∷ [])

  -- The processors called for a new page.
  abbrev pub new_page_processors : EngineData Url → Response Url → Str → List ℕ
  new_page_processors s reply body =
      if accepted s.filters reply body
      then if reply.code == not_modified then [] else s.processors
      else s.fallback_processors

  store_reply_lem :
      (s : EngineData Url) (reply : Response Url) (body : Str)
      → (let t = store_reply out s reply body in
          (written t.log ≡ written s.log ++ stored_pages reply body)
          × (called_new t.log ≡ called_new s.log)
          × (t.total ≡ s.total + 1)
          × (t.processors ≡ s.processors)
          × (t.fallback_processors ≡ s.fallback_processors))
  unfolding store_reply
  store_reply_lem s reply body =
      let first : Event Url = write (record { ts = now; key = to_string reply.url; body = body }) in
      let second : Event Url =
        write (record { ts = now; key = to_string reply.request_url; body = body }) in
      elim (Bool-cases (str_eq (to_string reply.url) (to_string reply.request_url))) [
        | inl one ↦ ground (
          arith,
          one,
          written-append s.log (first ∷ []),
          called_new-append s.log (first ∷ []),
          append-nil (called_new s.log),
        )
        | inr two ↦ ground (
          arith,
          two,
          written-append s.log (first ∷ []),
          called_new-append s.log (first ∷ []),
          append-nil (called_new s.log),
          written-append (s.log ++ first ∷ []) (second ∷ []),
          called_new-append (s.log ++ first ∷ []) (second ∷ []),
          append_assoc (written s.log) (written (first ∷ [])) (written (second ∷ [])),
        )
      ]

  -- On every branch, whatever the outside answers and whether or not an exception ends the calls of
  -- the parsers or the loop over the links: `process_reply` counts one reply; it writes the page
  -- under its own url and, after a redirection only, under the request's, and nothing else; and it
  -- calls for the new page, in order, the processors if the filters accept the page and it was
  -- modified, none if they accept it and it was not, and the fallback processors if a filter refuses.
  pub process_reply-branches :
      (s : EngineData Url) (reply : Response Url) (body : Str)
      → (let t = (process_reply out s reply body).0 in
          (t.total ≡ s.total + 1)
          × (written t.log ≡ written s.log ++ stored_pages reply body)
          × (called_new t.log
              ≡ called_new s.log ++ with_page body (new_page_processors s reply body)))
  unfolding process_reply
  process_reply-branches s reply body =
      let found = parsed s.parsers reply body in
      let stored = store_reply out s reply body in
      let (w, c, t, ps, fs) = store_reply_lem s reply body in
      elim (Bool-cases (accepted s.filters reply body)) [
        | inr refused ↦
            let (w', c', t') = run_processors_new stored.fallback_processors reply body stored in
            rw (refused, process_reply)
              (t' ∙ t, w' ∙ w, c' ∙ ap₂ (λ cs ps. cs ++ with_page body ps) c fs)
        | inl passed ↦ elim (Bool-cases (reply.code == not_modified)) [
          | inl same_page ↦
              let f = follow_links-Follows stored reply body found in
              rw (passed, process_reply, same_page)
                (f.total_kept ∙ t, f.writes ∙ w, f.calls ∙ c ∙ sym (append-nil (called_new s.log)))
          | inr other ↦
              let (w', c', t') = run_processors_new stored.processors reply body stored in
              let done = run_processors stored.processors reply body document_new stored in
              let f = follow_links-Follows done reply body found in
              rw (passed, process_reply, other)
                (
                  f.total_kept ∙ t' ∙ t,
                  f.writes ∙ w' ∙ w,
                  f.calls ∙ c' ∙ ap₂ (λ cs ps. cs ++ with_page body ps) c ps,
                )
        ]
      ]
