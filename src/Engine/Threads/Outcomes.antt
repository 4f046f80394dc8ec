-- ===== src/Engine/Threads/Outcomes.antt =====
-- What the moves of a thread come to.
use wookie.Base.{
  ◌≡◌, refl, inl, inr, none, some, List, [], ◌∷◌, arith, ◌==◌, if◌then◌else◌, Bool-cases, Str,
  nat_ord, str_ord, insert, ok, err, Error, Result,
}
use wookie.Documents.{Document}
use wookie.Engine.{Response, EngineData, not_modified, download, document_new, document_cache}
use wookie.Engine.Inflight.{inflight_insert, found_in_page_cache}
use wookie.Engine.Reply.{Outside, accepted, parsed, store_reply, cached_link}
use wookie.Engine.Reply.Feeds.{store_reply-fed, run_processors-fed}
use wookie.Engine.Threads.{idle, replied, looping, reading, move, after_parsers}
use wookie.Engine.Threads.Claims.{claim}

module _ {Url : Type 0} (out : Outside Url) where
  open out use {net, Data, read_data, unpack_document, time_before, now}
  open net use {to_string}

  pub cached_link-inflight :
      (s : EngineData Url) (reply : Response Url) (body : Str) (url : Url) (doc : Document)
      → (cached_link out s reply body url doc).inflight ≡ (
          if time_before doc.ts s.generation_time
          then insert (to_string url) doc s.inflight
          else s.inflight)
  unfolding cached_link found_in_page_cache inflight_insert
  cached_link-inflight s reply body url doc =
      let t = found_in_page_cache net s url doc in
      elim (Bool-cases (time_before doc.ts s.generation_time)) [
        | inl old ↦ elim (Bool-cases (reply.code == not_modified)) [
          | inl same_page ↦ ground (arith, old, same_page)
          | inr other ↦ ground (
            arith,
            old,
            other,
            (run_processors-fed out t.processors reply body document_cache t).1,
          )
        ]
        | inr young ↦ ground (arith, young)
      ]

  -- The parsers claim nothing.
  no_claim :
      (u : Str) (reply : Response Url) (body : Str) (found : Result (List Str))
      → claim out u (after_parsers out reply body found) ≡ 0
  no_claim u reply body (err e) = refl
  no_claim u reply body (ok urls) = refl

  pub replied-inflight :
      (s : EngineData Url) (reply : Response Url) (body : Str)
      → ((move out s (replied reply body)).engine.inflight ≡ s.inflight)
        × ((move out s (replied reply body)).started ≡ [])
        × ((u : Str) → claim out u (move out s (replied reply body)).pc ≡ 0)
  unfolding move
  replied-inflight s reply body =
      let t = store_reply out s reply body in
      let kept = (store_reply-fed out s reply body).1 in
      elim (Bool-cases (accepted s.filters reply body)) [
        | inl all_accept ↦ elim (Bool-cases (reply.code == not_modified)) [
          | inl same_page ↦ (
            ground (arith, all_accept, same_page, kept),
            ground (arith, all_accept),
            λ u. ground (arith, all_accept, no_claim u reply body (parsed s.parsers reply body)),
          )
          | inr other ↦ (
            ground (
              arith,
              all_accept,
              other,
              kept,
              (run_processors-fed out t.processors reply body document_new t).1,
            ),
            ground (arith, all_accept),
            λ u. ground (arith, all_accept, no_claim u reply body (parsed s.parsers reply body)),
          )
        ]
        | inr refused ↦ (
          ground (
            arith,
            refused,
            kept,
            (run_processors-fed out t.fallback_processors reply body document_new t).1,
          ),
          ground (arith, refused),
          λ u. ground (arith, refused),
        )
      ]

  -- The three ends of a wait.
  module _ (s : EngineData Url) (reply : Response Url) (body : Str) (url : Url)
      (links : List Str) where
    pub misses :
        {e : Error}
        → read_data (to_string url) ≡ err e
        → move out s (reading reply body url links) ≡ record {
          engine = download s url;
          pc = looping reply body links;
          started = to_string url ∷ [];
          thrown = none;
        }
    unfolding move
    misses h = ground (arith, h)

    pub throws :
        {bytes : Data} {e : Error}
        → read_data (to_string url) ≡ ok bytes
        → unpack_document bytes ≡ err e
        → move out s (reading reply body url links)
          ≡ record { engine = s; pc = idle; started = []; thrown = some e }
    unfolding move
    throws h k = ground (arith, h, k)

    pub hits :
        {bytes : Data} {doc : Document}
        → read_data (to_string url) ≡ ok bytes
        → unpack_document bytes ≡ ok doc
        → move out s (reading reply body url links) ≡ record {
          engine = cached_link out s reply body url doc;
          pc = looping reply body links;
          started = if time_before doc.ts s.generation_time then to_string url ∷ [] else [];
          thrown = none;
        }
    unfolding move
    hits h k = ground (arith, h, k)

  pub stays :
      (s : EngineData Url)
      → move out s idle ≡ record { engine = s; pc = idle; started = []; thrown = none }
  unfolding move
  stays s = refl
