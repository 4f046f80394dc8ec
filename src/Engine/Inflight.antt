-- ===== src/Engine/Inflight.antt =====
-- The map of the urls that are being fetched, under their strings.
use wookie.Base.{Bool, not, none, some, [], is_some, nat_ord, str_ord, find, insert, erase}
use wookie.Documents.{Time, Document}
use wookie.Engine.{UrlOps, EngineData, feed_if_modified, emit}

module _ {Url : Type 0} (net : UrlOps Url) where
  open net use {to_string}

  -- `inflight_insert(url, doc)`: `std::map::insert`, and whether the url was new.
  unfoldable pub inflight_insert : EngineData Url → Url → Document → EngineData Url × Bool
  inflight_insert s url doc = (
    record s { inflight = insert (to_string url) doc s.inflight },
    not (is_some (find (to_string url) s.inflight)),
  )

  -- `document()`: the current time, and no key or text.
  abbrev pub new_document : Time → Document
  new_document now = record { ts = now; key = []; body = [] }

  -- `inflight_erase`: the stored document, or a new one.
  unfoldable pub inflight_erase : EngineData Url → Url → Time → EngineData Url × Document
  inflight_erase s url now = elim (find (to_string url) s.inflight) [
    | some d ↦ (record s { inflight = erase (to_string url) s.inflight }, d)
    | none ↦ (s, new_document now)
  ]

  -- `engine_data::found_in_page_cache`.
  unfoldable pub found_in_page_cache : EngineData Url → Url → Document → EngineData Url
  unfolding inflight_insert
  found_in_page_cache s url doc = emit (inflight_insert s url doc).0 (feed_if_modified url doc.ts)
