-- ===== src/Http/Get.antt =====
-- The retrieval of what was uploaded.
use wookie.Base.{
  ℕ, ◌≡◌, ◌<◌, ◌^◌, refl, Bool, false, Option, none, some, arith, if◌then◌else◌, ℤ, pos, negsuc,
  length, ok, leb,
}
use wookie.MsgPack.{Codec, RoundTrips}
use wookie.Documents.{Document, pack_document}
use wookie.Documents.RoundTrip.{FitsTime, unpack_document-pack_document}
use wookie.Storage.{unpack}
use wookie.Http.{Reply, Request, status, text_plain, time_t, not_after, on_read_finished}

-- The reply with a document.
abbrev pub found : Document → Reply
found doc = record {
  code = 200;
  content_type = some text_plain;
  content_length = some (length doc.body);
  last_modified = some doc.ts.tsec;
  content = doc.body;
}

-- The request has a copy from the time `tsec` or later.
abbrev pub has_copy : Option ℤ → ℕ → Bool
has_copy none tsec = false
has_copy (some (negsuc n)) tsec = false
has_copy (some (pos since)) tsec = leb tsec since

module _ (c : Codec) where
  -- If msgpack gives back what it is given, a document that an upload packed at a time below 2^63
  -- seconds is returned with its text, the text's length and its time, unless the request says that
  -- it has a copy from that time or later: then the reply is 304 and has no text.
  pub on_read_finished-pack_document :
      (req : Request) (doc : Document)
      → RoundTrips c
      → FitsTime doc.ts
      → doc.ts.tsec < 2 ^ 63
      → on_read_finished c req (ok (c.pack (pack_document doc)))
        ≡ ok (if has_copy req.if_modified_since doc.ts.tsec then status 304 else found doc)
  unfolding on_read_finished unpack
  on_read_finished-pack_document req doc r fits small =
      rw (r (pack_document doc), unpack_document-pack_document doc fits)
        (since req.if_modified_since)
    where
      since :
          (o : Option ℤ)
          → elim o [
            | none ↦ ok (found doc)
            | some m ↦
                if not_after c (time_t c doc.ts.tsec) m then ok (status 304) else ok (found doc)
          ]
            ≡ ok (if has_copy o doc.ts.tsec then status 304 else found doc)
      since none = refl
      since (some (pos m)) = ground (arith, small)
      since (some (negsuc m)) = ground (arith, small)
