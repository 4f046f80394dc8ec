-- ===== src/Storage/Tests.antt =====
-- A store that keeps a list of writes, over bytes that are the objects themselves.
use wookie.Base.{
  ◌≡◌, refl, true, false, none, [], ◌∷◌, arith, Str, nat_ord, str_ord, same_iff, Map, find,
  elliptics_error, ok, err, enoent, or_err,
}
use wookie.MsgPack.{Object, Codec, RoundTrips}
use wookie.Documents.{Document}
use wookie.Storage.{Session, Elliptics, write_document, read_document}
use wookie.Storage.Documents.{ReadsBack, read_document-write_document, read_document-error}

abbrev plain : Codec
plain = record { Data = Object; pack = λ o. o; unpack = λ o. ok o }

abbrev blank : Session
blank = record { groups = []; namespace = []; throws = true; cached = false; timeout = 5 }

abbrev memory : Elliptics Object
memory = record {
  World = Map Str Object;
  new_session = blank;
  transform = λ s t. t;
  write_data = λ s key d w. ((key, d) ∷ w, none);
  read_data = λ s key w. or_err (find key w) (elliptics_error enoent);
  find_all_indexes = λ s ids w. ok [];
}

plain-RoundTrips : RoundTrips plain
plain-RoundTrips o = refl

memory-ReadsBack : ReadsBack memory
memory-ReadsBack s key d w h = ground (arith, same_iff key key)

abbrev page : Document
page = record { ts = record { tsec = 5; tnsec = 7 }; key = b'k' ∷ []; body = b'd' ∷ [] }

read_document-write_document_example :
    read_document plain memory blank (b'k' ∷ []) (write_document plain memory blank page []).0
    ≡ ok page
unfolding write_document
read_document-write_document_example =
    read_document-write_document plain memory plain-RoundTrips memory-ReadsBack blank page []
      (omega arith, omega arith) refl

read_document-error_example :
    read_document plain memory blank (b'k' ∷ []) [] ≡ err (elliptics_error enoent)
read_document-error_example =
    read_document-error plain memory blank (b'k' ∷ []) [] (elliptics_error enoent) refl
