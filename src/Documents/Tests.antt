-- ===== src/Documents/Tests.antt =====
-- The structures at concrete values.
use wookie.Base.{◌≡◌, [], ◌∷◌, arith, nat_ord, str_ord, ok, pos, negsuc}
use wookie.Documents.{
  Document, IndexData, Simdoc, pack_document, pack_index_data, unpack_document, unpack_index_data,
}
use wookie.Documents.RoundTrip.{
  FitsTime, unpack_document-pack_document, unpack_index_data-pack_index_data,
}
use wookie.Documents.Versions.{unpack_document-eq-ok}

abbrev page : Document
page = record { ts = record { tsec = 5; tnsec = 7 }; key = b'k' ∷ []; body = b'd' ∷ [] }

abbrev token : IndexData
token = record { ts = record { tsec = 5; tnsec = 7 }; key = b'k' ∷ []; positions = 0 ∷ 4 ∷ [] }

abbrev sample : Simdoc
sample = record { id = negsuc 2; text = b't' ∷ []; ngrams = pos 3 ∷ [] }

unpack_document-pack_document_example : unpack_document (pack_document page) ≡ ok page
unpack_document-pack_document_example =
    unpack_document-pack_document page (omega arith, omega arith)

unpack_index_data-pack_index_data_example : unpack_index_data (pack_index_data token) ≡ ok token
unpack_index_data-pack_index_data_example =
    unpack_index_data-pack_index_data token (omega arith, omega arith)
      (omega arith, (omega arith, tt))

unpack_document-eq-ok_example : (pack_document page ≡ pack_document page) × FitsTime page.ts
unpack_document-eq-ok_example =
    unpack_document-eq-ok (pack_document page) unpack_document-pack_document_example
