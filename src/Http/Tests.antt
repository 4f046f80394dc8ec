-- ===== src/Http/Tests.antt =====
-- An upload and its retrieval.
use wookie.Base.{
  ℕ, ◌≡◌, ◌≢◌, ◌⊎◌, refl, true, false, none, some, [], ◌∷◌, ok, map, arith, Str, length, pos,
  str_compare, nat_ord, str_ord,
}
use wookie.MsgPack.{Object, Codec}
use wookie.Documents.{Time, pack_document}
use wookie.Split.{Locale}
use wookie.Splitter.{prepare_indexes}
use wookie.Http.{
  Reply, Request, send_reply, write_data, set_indexes, on_write_finished, upload, on_read_finished,
}
use wookie.Http.Upload.{replies, replies-upload, uploaded, upload-ok}
use wookie.Http.Get.{found, on_read_finished-pack_document}

abbrev plain : Codec
plain = record { Data = Object; pack = λ o. o; unpack = λ o. ok o }

-- Words of one letter.
abbrev letters : Locale
letters = record { words = map (λ c. c ∷ []); to_lower = λ t. t }

abbrev now : Time
now = record { tsec = 5; tnsec = 7 }

abbrev page : Request
page = record {
  base_index = some (b'z' ∷ []);
  name = some (b'k' ∷ []);
  text = none;
  if_modified_since = some (pos 4);
  buffer = [];
}

abbrev rift : ℕ
rift = 200

replies-upload_example :
    length (replies rift (upload plain letters now page true 403 false false [])) ≡ 1
replies-upload_example = replies-upload plain letters now rift page true 403 false false []

accepted : replies rift (upload plain letters now page true 403 false false []) ≡ 200 ∷ []
unfolding upload prepare_indexes str_compare
accepted = refl

upload-ok_example :
    (name : Str) × (base : Str) × (page.name ≡ some name)
    × (page.base_index ≡ some base)
    × (false ≡ false)
    × (((reply : Reply) × (prepare_indexes plain letters
              (uploaded plain letters now name [])
              base
              []
            ≢ [])
          × (false ≡ false)
          × (upload plain letters now page true 403 false false []
              ≡ write_data name (pack_document (uploaded plain letters now name []))
                ∷ set_indexes name
                    (prepare_indexes plain letters (uploaded plain letters now name []) base [])
                ∷ send_reply reply
                ∷ []))
        ⊎ (prepare_indexes plain letters (uploaded plain letters now name []) base [] ≡ [])
          × (rift ≡ 200)
          × (upload plain letters now page true 403 false false []
              ≡ write_data name (pack_document (uploaded plain letters now name []))
                ∷ on_write_finished
                ∷ []))
upload-ok_example = upload-ok plain letters now rift page true 403 false false [] accepted

on_read_finished-pack_document_example :
    on_read_finished plain page
      (ok (pack_document (uploaded plain letters now (b'k' ∷ []) (b'd' ∷ []))))
    ≡ ok (found (uploaded plain letters now (b'k' ∷ []) (b'd' ∷ [])))
on_read_finished-pack_document_example =
    on_read_finished-pack_document plain page (uploaded plain letters now (b'k' ∷ []) (b'd' ∷ []))
      (λ o. refl) (omega arith, omega arith) (omega arith)
