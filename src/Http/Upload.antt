-- ===== src/Http/Upload.antt =====
-- The upload from the request to the reply.
use wookie.Base.{
  ℕ, ◌==◌, ◌≡◌, ◌≢◌, ◌⊎◌, Bool, false, not, ◌&&◌, none, some, List, [], ◌∷◌, arith, Str, Bool-cases,
  Option-cases, inl, inr, length, List-cases,
}
use wookie.MsgPack.{Codec}
use wookie.Documents.{Time, Document, pack_document}
use wookie.Split.{Locale}
use wookie.Splitter.{prepare_indexes}
use wookie.Http.{
  Reply, Request, Action, send_reply, write_data, set_indexes, on_write_finished, find, text_json,
  checked, on_write_finished_update_index, on_index_update_finished, upload,
}

module _ {Data : Type 0} (rift : ℕ) where
  -- The codes of the replies, with the code `rift` that rift's own `on_write_finished` replies with.
  abbrev pub replies : List (Action Data) → List ℕ
  replies [] = []
  replies (send_reply r ∷ rest) = r.code ∷ replies rest
  replies (write_data k d ∷ rest) = replies rest
  replies (set_indexes k is ∷ rest) = replies rest
  replies (on_write_finished ∷ rest) = rift ∷ replies rest
  replies (find t ∷ rest) = replies rest

module _ (c : Codec) (loc : Locale) (now : Time) where
  -- Whatever the request, the verdict and the answers of the store, an upload is replied to once;
  -- `rift` is any code for rift's own reply.
  pub replies-upload :
      (rift : ℕ) (req : Request) (noauth : Bool) (verdict : ℕ) (write_failed update_failed : Bool)
      (result : Str)
      → length
          (replies rift (upload c loc now req noauth verdict write_failed update_failed result))
        ≡ 1
  unfolding upload checked on_write_finished_update_index on_index_update_finished
  replies-upload rift req noauth verdict write_failed update_failed result = ground arith

  -- The document that an upload of `buffer` under `name` stores.
  abbrev pub uploaded : Str → Str → Document
  uploaded name buffer = record { ts = now; key = name; body = buffer }

  -- If an upload is replied to with 200, the request had both parameters and the write did not
  -- fail, and one of two things holds. The document has an index, the update did not fail, and what
  -- was done before the reply is the write of the packed document and the update of its indexes, in
  -- this order. Or the document has no index, and what was done is the write alone and then rift's
  -- own reply, whose code is 200.
  pub upload-ok :
      (rift : ℕ) (req : Request) (noauth : Bool) (verdict : ℕ) (write_failed update_failed : Bool)
      (result : Str)
      → replies rift (upload c loc now req noauth verdict write_failed update_failed result)
        ≡ 200 ∷ []
      → (name : Str) × (base : Str) × (req.name ≡ some name)
        × (req.base_index ≡ some base)
        × (write_failed ≡ false)
        × (((reply : Reply) × (prepare_indexes c loc (uploaded name req.buffer) base [] ≢ [])
              × (update_failed ≡ false)
              × (upload c loc now req noauth verdict write_failed update_failed result
                  ≡ write_data name (c.pack (pack_document (uploaded name req.buffer)))
                    ∷ set_indexes name (prepare_indexes c loc (uploaded name req.buffer) base [])
                    ∷ send_reply reply
                    ∷ []))
            ⊎ (prepare_indexes c loc (uploaded name req.buffer) base [] ≡ [])
              × (rift ≡ 200)
              × (upload c loc now req noauth verdict write_failed update_failed result
                  ≡ write_data name (c.pack (pack_document (uploaded name req.buffer)))
                    ∷ on_write_finished
                    ∷ []))
  unfolding upload checked on_write_finished_update_index on_index_update_finished
  upload-ok rift req noauth verdict write_failed update_failed result h =
      elim (Bool-cases (not (verdict == 200) && not noauth)) [
        | inl refused ↦ absurd (ground (arith, h, refused))
        | inr allowed ↦ elim (Option-cases req.base_index) [
          | inl missing ↦ absurd (ground (arith, h, allowed, missing))
          | inr (base, eb) ↦ elim (Option-cases req.name) [
            | inl missing ↦ absurd (ground (arith, h, allowed, eb, missing))
            | inr (name, en) ↦
                let wrote : write_failed ≡ false = ground (arith, h, allowed, eb, en) in
                (
                  name,
                  base,
                  en,
                  eb,
                  wrote,
                  elim (List-cases (prepare_indexes c loc (uploaded name req.buffer) base [])) [
                    | inl empty ↦ inr (
                      empty,
                      ground (arith, h, allowed, eb, en, wrote, empty),
                      ground (arith, h, allowed, eb, en, wrote, empty),
                    )
                    | inr (index, indexes, filled) ↦ inl (
                      record {
                        code = 200;
                        content_type = some text_json;
                        content_length = some (length result);
                        last_modified = none;
                        content = result;
                      },
                      λ empty. ground (arith, filled, empty),
                      ground (arith, h, allowed, eb, en, wrote, filled),
                      ground (arith, h, allowed, eb, en, wrote, filled),
                    )
                  ],
                )
          ]
        ]
      ]
