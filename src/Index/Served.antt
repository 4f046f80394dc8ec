-- ===== src/Index/Served.antt =====
-- The documents that a server has taken, and what the store then holds of them.
use wookie.Base.{
  ℕ, ◌==◌, ◌≡◌, ◌≢◌, ◌⊎◌, refl, sym, ap, subst, ◌∙◌, Bool, true, false, not, ◌&&◌, Bool-cases, inl,
  inr, Option, none, some, Option-cases, List-cases, List, [], ◌∷◌, is_some, Str, str_ord, nat_ord,
  arith,
}
use wookie.MsgPack.{Codec}
use wookie.Documents.{Time, Document, pack_document}
use wookie.Split.{Locale}
use wookie.Splitter.{prepare_indexes}
use wookie.Storage.{Session, Elliptics}
use wookie.Http.{
  Request, OnUpload, checked, on_write_finished_update_index, on_index_update_finished, upload,
}
use wookie.Http.Upload.{replies, uploaded, upload-ok}
use wookie.Index.{IndexStore, after_checked, update_indexes, store_upload, serve}

module _ (c : Codec) (e : Elliptics c.Data) (store : IndexStore e) (loc : Locale) (sess : Session)
    (rift : ℕ) where
  -- The write was made, and the update, unless there is no index; none failed.
  pub record IsStored (doc : Document) (base : Str) (before after : e.World) : Type 0 where
    pub between : e.World
    pub written : e.write_data sess doc.key (c.pack (pack_document doc)) before ≡ (between, none)
    pub indexed :
        (prepare_indexes c loc doc base [] ≢ [])
          × (store.set_indexes sess doc.key (prepare_indexes c loc doc base []) between
              ≡ (after, none))
        ⊎ (prepare_indexes c loc doc base [] ≡ []) × (between ≡ after)

  update-IsStored :
      (doc : Document) (base : Str) (w between : e.World) (indexes : List (Str × c.Data))
      → prepare_indexes c loc doc base [] ≡ indexes
      → e.write_data sess doc.key (c.pack (pack_document doc)) w ≡ (between, none)
      → is_some (update_indexes c e store loc sess false doc.key indexes between).1 ≡ false
      → IsStored doc base w (update_indexes c e store loc sess false doc.key indexes between).0
  update-IsStored doc base w between [] prepared written no_error = record {
    between = between;
    written = written;
    indexed = inr (prepared, refl);
  }
  update-IsStored doc base w between (index ∷ indexes) prepared written no_error =
      elim (Option-cases (store.set_indexes sess doc.key (index ∷ indexes) between).1) [
        | inr (code, failed) ↦ absurd (ground (arith, failed, no_error))
        | inl fine ↦ record {
          between = between;
          written = written;
          indexed = inl (
            λ empty. ground (arith, prepared, empty),
            ap (λ is. store.set_indexes sess doc.key is between) prepared
                ∙ ap (λ o. ((store.set_indexes sess doc.key (index ∷ indexes) between).0, o)) fine,
          );
        }
      ]

  abbrev made : Document → Str → OnUpload
  made doc base = record { m_base_index = base; m_doc = doc }

  store_upload-IsStored :
      (doc : Document) (base : Str) (w : e.World)
      → (store_upload c e store loc sess (made doc base) w).1.0 ≡ false
      → (store_upload c e store loc sess (made doc base) w).1.1 ≡ false
      → IsStored doc base w (store_upload c e store loc sess (made doc base) w).0
  store_upload-IsStored doc base w wrote updated =
      let write = e.write_data sess doc.key (c.pack (pack_document doc)) w in
      let indexes = prepare_indexes c loc doc base [] in
      subst
        (λ b. IsStored doc base w (update_indexes c e store loc sess b doc.key indexes write.0).0)
        (sym wrote)
        (update-IsStored doc base w write.0 indexes refl
          (ap (λ o. (write.0, o)) (no_code write.1 wrote))
          (subst
            (λ b. is_some (update_indexes c e store loc sess b doc.key indexes write.0).1 ≡ false)
            wrote updated))
    where
      no_code : (o : Option ℕ) → is_some o ≡ false → o ≡ none
      no_code none h = refl
      no_code (some code) h = cc

  -- Without an index there is no update that could fail.
  no_update :
      (doc : Document) (base : Str) (w : e.World)
      → prepare_indexes c loc doc base [] ≡ []
      → (store_upload c e store loc sess (made doc base) w).1.1 ≡ false
  no_update doc base w empty =
      let write = e.write_data sess doc.key (c.pack (pack_document doc)) w in
      ap (λ is. is_some (update_indexes c e store loc sess (is_some write.1) doc.key is write.0).1)
        empty
      ∙ either (is_some write.1) write.0
    where
      either :
          (b : Bool) (between : e.World)
          → is_some (update_indexes c e store loc sess b doc.key [] between).1 ≡ false
      either true between = refl
      either false between = refl

  made_state :
      (now : Time) (req : Request) (noauth : Bool) (verdict : ℕ) {name base : Str}
      → (not (verdict == 200) && not noauth) ≡ false
      → req.base_index ≡ some base
      → req.name ≡ some name
      → (checked c now req noauth verdict).0 ≡ some (made (uploaded c loc now name req.buffer) base)
  unfolding checked
  made_state now req noauth verdict allowed eb en = ground (arith, allowed, eb, en)

  -- An upload that is replied to with 200 was stored, with its indexes if it has any.
  pub serve-ok :
      (now : Time) (req : Request) (noauth : Bool) (verdict : ℕ) (result : Str) (w : e.World)
      → replies rift (serve c e store loc sess now req noauth verdict result w).1 ≡ 200 ∷ []
      → (name : Str) × (base : Str) × (req.name ≡ some name)
        × (req.base_index ≡ some base)
        × IsStored
            (uploaded c loc now name req.buffer)
            base
            w
            (serve c e store loc sess now req noauth verdict result w).0
  unfolding serve checked upload on_write_finished_update_index on_index_update_finished
  serve-ok now req noauth verdict result w h =
      elim (Bool-cases (not (verdict == 200) && not noauth)) [
        | inl refused ↦ absurd (ground (arith, h, refused))
        | inr allowed ↦ elim (Option-cases req.base_index) [
          | inl missing ↦ absurd (ground (arith, h, allowed, missing))
          | inr (base, eb) ↦ elim (Option-cases req.name) [
            | inl missing ↦ absurd (ground (arith, h, allowed, eb, missing))
            | inr (name, en) ↦
                let doc = uploaded c loc now name req.buffer in
                let state = made_state now req noauth verdict allowed eb en in
                let stored = store_upload c e store loc sess (made doc base) w in
                let replied : replies rift
                      (upload c loc now req noauth verdict stored.1.0 stored.1.1 result)
                    ≡ 200 ∷ [] =
                  subst
                    (λ o.
                      replies rift
                        (after_checked c e store loc sess now req noauth verdict result w o).1
                      ≡ 200 ∷ [])
                    state h in
                let (n, b, has_name, has_base, wrote, shape) =
                  upload-ok c loc now rift req noauth verdict stored.1.0 stored.1.1 result
                    replied in
                let updated : stored.1.1 ≡ false =
                  elim (List-cases (prepare_indexes c loc doc base [])) [
                    | inl empty ↦ no_update doc base w empty
                    | inr (index, indexes, filled) ↦
                        ground (arith, replied, allowed, eb, en, wrote, filled)
                  ] in
                (
                  name,
                  base,
                  en,
                  eb,
                  subst
                      (λ o.
                        IsStored doc base w
                          (after_checked c e store loc sess now req noauth verdict result w o).0)
                      (sym state) (store_upload-IsStored doc base w wrote updated),
                )
          ]
        ]
      ]
