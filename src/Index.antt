-- ===== src/Index.antt =====
-- The upload of httpserver/server.cpp, with elliptics behind it: `checked`, the write of the
-- document, and the update of its indexes, each given what the call before it answered.
pub mod Served
pub mod History
pub mod Lookups
pub mod Listing
pub mod Search
pub mod Answers
pub mod Memory
mod Tests
use wookie.Base.{ℕ, Bool, true, false, Option, none, some, List, [], ◌∷◌, is_some, Str}
use wookie.MsgPack.{Codec}
use wookie.Documents.{Time, pack_document}
use wookie.Split.{Locale}
use wookie.Splitter.{prepare_indexes}
use wookie.Storage.{Session, Elliptics}
use wookie.Http.{Request, Action, OnUpload, checked, upload}

-- `session::set_indexes` of elliptics, with the wait for its result, and what an object then has:
-- its indexes with the data under each, by the object's key.
pub record IndexStore {Data : Type 0} (e : Elliptics Data) : Type 0 where
  pub set_indexes : Session → Str → List (Str × Data) → e.World → e.World × Option ℕ
  pub held : e.World → Str → Option (List (Str × Data))

module _ (c : Codec) (e : Elliptics c.Data) (store : IndexStore e) (loc : Locale)
    (sess : Session) where
  -- The update, unless the write failed or there is nothing to update.
  abbrev pub update_indexes : Bool → Str → List (Str × c.Data) → e.World → e.World × Option ℕ
  update_indexes true key indexes w = (w, none)
  update_indexes false key [] w = (w, none)
  update_indexes false key (index ∷ indexes) w = store.set_indexes sess key (index ∷ indexes) w

  -- The world after both calls, and whether the write and the update failed.
  abbrev pub store_upload : OnUpload → e.World → e.World × (Bool × Bool)
  store_upload s w =
      let (written, write_error) =
        e.write_data sess s.m_doc.key (c.pack (pack_document s.m_doc)) w in
      let indexes = prepare_indexes c loc s.m_doc s.m_base_index [] in
      let (updated, update_error) =
        update_indexes (is_some write_error) s.m_doc.key indexes written in
      (updated, (is_some write_error, is_some update_error))

  -- What follows `checked`, with the state that it leaves.
  abbrev pub after_checked :
      Time → Request → Bool → ℕ → Str → e.World → Option OnUpload → e.World × List (Action c.Data)
  after_checked now req noauth verdict result w none =
      (w, upload c loc now req noauth verdict false false result)
  after_checked now req noauth verdict result w (some s) =
      let (w', (write_failed, update_failed)) = store_upload s w in
      (w', upload c loc now req noauth verdict write_failed update_failed result)

  -- A request to upload, from `checked` to the reply.
  unfoldable pub serve : Time → Request → Bool → ℕ → Str → e.World → e.World × List (Action c.Data)
  unfolding checked
  serve now req noauth verdict result w =
      after_checked now req noauth verdict result w (checked c now req noauth verdict).0
