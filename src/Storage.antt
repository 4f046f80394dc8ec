-- ===== src/Storage.antt =====
-- include/wookie/storage.hpp and lib/storage.cpp: documents in elliptics, a replicated key-value
-- store with secondary indexes, which is a parameter.
pub mod Documents
mod Tests
use wookie.Base.{
  ◌>>=◌, ℕ, Bool, true, false, Option, List, [], ◌∷◌, Str, nat_ord, str_ord, Result, ℤ,
}
use wookie.MsgPack.{Codec}
use wookie.Documents.{Time, Document, pack_document, unpack_document}

-- `dnet_raw_id`: the bytes of a key.
abbrev pub RawId : Type 0
RawId = Str

-- `elliptics::session`, as far as the program configures it.
pub record Session : Type 0 where
  pub groups : List ℤ
  pub namespace : Str
  pub throws : Bool
  pub cached : Bool
  pub timeout : ℕ

-- An entry of `find_all_indexes`: an object's id with the data stored under each index asked for.
pub record Entry (Data : Type 0) : Type 0 where
  pub id : RawId
  pub indexes : List (RawId × Data)

-- What the program uses of elliptics, each asynchronous call taken together with the wait for its
-- result: `World` is the state of the store, and a failed call has an error code.
pub record Elliptics (Data : Type 0) : Type 1 where
  pub World : Type 0
  pub new_session : Session
  pub transform : Session → Str → RawId
  pub write_data : Session → Str → Data → World → World × Option ℕ
  pub read_data : Session → Str → World → Result Data
  pub find_all_indexes : Session → List RawId → World → Result (List (Entry Data))

-- `storage::storage`, which configures `m_sess`.
pub storage : {Data : Type 0} → Elliptics Data → Session
storage e = record e.new_session { throws = false; cached = true; timeout = 1000 }

pub set_groups : Session → List ℤ → Session
set_groups m_sess groups = record m_sess { groups = groups }

pub set_namespace : Session → Str → Session
set_namespace m_sess ns = record m_sess { namespace = ns }

-- `create_session` clones `m_sess`.
pub create_session : Session → Session
create_session m_sess = m_sess

module _ (c : Codec) where
  -- The two `pack_document`s and `unpack_document`.
  pub pack : Document → c.Data
  pack doc = c.pack (pack_document doc)

  pub pack_page : Time → Str → Str → c.Data
  unfolding pack
  pack_page now url text = pack (record { ts = now; key = url; body = text })

  unfoldable pub unpack : c.Data → Result Document
  unpack result = do o ← c.unpack result; unpack_document o

  module _ (e : Elliptics c.Data) where
    pub write_document : Session → Document → e.World → e.World × Option ℕ
    unfolding create_session
    write_document m_sess d = e.write_data (create_session m_sess) d.key (c.pack (pack_document d))

    pub read_data : Session → Str → e.World → Result c.Data
    unfolding create_session
    read_data m_sess key = e.read_data (create_session m_sess) key

    -- A failed read is thrown with its code.
    pub read_document : Session → Str → e.World → Result Document
    unfolding read_data
    read_document m_sess key w = do bytes ← read_data m_sess key w; unpack bytes

    unfoldable pub transform_tokens : Session → List Str → List RawId
    unfolding create_session
    transform_tokens m_sess [] = []
    transform_tokens m_sess (t ∷ ts) =
        e.transform (create_session m_sess) t ∷ transform_tokens m_sess ts

    -- The two `find`s: by token, whose names the session transforms itself, and by raw id.
    pub find_tokens : Session → List Str → e.World → Result (List (Entry c.Data))
    unfolding create_session transform_tokens
    find_tokens m_sess indexes =
        e.find_all_indexes (create_session m_sess) (transform_tokens m_sess indexes)

    pub find_ids : Session → List RawId → e.World → Result (List (Entry c.Data))
    unfolding create_session
    find_ids m_sess indexes = e.find_all_indexes (create_session m_sess) indexes
