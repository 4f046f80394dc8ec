-- ===== src/Storage/Documents.antt =====
-- Documents survive the store, and errors of the store come back.
use wookie.Base.{
  ◌≡◌, refl, true, false, none, List, [], ◌∷◌, arith, Str, nat_ord, str_ord, Error, ok, err, ℤ,
}
use wookie.MsgPack.{Codec, RoundTrips}
use wookie.Documents
use wookie.Documents.{Document}
use wookie.Documents.RoundTrip.{FitsTime, unpack_document-pack_document}
use wookie.Storage.{
  Session, Elliptics, storage, set_groups, set_namespace, create_session, unpack, write_document,
  read_document,
}

-- What elliptics documents of a write that reports no error: a read through the same session gives
-- the bytes back.
abbrev pub ReadsBack : {Data : Type 0} → Elliptics Data → Type 0
ReadsBack {Data} e =
    (s : Session) (key : Str) (d : Data) (w : e.World)
    → (e.write_data s key d w).1 ≡ none
    → e.read_data s key (e.write_data s key d w).0 ≡ ok d

-- The calls that change `m_sess` after construction.
pub data Setup : Type 0 where
  groups : List ℤ → Setup
  namespace : Str → Setup

pub configure : Session → List Setup → Session
configure s [] = s
configure s (groups g ∷ cs) = configure (set_groups s g) cs
configure s (namespace n ∷ cs) = configure (set_namespace s n) cs

configure_keeps :
    (s : Session) (cs : List Setup)
    → ((configure s cs).throws ≡ s.throws)
      × ((configure s cs).cached ≡ s.cached)
      × ((configure s cs).timeout ≡ s.timeout)
unfolding configure set_groups set_namespace
configure_keeps s [] = (refl, refl, refl)
configure_keeps s (groups g ∷ cs) = configure_keeps (record s { groups = g }) cs
configure_keeps s (namespace n ∷ cs) = configure_keeps (record s { namespace = n }) cs

-- Whatever groups and namespaces are set after construction, and in whatever order, every session
-- that `create_session` hands out throws no exceptions, reads through the cache and waits 1000.
create_session-storage :
    {Data : Type 0} (e : Elliptics Data) (cs : List Setup)
    → (let s = create_session (configure (storage e) cs) in
        (s.throws ≡ false) × (s.cached ≡ true) × (s.timeout ≡ 1000))
unfolding create_session storage
create_session-storage e cs = configure_keeps _ cs

module _ (c : Codec) (e : Elliptics c.Data) (packed : RoundTrips c) (stored : ReadsBack e) where
  -- If msgpack and the store give back what they are given, a document whose time fits and whose
  -- write reports no error is read back unchanged under its key.
  pub read_document-write_document :
      (s : Session) (d : Document) (w : e.World)
      → FitsTime d.ts
      → (write_document c e s d w).1 ≡ none
      → read_document c e s d.key (write_document c e s d w).0 ≡ ok d
  unfolding read_document write_document unpack create_session
  read_document-write_document s d w fits written = ground (
    arith,
    stored s d.key (c.pack (Documents.pack_document d)) w written,
    packed (Documents.pack_document d),
    unpack_document-pack_document d fits,
  )

-- A read that fails throws the code of the store, and nothing is unpacked.
pub read_document-error :
    (c : Codec) (e : Elliptics c.Data) (s : Session) (key : Str) (w : e.World) (code : Error)
    → e.read_data s key w ≡ err code
    → read_document c e s key w ≡ err code
unfolding read_document create_session
read_document-error c e s key w code h = ground (arith, h)
