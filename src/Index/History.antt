-- ===== src/Index/History.antt =====
-- The uploads that a server has served, and what the store then holds.
use wookie.Base.{
  ℕ, ◌≡◌, ◌≢◌, inl, inr, refl, sym, ap, subst, ◌∙◌, ◌<◌, Bool, true, false, ◌&&◌, Option, none,
  some, List, [], ◌∷◌, is_some, Str, str_ord, nat_ord, Map, find, assign, find-assign, str_eq,
  if◌then◌else◌, arith, map, All, contains, ok, length,
}
use wookie.MsgPack.{Codec}
use wookie.Documents.{Time, Document, pack_document}
use wookie.Split.{Locale}
use wookie.Splitter.{prepare_indexes}
use wookie.Storage.{RawId, Session, Entry, Elliptics, create_session, transform_tokens}
use wookie.Http.{Request, checked}
use wookie.Http.Upload.{replies, uploaded}
use wookie.Index.{IndexStore, after_checked, serve}
use wookie.Index.Served.{IsStored, serve-ok}

-- The object has an index for every token.
abbrev pub has_all {ℓ} : {V : Type ℓ} → List Str → List (Str × V) → Bool
has_all [] indexes = true
has_all (t ∷ tokens) indexes = is_some (find t indexes) && has_all tokens indexes

-- The indexes of an uploaded document with its base index, if there is one.
abbrev pub indexes_of :
    (c : Codec) → Locale → Option (Document × Str) → Option (List (Str × c.Data))
indexes_of c loc none = none
indexes_of c loc (some (doc, base)) = some (prepare_indexes c loc doc base [])

module _ (c : Codec) (e : Elliptics c.Data) (store : IndexStore e) (st : Session) where
  -- What an object has under some tokens, as `find_all_indexes` returns it.
  abbrev pub under : List Str → List (Str × c.Data) → List (RawId × c.Data)
  under [] indexes = []
  under (t ∷ tokens) indexes = elim (find t indexes) [
    | none ↦ under tokens indexes
    | some bytes ↦ (e.transform (create_session st) t, bytes) ∷ under tokens indexes
  ]

  abbrev pub stored_entry : List Str → Str × List (Str × c.Data) → Entry c.Data
  stored_entry tokens (key, indexes) = record {
    id = e.transform (create_session st) key;
    indexes = under tokens indexes;
  }

  abbrev pub keys : List (Str × List (Str × c.Data)) → List Str
  keys [] = []
  keys ((key, indexes) ∷ objects) = key ∷ keys objects

  -- The answer to a search for some tokens: the objects that have an index for each, in any order.
  pub record IsAnswer (tokens : List Str) (w : e.World) : Type 0 where
    pub objects : List (Str × List (Str × c.Data))
    pub sound :
        All
          (λ (key, indexes). (store.held w key ≡ some indexes) × (has_all tokens indexes ≡ true))
          objects
    pub complete :
        (key : Str) (indexes : List (Str × c.Data))
        → store.held w key ≡ some indexes
        → has_all tokens indexes ≡ true
        → contains key (keys objects) ≡ true
    pub answer :
        e.find_all_indexes (create_session st) (transform_tokens c e st tokens) w
        ≡ ok (map (stored_entry tokens) objects)

  -- What elliptics documents of these calls, for a session `sess` that writes and one that searches
  -- and names that mean the same to both: a write leaves the indexes alone, an update replaces those
  -- of its object, and a search for some tokens answers with the objects that have them all.
  pub record IsIndexing (sess : Session) : Type 0 where
    pub held-write :
        (key : Str) (bytes : c.Data) (w w' : e.World)
        → e.write_data sess key bytes w ≡ (w', none)
        → (k : Str) → store.held w' k ≡ store.held w k
    pub held-set :
        (key : Str) (indexes : List (Str × c.Data)) (w w' : e.World)
        → store.set_indexes sess key indexes w ≡ (w', none)
        → (k : Str) → store.held w' k ≡ (if str_eq k key then some indexes else store.held w k)
    pub found : (tokens : List Str) (w : e.World) → 0 < length tokens → IsAnswer tokens w

  module _ (loc : Locale) (sess : Session) (rift : ℕ) where
    -- The documents with their base indexes, by name, when one with some indexes is uploaded: the
    -- last that had an index.
    abbrev pub latest :
        Document → Str → Map Str (Document × Str) → List (Str × c.Data) → Map Str (Document × Str)
    latest doc base docs [] = docs
    latest doc base docs (index ∷ indexes) = assign doc.key (doc, base) docs

    -- The worlds that uploads lead to, each refused before it is written or replied to with 200,
    -- with the last document that had an index, and its base index, of each name. `rift` is the code
    -- of rift's own reply, which an upload without an index is given.
    pub data Served : e.World → Map Str (Document × Str) → Type 0 where
      fresh : (w : e.World) → ((key : Str) → store.held w key ≡ none) → Served w []
      taken :
          {w : e.World} {docs : Map Str (Document × Str)} (now : Time) (req : Request)
          (noauth : Bool) (verdict : ℕ) (result name base : Str)
          → Served w docs
          → req.name ≡ some name
          → req.base_index ≡ some base
          → replies rift (serve c e store loc sess now req noauth verdict result w).1 ≡ 200 ∷ []
          → Served (serve c e store loc sess now req noauth verdict result w).0 (
              latest
                (uploaded c loc now name req.buffer)
                base
                docs
                (prepare_indexes c loc (uploaded c loc now name req.buffer) base []))
      refused :
          {w : e.World} {docs : Map Str (Document × Str)} (now : Time) (req : Request)
          (noauth : Bool) (verdict : ℕ) (result : Str)
          → Served w docs
          → (checked c now req noauth verdict).0 ≡ none
          → Served (serve c e store loc sess now req noauth verdict result w).0 docs

    stored-held :
        (doc : Document) (base : Str) (before after : e.World) (docs : Map Str (Document × Str))
        → IsIndexing sess
        → IsStored c e store loc sess rift doc base before after
        → ((k : Str) → store.held before k ≡ indexes_of c loc (find k docs))
        → (k : Str)
        → store.held after k
          ≡ indexes_of c loc (find k (latest doc base docs (prepare_indexes c loc doc base [])))
    stored-held doc base before after docs law stored held_before k = elim stored.indexed [
      | inr (empty, same_world) ↦
          ap (λ w. store.held w k) (sym same_world)
          ∙ law.held-write doc.key (c.pack (pack_document doc)) before stored.between stored.written
              k
          ∙ held_before k
          ∙ ap (λ is. indexes_of c loc (find k (latest doc base docs is))) (sym empty)
      | inl (filled, set) ↦
          let indexes = prepare_indexes c loc doc base [] in
          law.held-set doc.key indexes stored.between after set k
          ∙ ap (λ o. if str_eq k doc.key then some indexes else o)
              (law.held-write doc.key (c.pack (pack_document doc)) before stored.between
                  stored.written k
                ∙ held_before k)
          ∙ either (str_eq k doc.key)
          ∙ ap (indexes_of c loc) (sym (find-assign k doc.key (doc, base) docs))
          ∙ ap (λ docs. indexes_of c loc (find k docs)) (sym (assigned indexes filled))
    ]
      where
        assigned :
            (indexes : List (Str × c.Data))
            → indexes ≢ []
            → latest doc base docs indexes ≡ assign doc.key (doc, base) docs
        assigned [] filled = absurd (filled refl)
        assigned (index ∷ indexes) filled = refl

        either :
            (b : Bool)
            → (if b
                then some (prepare_indexes c loc doc base [])
                else indexes_of c loc (find k docs))
              ≡ indexes_of c loc (if b then some (doc, base) else find k docs)
        either true = refl
        either false = refl

    -- When the store does what elliptics documents: after any uploads, each refused before it is
    -- written or replied to with 200, the store holds under every name the indexes of the last
    -- document with the name that had an index, and none under a name without such a document. So
    -- an upload without an index, which rift replies to, leaves the indexes that are there.
    pub Served-held :
        {w : e.World} {docs : Map Str (Document × Str)}
        → IsIndexing sess
        → Served w docs
        → (k : Str) → store.held w k ≡ indexes_of c loc (find k docs)
    unfolding serve
    Served-held law (fresh w nothing) k = nothing k
    Served-held law (refused {w = before} now req noauth verdict result served none_made) k =
        ap
          (λ o.
            store.held (after_checked c e store loc sess now req noauth verdict result before o).0
              k)
          none_made
        ∙ Served-held law served k
    Served-held law
          (taken {w = before} {docs = docs} now req noauth verdict result name base served en eb
            replied)
          k =
        let (n, b, en', eb', stored) =
          serve-ok c e store loc sess rift now req noauth verdict result before replied in
        let same_name : n ≡ name = ground (arith, en, en') in
        let same_base : b ≡ base = ground (arith, eb, eb') in
        let after = (serve c e store loc sess now req noauth verdict result before).0 in
        stored-held (uploaded c loc now name req.buffer) base before after docs law
          (subst
            (λ n.
              IsStored c e store loc sess rift (uploaded c loc now n req.buffer) base before after)
            same_name
            (subst
              (λ b.
                IsStored c e store loc sess rift (uploaded c loc now n req.buffer) b before after)
              same_base stored))
          (Served-held law served) k
