-- ===== src/Index/Search.antt =====
-- A search after any uploads, for what `prepare` makes of the request.
use wookie.Base.{
  ℕ, ◌≡◌, refl, sym, ap, ◌∙◌, ◌<◌, Bool, true, false, ◌&&◌, inl, inr, Bool-cases, Option, none,
  some, List, [], ◌∷◌, Str, str_ord, nat_ord, Map, find, same, same_iff, arith, All, contains, ok,
  length,
}
use wookie.MsgPack.{Codec, RoundTrips}
use wookie.Documents.{Document}
use wookie.Split.{Locale}
use wookie.Split.Positions.{lower_words}
use wookie.Splitter.{prepare_indexes}
use wookie.Storage.{RawId, Session, Elliptics}
use wookie.Operators.Scan.{FindRequest, prepare}
use wookie.Operators.Scan.Quotes.{quoted}
use wookie.Operators.Find.Phrases.{id, tokens_of, holds_all, matching}
use wookie.Operators.Find.Search.{asked, find-matching_parts}
use wookie.Index.{IndexStore}
use wookie.Index.History.{has_all, keys, IsAnswer, IsIndexing, Served, indexes_of, Served-held}
use wookie.Index.Lookups.{all_in, IsSearchable, has_all-all_in}
use wookie.Index.Listing.{docs_of, quotes_in, docs_of-Fits, entries-docs_of, contains-matching}
use wookie.Operators.Find

module _ (c : Codec) (e : Elliptics c.Data) (store : IndexStore e) (st : Session)
    (loc : Locale) where
  -- Whether the document of a name, if there is one, has every token and every quoted text.
  abbrev pub holds_parts : List Str → List Str → Option (Document × Str) → Bool
  holds_parts tokens texts none = false
  holds_parts tokens texts (some (doc, base)) =
      all_in tokens (lower_words loc doc.body)
      && holds_all c e loc st texts (lower_words loc doc.body)

  -- A key among the objects is that of one of them.
  listed :
      (tokens : List Str) (w : e.World) (objects : List (Str × List (Str × c.Data))) (key : Str)
      → All
          (λ (key, indexes). (store.held w key ≡ some indexes) × (has_all tokens indexes ≡ true))
          objects
      → contains key (keys c e store st objects) ≡ true
      → (indexes : List (Str × c.Data)) × (store.held w key ≡ some indexes)
        × (has_all tokens indexes ≡ true)
  listed tokens w [] key sound there = cc
  listed tokens w ((k, indexes) ∷ objects) key sound there = elim (Bool-cases (same key k)) [
    | inl this ↦ (indexes, ap (store.held w) ((same_iff key k).0 this) ∙ sound.0.0, sound.0.1)
    | inr other ↦ listed tokens w objects key sound.1 (ground (arith, there, other))
  ]

  module _ (docs : Map Str (Document × Str)) (tokens : List Str) (w : e.World)
      (held : (k : Str) → store.held w k ≡ indexes_of c loc (find k docs))
      (searchable : (key : Str) (doc : Document) (base : Str)
        → find key docs ≡ some (doc, base)
        → IsSearchable c e store st loc tokens doc base)
      (a : IsAnswer c e store st tokens w) where
    contains-keys :
        (name : Str) (o : Option (Document × Str))
        → find name docs ≡ o
        → contains name (keys c e store st a.objects)
          ≡ elim o [ none ↦ false | some (doc, base) ↦ all_in tokens (lower_words loc doc.body) ]
    contains-keys name none h = elim (Bool-cases (contains name (keys c e store st a.objects))) [
      | inr absent ↦ absent
      | inl there ↦
          let (indexes, has, all) = listed tokens w a.objects name a.sound there in
          absurd (ground (arith, has, held name, h))
    ]
    contains-keys name (some (doc, base)) h =
        let v = searchable name doc base h in
        let indexes = prepare_indexes c loc doc base [] in
        let has : store.held w name ≡ some indexes = held name ∙ ap (indexes_of c loc) h in
        let all = has_all-all_in c e store st loc doc base v.some_text tokens v.other_base in
        elim (Bool-cases (contains name (keys c e store st a.objects))) [
          | inl there ↦
              let (found, has', all') = listed tokens w a.objects name a.sound there in
              let same_indexes : indexes ≡ found = ground (arith, has, has') in
              there ∙ sym all' ∙ ap (has_all tokens) (sym same_indexes) ∙ all
          | inr absent ↦ elim (Bool-cases (has_all tokens indexes)) [
            | inl every ↦ absurd (ground (arith, absent, a.complete name indexes has every))
            | inr lacks ↦ absent ∙ sym lacks ∙ all
          ]
        ]

    sound_documents :
        (objects : List (Str × List (Str × c.Data)))
        → All
            (λ (key, indexes). (store.held w key ≡ some indexes) × (has_all tokens indexes ≡ true))
            objects
        → All
            (λ (key, indexes).
              (indexes_of c loc (find key docs) ≡ some indexes) × (has_all tokens indexes ≡ true))
            objects
    sound_documents [] sound = tt
    sound_documents ((key, indexes) ∷ objects) sound =
        ((sym (held key) ∙ sound.0.0, sound.0.1), sound_documents objects sound.1)

  -- The search after any uploads, in terms of what `prepare` returns.
  pub find-Served_parts :
      (sess : Session) (rift : ℕ) (text name : Str) {r : FindRequest} {w : e.World}
      {docs : Map Str (Document × Str)}
      → IsIndexing c e store st sess
      → RoundTrips c
      → ((a b : Str) → id c e loc st a ≡ id c e loc st b → a ≡ b)
      → Served c e store st loc sess rift w docs
      → prepare text ≡ some r
      → All (λ q. 0 < length (tokens_of c e loc st q)) r.quotes
      → 0 < length (asked c e loc st r)
      → ((key : Str) (doc : Document) (base : Str)
          → find key docs ≡ some (doc, base)
          → IsSearchable c e store st loc (asked c e loc st r) doc base)
      → (ids : List RawId) × (Find.find c e loc st text w ≡ ok (ids, none))
        × (contains (id c e loc st name) ids
            ≡ holds_parts (asked c e loc st r) (quoted text) (find name docs))
  find-Served_parts sess rift text name {r} {w} {docs} law rt injective served parts words
        some_token searchable =
      let tokens = asked c e loc st r in
      let held = Served-held c e store st loc sess rift law served in
      let a = law.found tokens w some_token in
      let ks = keys c e store st a.objects in
      let listing = docs_of c e store st loc docs tokens searchable ks in
      let returned =
        a.answer
        ∙ ap ok (
            entries-docs_of c e store st loc docs tokens searchable a.objects
              (sound_documents docs tokens w held searchable a a.objects a.sound)) in
      (
        matching c e loc st (quoted text) listing,
        find-matching_parts c e loc st text w listing injective rt parts words returned
            (docs_of-Fits c e store st loc docs tokens searchable ks),
        contains-matching c e store st loc docs tokens searchable injective name (quoted text) ks
            ∙ ap
                (λ b.
                  b
                  && quotes_in c e store st loc docs tokens searchable (quoted text)
                      (find name docs))
                (contains-keys docs tokens w held searchable a name (find name docs) refl)
            ∙ both (find name docs),
      )
    where
      both :
          (o : Option (Document × Str))
          → (elim o [
            | none ↦ false
            | some (doc, base) ↦ all_in (asked c e loc st r) (lower_words loc doc.body)
          ]
              && quotes_in c e store st loc docs (asked c e loc st r) searchable (quoted text) o)
            ≡ holds_parts (asked c e loc st r) (quoted text) o
      both none = refl
      both (some (doc, base)) = refl
