-- ===== src/Index/Listing.antt =====
-- The objects that the store returns to a search, as documents.
use wookie.Base.{
  ◌≡◌, refl, sym, ap, ap₂, ◌∙◌, Bool, true, false, ◌&&◌, ◌||◌, inl, inr, Bool-cases, Option, none,
  some, List, [], ◌∷◌, Str, str_ord, nat_ord, Map, find, same, same_iff, arith, map, All, contains,
}
use wookie.MsgPack.{Codec}
use wookie.Documents.{Document}
use wookie.Split.{Locale}
use wookie.Split.Positions.{lower_words}
use wookie.Splitter.{prepare_indexes}
use wookie.Storage.{RawId, Session, Entry, Elliptics}
use wookie.Operators.Find.Phrases.{id, entries, holds_all, matching, Fits}
use wookie.Index.{IndexStore}
use wookie.Index.History.{has_all, under, stored_entry, keys, indexes_of}
use wookie.Index.Lookups.{IsSearchable, under-entry_indexes}

module _ (c : Codec) (e : Elliptics c.Data) (store : IndexStore e) (st : Session) (loc : Locale)
    (docs : Map Str (Document × Str)) (tokens : List Str)
    (searchable : (key : Str) (doc : Document) (base : Str)
      → find key docs ≡ some (doc, base)
      → IsSearchable c e store st loc tokens doc base) where
  -- The documents of some keys, with the ids of the keys.
  abbrev pub with_doc :
      RawId → Option (Document × Str) → List (RawId × Document) → List (RawId × Document)
  with_doc doc_id none rest = rest
  with_doc doc_id (some (doc, base)) rest = (doc_id, doc) ∷ rest

  abbrev pub docs_of : List Str → List (RawId × Document)
  docs_of [] = []
  docs_of (key ∷ ks) = with_doc (id c e loc st key) (find key docs) (docs_of ks)

  with_doc-Fits :
      (key : Str) (o : Option (Document × Str)) (rest : List (RawId × Document))
      → find key docs ≡ o
      → Fits c e loc st rest
      → Fits c e loc st (with_doc (id c e loc st key) o rest)
  with_doc-Fits key none rest h fits = fits
  with_doc-Fits key (some (doc, base)) rest h fits =
      let v = searchable key doc base h in ((v.time, v.short), fits)

  pub docs_of-Fits : (ks : List Str) → Fits c e loc st (docs_of ks)
  docs_of-Fits [] = tt
  docs_of-Fits (key ∷ ks) = with_doc-Fits key (find key docs) (docs_of ks) refl (docs_of-Fits ks)

  entries-with_doc :
      (key : Str) (indexes : List (Str × c.Data)) (o : Option (Document × Str))
      (others : List (Entry c.Data)) (rest : List (RawId × Document))
      → find key docs ≡ o
      → indexes_of c loc o ≡ some indexes
      → others ≡ entries c e loc st tokens rest
      → stored_entry c e store st tokens (key, indexes) ∷ others
        ≡ entries c e loc st tokens (with_doc (id c e loc st key) o rest)
  entries-with_doc key indexes none others rest h has same_rest = cc
  entries-with_doc key indexes (some (doc, base)) others rest h has same_rest =
      let v = searchable key doc base h in
      let same_indexes : prepare_indexes c loc doc base [] ≡ indexes = ground (arith, has) in
      ap₂ ◌∷◌
        (ap (λ is. record { id = id c e loc st key; indexes = is })
          (ap (under c e store st tokens) (sym same_indexes)
            ∙ under-entry_indexes c e store st loc doc base v.some_text tokens v.other_base))
        same_rest

  -- What the store says of objects are the entries of their documents.
  pub entries-docs_of :
      (objects : List (Str × List (Str × c.Data)))
      → All
          (λ (key, indexes).
            (indexes_of c loc (find key docs) ≡ some indexes) × (has_all tokens indexes ≡ true))
          objects
      → map (stored_entry c e store st tokens) objects
        ≡ entries c e loc st tokens (docs_of (keys c e store st objects))
  entries-docs_of [] sound = refl
  entries-docs_of ((key, indexes) ∷ objects) sound =
      entries-with_doc key indexes (find key docs) (map (stored_entry c e store st tokens) objects)
        (docs_of (keys c e store st objects)) refl sound.0.0 (entries-docs_of objects sound.1)

  -- Whether a document of the name has every quoted text.
  abbrev pub quotes_in : List Str → Option (Document × Str) → Bool
  quotes_in texts none = false
  quotes_in texts (some (doc, base)) = holds_all c e loc st texts (lower_words loc doc.body)

  module _ (injective : (a b : Str) → id c e loc st a ≡ id c e loc st b → a ≡ b) where
    contains-with_doc :
        (name : Str) (texts : List Str) (key : Str) (o : Option (Document × Str))
        (rest : List (RawId × Document)) (later : Bool)
        → find key docs ≡ o
        → contains (id c e loc st name) (matching c e loc st texts rest)
          ≡ (later && quotes_in texts (find name docs))
        → contains
            (id c e loc st name)
            (matching c e loc st texts (with_doc (id c e loc st key) o rest))
          ≡ ((same name key || later) && quotes_in texts (find name docs))
    contains-with_doc name texts key none rest later h behind = elim (Bool-cases (same name key)) [
      | inr other ↦ rw other behind
      | inl this ↦
          let e1 : name ≡ key = (same_iff name key).0 this in
          let none_there : find name docs ≡ none = ap (λ k. find k docs) e1 ∙ h in
          ground (arith, behind, none_there, Bool-cases later)
    ]
    contains-with_doc name texts key (some (doc, base)) rest later h behind =
        elim (Bool-cases (same name key)) [
          | inl this ↦
              let e1 : name ≡ key = (same_iff name key).0 this in
              let there : find name docs ≡ some (doc, base) = ap (λ k. find k docs) e1 ∙ h in
              let same_id =
                (same_iff (id c e loc st name) (id c e loc st key)).1 (ap (id c e loc st) e1) in
              ground (
                arith,
                this,
                behind,
                there,
                same_id,
                Bool-cases later,
                Bool-cases (holds_all c e loc st texts (lower_words loc doc.body)),
              )
          | inr other ↦
              let other_id : same (id c e loc st name) (id c e loc st key) ≡ false = ground (
                arith,
                other,
                same_iff name key,
                injective name key,
                same_iff (id c e loc st name) (id c e loc st key),
              ) in
              ground (
                arith,
                other,
                behind,
                other_id,
                Bool-cases (holds_all c e loc st texts (lower_words loc doc.body)),
              )
        ]

    pub contains-matching :
        (name : Str) (texts : List Str) (ks : List Str)
        → contains (id c e loc st name) (matching c e loc st texts (docs_of ks))
          ≡ (contains name ks && quotes_in texts (find name docs))
    contains-matching name texts [] = refl
    contains-matching name texts (key ∷ ks) =
        contains-with_doc name texts key (find key docs) (docs_of ks) (contains name ks) refl
          (contains-matching name texts ks)
