-- ===== src/Splitter/Indexes.antt =====
-- What the reverse indexes of a document hold.
use wookie.Base.{
  ℕ, ◌≡◌, ◌≢◌, refl, ap, ◌∙◌, false, Option, none, some, List, [], ◌∷◌, ◌++◌, arith, if◌then◌else◌,
  Str, nat_ord, str_ord, str_eq, str_eq_iff, same_iff, Map, find,
}
use wookie.MsgPack.{Codec}
use wookie.Documents.{Time, Document, pack_document}
use wookie.Split.{Locale, feed}
use wookie.Split.Positions.{lower_words, positions_from, nonempty, find-feed}
use wookie.Splitter.{convert, token_indexes, prepare_content, prepare_indexes}

find-append :
    {V : Type 0} (t : Str) (xs ys : List (Str × V))
    → find t (xs ++ ys) ≡ elim (find t xs) [ none ↦ find t ys | some v ↦ some v ]
find-append t [] ys = refl
find-append t ((u, v) ∷ xs) ys = ground (arith, find-append t xs ys)

module _ (c : Codec) where
  -- The data of a token's index.
  abbrev pub index_of : Time → Str → Option (List ℕ) → Option c.Data
  index_of ts t none = none
  index_of ts t (some ps) = some (convert c (record { ts = ts; key = t; positions = ps }))

  find-token_indexes :
      (ts : Time) (t : Str) (m : Map Str (List ℕ))
      → find t (token_indexes c ts m) ≡ index_of ts t (find t m)
  find-token_indexes ts t [] = refl
  find-token_indexes ts t ((u, ps) ∷ m) = ground (arith, find-token_indexes ts t m, same_iff t u)

  -- A lookup in the tokens' indexes with others behind them.
  find_behind :
      (loc : Locale) (ts : Time) (t text : Str) (others : List (Str × c.Data))
      → find t (token_indexes c ts (feed loc text []).0 ++ others)
        ≡ elim (index_of ts t (nonempty (positions_from 0 t (lower_words loc text)))) [
          | none ↦ find t others
          | some v ↦ some v
        ]
  find_behind loc ts t text others =
      find-append t (token_indexes c ts (feed loc text []).0) others
      ∙ ap (λ o. elim o [ none ↦ find t others | some v ↦ some v ])
          (find-token_indexes ts t (feed loc text []).0
            ∙ ap (index_of ts t) (find-feed loc text [] t))

  otherwise_none : (o : Option c.Data) → elim o [ none ↦ none | some v ↦ some v ] ≡ o
  otherwise_none none = refl
  otherwise_none (some v) = refl

  -- For a document with a text, from no indexes: under every token but the base index, the indexes
  -- hold the document's time, the token, and exactly the positions of the token among the text's
  -- lower-case words, and nothing if it does not occur.
  pub find-prepare_indexes :
      (loc : Locale) (doc : Document) (base t : Str)
      → doc.body ≢ []
      → t ≢ base
      → find t (prepare_indexes c loc doc base [])
        ≡ index_of doc.ts t (nonempty (positions_from 0 t (lower_words loc doc.body)))
  unfolding prepare_indexes prepare_content
  find-prepare_indexes loc doc base t text other =
      let some_text : str_eq doc.body [] ≡ false = ground (arith, text, str_eq_iff doc.body []) in
      let packed = c.pack (pack_document (record doc { body = doc.key })) in
      let others : List (Str × c.Data) = if str_eq base [] then [] else (base, packed) ∷ [] in
      let held = index_of doc.ts t (nonempty (positions_from 0 t (lower_words loc doc.body))) in
      let nothing : find t others ≡ none = ground (arith, other, same_iff t base) in
      rw some_text (
        find_behind loc doc.ts t doc.body others
        ∙ ap (λ o. elim held [ none ↦ o | some v ↦ some v ]) nothing
        ∙ otherwise_none held)

  -- For a document with a text, from no indexes: under a base index that is not empty and no word of
  -- the text, the indexes hold a packed document with the document's time and key, and the key in
  -- place of the text.
  find_base-prepare_indexes :
      (loc : Locale) (doc : Document) (base : Str)
      → doc.body ≢ []
      → base ≢ []
      → nonempty (positions_from 0 base (lower_words loc doc.body)) ≡ none
      → find base (prepare_indexes c loc doc base [])
        ≡ some (c.pack (pack_document (record doc { body = doc.key })))
  unfolding prepare_indexes prepare_content
  find_base-prepare_indexes loc doc base text named absent =
      let some_text : str_eq doc.body [] ≡ false = ground (arith, text, str_eq_iff doc.body []) in
      let packed = c.pack (pack_document (record doc { body = doc.key })) in
      let others : List (Str × c.Data) = if str_eq base [] then [] else (base, packed) ∷ [] in
      let base_held : find base others ≡ some packed =
        ground (arith, named, str_eq_iff base [], same_iff base base) in
      rw some_text (
        find_behind loc doc.ts base doc.body others
        ∙ ap (λ o. elim (index_of doc.ts base o) [ none ↦ find base others | some v ↦ some v ])
            absent
        ∙ base_held)
