-- ===== src/Index/Lookups.antt =====
-- What the indexes of an uploaded document hold for the tokens of a search.
use wookie.Base.{
  ℕ, ◌+◌, ◌^◌, ◌≤◌, ◌≡◌, ◌≢◌, refl, ap, ap₂, ◌∙◌, Bool, true, false, ◌&&◌, Option, none, some,
  Option-cases, List, [], ◌∷◌, is_some, Str, str_ord, nat_ord, find, same, same_iff, arith,
  contains, length,
}
use wookie.MsgPack.{Codec}
use wookie.Documents.{Document}
use wookie.Documents.RoundTrip.{FitsTime}
use wookie.Split.{Locale}
use wookie.Split.Positions.{lower_words, positions_from, nonempty}
use wookie.Splitter.{prepare_indexes}
use wookie.Splitter.Indexes.{index_of, find-prepare_indexes}
use wookie.Storage.{Session, Elliptics}
use wookie.Operators.Find.Inverted.{entry_indexes}
use wookie.Operators.Find.Phrases.{id}
use wookie.Index.{IndexStore}
use wookie.Index.History.{has_all, under}

-- Every token is one of the words.
abbrev pub all_in : List Str → List Str → Bool
all_in [] words = true
all_in (t ∷ tokens) words = contains t words && all_in tokens words

some_position :
    (i : ℕ) (t : Str) (words : List Str)
    → is_some (nonempty (positions_from i t words)) ≡ contains t words
some_position i t [] = refl
some_position i t (w ∷ words) = ground (arith, some_position (i + 1) t words)

module _ (c : Codec) (e : Elliptics c.Data) (store : IndexStore e) (st : Session)
    (loc : Locale) where
  abbrev pub words_of : Document → List Str
  words_of doc = lower_words loc doc.body

  -- A document with a text, whose base index is none of the tokens, and which fits its fields.
  pub record IsSearchable (tokens : List Str) (doc : Document) (base : Str) : Type 0 where
    pub some_text : doc.body ≢ []
    pub other_base : contains base tokens ≡ false
    pub time : FitsTime doc.ts
    pub short : length (lower_words loc doc.body) ≤ 2 ^ 31

  module _ (doc : Document) (base : Str) (some_text : doc.body ≢ []) where
    lookup :
        (t : Str)
        → same base t ≡ false
        → find t (prepare_indexes c loc doc base [])
          ≡ index_of c doc.ts t (nonempty (positions_from 0 t (words_of doc)))
    lookup t other =
        find-prepare_indexes c loc doc base t some_text
          (λ h. ground (arith, h, other, same_iff base t))

    pub has_all-all_in :
        (tokens : List Str)
        → contains base tokens ≡ false
        → has_all tokens (prepare_indexes c loc doc base []) ≡ all_in tokens (words_of doc)
    has_all-all_in [] other = refl
    has_all-all_in (t ∷ tokens) other =
        ap₂ (λ a b. a && b)
          (ap is_some (lookup t (ground (arith, other)))
            ∙ shown (nonempty (positions_from 0 t (words_of doc)))
            ∙ some_position 0 t (words_of doc))
          (has_all-all_in tokens (ground (arith, other)))
      where
        shown : (o : Option (List ℕ)) → is_some (index_of c doc.ts t o) ≡ is_some o
        shown none = refl
        shown (some ps) = refl

    pub under-entry_indexes :
        (tokens : List Str)
        → contains base tokens ≡ false
        → under c e store st tokens (prepare_indexes c loc doc base [])
          ≡ entry_indexes c (id c e loc st) doc.ts (words_of doc) tokens
    under-entry_indexes [] other = refl
    under-entry_indexes (t ∷ tokens) other = ground (
      arith,
      lookup t (ground (arith, other)),
      under-entry_indexes tokens (ground (arith, other)),
      Option-cases (nonempty (positions_from 0 t (words_of doc))),
    )
