-- ===== src/Index/Tests.antt =====
-- An upload, and a search for a phrase of it.
use wookie.Base.{
  ℕ, ◌≡◌, refl, subst, true, none, some, List, [], ◌∷◌, map, Str, str_ord, nat_ord, Map, find,
  assign, contains, arith, ok, str_compare, Bool-cases, same, inl, inr,
}
use wookie.Documents.{Time, Document}
use wookie.Split.{Locale, feed, feed_loop, feed_word}
use wookie.Splitter.{prepare_indexes, prepare_content}
use wookie.Storage.{RawId}
use wookie.Http.{Request, checked, upload, on_write_finished_update_index, on_index_update_finished}
use wookie.Http.Upload.{replies, uploaded}
use wookie.Operators.Find
use wookie.Index.{serve}
use wookie.Index.Lookups.{IsSearchable}
use wookie.Index.History.{Served, fresh, taken, Served-held, indexes_of}
use wookie.Index.Answers.{holds_request, find-Served}
use wookie.Operators.Find.Asking.{Asking, with_quote, text_of, IsAsking, asked_words}
use wookie.Index.Memory.{plain, blank, Objects, memory, store, indexing}

-- Words of one letter.
abbrev letters : Locale
letters = record { words = map (λ c. c ∷ []); to_lower = λ t. t }

abbrev now : Time
now = record { tsec = 5; tnsec = 7 }

abbrev ab : Str
ab = b'a' ∷ b'b' ∷ []

abbrev page : Request
page = record {
  base_index = some (b'z' ∷ []);
  name = some (b'k' ∷ []);
  text = none;
  if_modified_since = none;
  buffer = b'x' ∷ ab;
}

abbrev doc : Document
doc = uploaded plain letters now (b'k' ∷ []) page.buffer

abbrev docs : Map Str (Document × Str)
docs = assign (b'k' ∷ []) (doc, b'z' ∷ []) []

abbrev after : Objects
after = (serve plain memory store letters blank now page true 200 [] []).0

abbrev rift : ℕ
rift = 200

replied : replies rift (serve plain memory store letters blank now page true 200 [] []).1 ≡ 200 ∷ []
unfolding serve checked upload on_write_finished_update_index on_index_update_finished
    prepare_indexes prepare_content str_compare feed feed_loop feed_word
replied = refl

served : Served plain memory store blank letters blank rift after docs
unfolding prepare_indexes str_compare feed feed_loop feed_word
served =
    taken now page true 200 [] (b'k' ∷ []) (b'z' ∷ []) (fresh [] (λ key. refl)) refl refl replied

Served-held_example : find (b'k' ∷ []) after ≡ indexes_of plain letters (find (b'k' ∷ []) docs)
Served-held_example =
    Served-held plain memory store blank letters blank rift indexing served (b'k' ∷ [])

abbrev request : Asking
request = with_quote [] ab []

a_word : IsAsking letters request
unfolding str_compare
a_word = (tt, (refl, (refl, tt)), tt, omega arith, (refl, (refl, tt)))

searchable :
    (key : Str) (d : Document) (base : Str)
    → find key docs ≡ some (d, base)
    → IsSearchable plain memory store blank letters (asked_words letters request) d base
unfolding str_compare
searchable key d base h = elim (Bool-cases (same key (b'k' ∷ []))) [
  | inr other ↦ absurd (ground (arith, h, other))
  | inl this ↦
      let only : ◌≡◌ {A = Document × Str} (doc, b'z' ∷ []) (d, base) = ground (arith, h, this) in
      subst
        (λ entry.
          IsSearchable plain memory store blank letters (asked_words letters request) entry.0
            entry.1)
        only
        (record {
          some_text = λ empty. cc empty;
          other_base = refl;
          time = (omega arith, omega arith);
          short = omega arith;
        })
]

find-Served_example :
    (ids : List RawId) × (Find.find plain memory letters blank (text_of request) after
      ≡ ok (ids, none))
    × (contains (b'k' ∷ []) ids
        ≡ holds_request plain memory store blank letters request (find (b'k' ∷ []) docs))
find-Served_example =
    find-Served plain memory store blank letters blank rift request (b'k' ∷ []) indexing (λ o. refl)
      (λ a b h. h) served a_word (omega arith) searchable
