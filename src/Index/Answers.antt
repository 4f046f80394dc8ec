-- ===== src/Index/Answers.antt =====
-- A request for words and a quoted part, after any uploads.
use wookie.Base.{
  ℕ, ◌≡◌, sym, ap, ◌∙◌, ◌<◌, Bool, true, false, ◌&&◌, ap₂, inl, inr, Bool-cases, Option, none, some,
  List, [], ◌∷◌, Str, str_ord, nat_ord, Map, find, same_iff, arith, contains, contains-sort_unique,
  ok, length, refl,
}
use wookie.MsgPack.{Codec, RoundTrips}
use wookie.Documents.{Document}
use wookie.Split.{Locale}
use wookie.Split.Positions.{lower_words}
use wookie.Storage.{RawId, Session, Elliptics}
use wookie.Operators.Scan.Quotes.{quoted}
use wookie.Operators.Find.Phrases.{id}
use wookie.Operators.Find.Search.{asked}
use wookie.Operators.Find.Asking.{
  Asking, text_of, IsAsking, asked_words, holds_phrase, parts_of, prepare-text_of, some_words,
  asked-parts_of, holds_all-holds_phrase,
}
use wookie.Index.{IndexStore}
use wookie.Index.History.{IsIndexing, Served}
use wookie.Index.Lookups.{all_in, IsSearchable}
use wookie.Index.Search.{holds_parts, find-Served_parts}
use wookie.Operators.Find

all_in-contains :
    (t : Str) (xs ws : List Str) → all_in xs ws ≡ true → contains t xs ≡ true → contains t ws ≡ true
all_in-contains t [] ws all there = cc
all_in-contains t (x ∷ xs) ws all there =
    ground (arith, all, there, all_in-contains t xs ws, same_iff t x)

each_in :
    (xs ws : List Str)
    → ((t : Str) → contains t xs ≡ true → contains t ws ≡ true)
    → all_in xs ws ≡ true
each_in [] ws h = refl
each_in (x ∷ xs) ws h = ground (
  arith,
  h x (ground (arith, same_iff x x)),
  each_in xs ws λ t there. h t (ground (arith, there)),
)

module _ (xs ys : List Str) (same_entries : (t : Str) → contains t xs ≡ contains t ys) where
  all_in-same : (ws : List Str) → all_in xs ws ≡ all_in ys ws
  all_in-same ws = elim (Bool-cases (all_in xs ws)) [
    | inl all ↦
        all ∙ sym (each_in ys ws λ t there. all_in-contains t xs ws all (same_entries t ∙ there))
    | inr lacks ↦ elim (Bool-cases (all_in ys ws)) [
      | inr lacks' ↦ lacks ∙ sym lacks'
      | inl all ↦
          let all' =
            each_in xs ws λ t there. all_in-contains t ys ws all (sym (same_entries t) ∙ there) in
          absurd (ground (arith, lacks, all'))
    ]
  ]

some_entry :
    (xs ys : List Str) → ((t : Str) → contains t xs ≡ contains t ys) → 0 < length ys → 0 < length xs
some_entry [] [] h some_word = absurd (omega arith)
some_entry [] (y ∷ ys) h some_word = absurd (ground (arith, h y, same_iff y y))
some_entry (x ∷ xs) ys h some_word = omega arith

module _ (c : Codec) (e : Elliptics c.Data) (store : IndexStore e) (st : Session)
    (loc : Locale) where
  -- Whether the document of a name, if there is one, has every word of the request, and the words of
  -- the quoted part one directly after the other.
  abbrev pub holds_request : Asking → Option (Document × Str) → Bool
  holds_request a none = false
  holds_request a (some (doc, base)) =
      all_in (asked_words loc a) (lower_words loc doc.body)
      && holds_phrase loc a (lower_words loc doc.body)

  -- Take any uploads to a server, each refused before it is written or replied to with 200 (by rift,
  -- whose own code `rift` is any, if the document has no index), on a store that does what elliptics
  -- documents, with ids that are distinct for distinct names, and msgpack that gives back what it is
  -- given. Take then a request with a word at least and without quotation marks, or with one quoted
  -- part that has a word and none twice in lower case. `find` finds for it, without error, the id of
  -- a name exactly if the last document that was uploaded under the name and had an index has every
  -- word of the request among its lower-case words, and the words of the quoted part one directly
  -- after the other. The words of the request are the lower-case words of the quoted part and of the
  -- request with it cut out between its marks. These last documents have a text, fit their fields,
  -- and their base indexes are none of the words of the request.
  pub find-Served :
      (sess : Session) (rift : ℕ) (a : Asking) (name : Str) {w : e.World}
      {docs : Map Str (Document × Str)}
      → IsIndexing c e store st sess
      → RoundTrips c
      → ((a b : Str) → id c e loc st a ≡ id c e loc st b → a ≡ b)
      → Served c e store st loc sess rift w docs
      → IsAsking loc a
      → 0 < length (asked_words loc a)
      → ((key : Str) (doc : Document) (base : Str)
          → find key docs ≡ some (doc, base)
          → IsSearchable c e store st loc (asked_words loc a) doc base)
      → (ids : List RawId) × (Find.find c e loc st (text_of a) w ≡ ok (ids, none))
        × (contains (id c e loc st name) ids ≡ holds_request a (find name docs))
  find-Served sess rift a name {docs = docs} law rt injective served v some_word searchable =
      let tokens = asked c e loc st (parts_of a) in
      let same : (t : Str) → contains t tokens ≡ contains t (asked_words loc a) = λ t.
        ap (contains t) (asked-parts_of c e loc st a v)
        ∙ contains-sort_unique t (asked_words loc a) in
      let (ids, found, listed) =
        find-Served_parts c e store st loc sess rift (text_of a) name law rt injective served
          (prepare-text_of c e loc st a v) (some_words c e loc st a v)
          (some_entry tokens (asked_words loc a) same some_word)
          λ key doc base h.
            let s = searchable key doc base h in
            record {
              some_text = s.some_text;
              other_base = same base ∙ s.other_base;
              time = s.time;
              short = s.short;
            } in
      (ids, found, listed ∙ held same (find name docs))
    where
      held :
          ((t : Str) → contains t (asked c e loc st (parts_of a)) ≡ contains t (asked_words loc a))
          → (o : Option (Document × Str))
          → holds_parts c e store st loc (asked c e loc st (parts_of a)) (quoted (text_of a)) o
            ≡ holds_request a o
      held same none = refl
      held same (some (doc, base)) =
          ap₂ (λ x y. x && y)
            (all_in-same (asked c e loc st (parts_of a)) (asked_words loc a) same
              (lower_words loc doc.body))
            (holds_all-holds_phrase c e loc st a v (lower_words loc doc.body))
