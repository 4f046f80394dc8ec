-- ===== src/Operators/Find/Asking.antt =====
-- Requests of words and at most one quoted part, and the whole search for them. What they ask for is
-- said by the words of their texts alone.
use wookie.Base.{
  ◌<◌, ◌≡◌, refl, sym, ap, ap₂, subst, ◌∙◌, Bool, true, false, ◌&&◌, ◌||◌, none, some, List, [],
  ◌∷◌, ◌++◌, append-nil, if◌then◌else◌, length, Str, nat_ord, str_ord, All, Distinct, contains,
  contains-append, sort_unique, sort_unique-same, ok,
}
use wookie.MsgPack.{Codec, RoundTrips}
use wookie.Documents.{Document}
use wookie.Split.{Locale, feed}
use wookie.Split.Positions.{lower_words}
use wookie.Split.Tokens.{contains-feed, feed_once}
use wookie.Storage.{RawId, Session, Elliptics, create_session, transform_tokens}
use wookie.Operators.Scan.{prepare, FindRequest}
use wookie.Operators.Scan.Quotes.{quoted, quotes-prepare}
use wookie.Operators.Scan.Rest.{Plain, prepare-no_quote, prepare-one_quote}
use wookie.Operators.Find.{find, quoted_request, quote_tokens}
use wookie.Operators.Find.Words.{has_phrase}
use wookie.Operators.Find.Phrases.{id, tokens_of, entries, Fits, holds_all, matching}
use wookie.Operators.Find.Search.{asked, find-matching_parts}

-- `p`, or `p "q" t`.
pub data Asking : Type 0 where
  plain_words : Str → Asking
  with_quote : Str → Str → Str → Asking

abbrev pub text_of : Asking → Str
text_of (plain_words p) = p
text_of (with_quote p q t) = p ++ b'"' ∷ (q ++ b'"' ∷ t)

module _ (loc : Locale) where
  -- There are no other quotation marks, and the quoted part has a word, and no lower-case word twice.
  abbrev pub IsAsking : Asking → Type 0
  IsAsking (plain_words p) = Plain p
  IsAsking (with_quote p q t) =
      Plain p × Plain q × Plain t × (0 < length (lower_words loc q)) × Distinct (lower_words loc q)

  -- The lower-case words of the quoted part, and of the request around the two marks.
  abbrev pub asked_words : Asking → List Str
  asked_words (plain_words p) = lower_words loc p
  asked_words (with_quote p q t) = lower_words loc q ++ lower_words loc (p ++ b'"' ∷ b'"' ∷ t)

  -- The words of the quoted part, if there is one, stand in the list, one after the other.
  abbrev pub holds_phrase : Asking → List Str → Bool
  holds_phrase (plain_words p) words = true
  holds_phrase (with_quote p q t) words = has_phrase (lower_words loc q) words

  -- The documents that hold the quoted part, in order.
  abbrev pub hits : Asking → List (RawId × Document) → List RawId
  hits a [] = []
  hits a ((doc_id, doc) ∷ docs) =
      let rest = hits a docs in
      if holds_phrase a (lower_words loc doc.body) then doc_id ∷ rest else rest

-- What `prepare` returns of it.
abbrev pub parts_of : Asking → FindRequest
parts_of (plain_words p) = record { quotes = []; text = p }
parts_of (with_quote p q t) = record { quotes = q ∷ []; text = p ++ b'"' ∷ b'"' ∷ t }

module _ (c : Codec) (e : Elliptics c.Data) (loc : Locale) (st : Session) where
  pub prepare-text_of : (a : Asking) → IsAsking loc a → prepare (text_of a) ≡ some (parts_of a)
  prepare-text_of (plain_words p) v = prepare-no_quote p v
  prepare-text_of (with_quote p q t) v = prepare-one_quote p q t v.0 v.1 v.2

  pub some_words :
      (a : Asking)
      → IsAsking loc a
      → All (λ q. 0 < length (tokens_of c e loc st q)) (parts_of a).quotes
  some_words (plain_words p) v = tt
  some_words (with_quote p q t) (hp, hq, ht, some_word, d) = (rw (feed_once loc q d) some_word, tt)

  same_words :
      (a : Asking)
      → IsAsking loc a
      → (t : Str)
      → contains t (
          quote_tokens c e loc st (quoted_request c e loc st (parts_of a).quotes)
          ++ (feed loc (parts_of a).text []).1)
        ≡ contains t (asked_words loc a)
  same_words (plain_words p) v t = contains-feed loc p t
  same_words (with_quote p q r) v t =
      let rest = p ++ b'"' ∷ b'"' ∷ r in
      let ts = tokens_of c e loc st q in
      ap (λ l. contains t (l ++ (feed loc rest []).1)) (append-nil ts)
      ∙ contains-append t ts (feed loc rest []).1
      ∙ ap₂ ◌||◌ (contains-feed loc q t) (contains-feed loc rest t)
      ∙ sym (contains-append t (lower_words loc q) (lower_words loc rest))

  -- The store is asked for the distinct words of the request, in ascending order.
  pub asked-parts_of :
      (a : Asking)
      → IsAsking loc a
      → asked c e loc st (parts_of a) ≡ sort_unique (asked_words loc a)
  asked-parts_of a v = sort_unique-same _ (asked_words loc a) (same_words a v)

  holds_all-quoted :
      (a : Asking)
      → IsAsking loc a
      → (words : List Str)
      → holds_all c e loc st (parts_of a).quotes words ≡ holds_phrase loc a words
  holds_all-quoted (plain_words p) v words = refl
  holds_all-quoted (with_quote p q t) (hp, hq, ht, some_word, d) words =
      either (has_phrase (tokens_of c e loc st q) words)
      ∙ ap (λ ts. has_phrase ts words) (feed_once loc q d)
    where
      either : (b : Bool) → (b && true) ≡ b
      either true = refl
      either false = refl

  pub holds_all-holds_phrase :
      (a : Asking)
      → IsAsking loc a
      → (words : List Str)
      → holds_all c e loc st (quoted (text_of a)) words ≡ holds_phrase loc a words
  holds_all-holds_phrase a v words =
      ap (λ qs. holds_all c e loc st qs words)
        (sym (quotes-prepare (text_of a) (prepare-text_of a v)))
      ∙ holds_all-quoted a v words

  matching-hits :
      (a : Asking)
      → IsAsking loc a
      → (docs : List (RawId × Document))
      → matching c e loc st (quoted (text_of a)) docs ≡ hits loc a docs
  matching-hits a v [] = refl
  matching-hits a v ((doc_id, doc) ∷ docs) =
      ap₂ (λ b rest. if b then doc_id ∷ rest else rest)
        (holds_all-holds_phrase a v (lower_words loc doc.body)) (matching-hits a v docs)

  -- Take a request without quotation marks, or with one quoted part that has a word and none twice
  -- in lower case; let ids be distinct for distinct tokens and msgpack give back what it is given.
  -- When the store, asked for the ids of the distinct lower-case words of the request in ascending
  -- order, returns for some documents the data that these have under them, then `find` gives, in
  -- order and without error, exactly those of the documents whose lower-case words hold all words of
  -- the quoted part, one directly after the other; all of them if there is no quoted part. The words
  -- of the request are those of the quoted part and those of the request with it cut out between its
  -- marks. Times and positions of the documents fit their fields.
  pub find-matching :
      (a : Asking) (w : e.World) (docs : List (RawId × Document))
      → IsAsking loc a
      → ((a b : Str) → id c e loc st a ≡ id c e loc st b → a ≡ b)
      → RoundTrips c
      → e.find_all_indexes
          (create_session st)
          (transform_tokens c e st (sort_unique (asked_words loc a)))
          w
        ≡ ok (entries c e loc st (sort_unique (asked_words loc a)) docs)
      → Fits c e loc st docs
      → find c e loc st (text_of a) w ≡ ok (hits loc a docs, none)
  find-matching a w docs v injective rt answer fits =
      find-matching_parts c e loc st (text_of a) w docs injective rt (prepare-text_of a v)
        (some_words a v)
        (subst
          (λ ts.
            e.find_all_indexes (create_session st) (transform_tokens c e st ts) w
            ≡ ok (entries c e loc st ts docs))
          (sym (asked-parts_of a v)) answer)
        fits
      ∙ ap (λ ids. ok (ids, none)) (matching-hits a v docs)
