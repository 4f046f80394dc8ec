-- ===== src/Operators/Find/Phrases.antt =====
-- The search finds the documents whose text holds the words of every quote, one after the other.
use wookie.Base.{
  ℕ, suc, ◌<◌, ◌≤◌, ◌≡◌, refl, sym, ap, ap₂, append-nil, length-map, subst, ◌∙◌, ◌↔◌, Bool, true,
  false, ◌&&◌, Option, none, some, List, [], ◌∷◌, ◌++◌, arith, map, if◌then◌else◌, length,
  get_elem?, Str, nat_ord, str_ord, same_iff, Map, find, All, Distinct, Ascending, contains, ok,
  ◌^◌, Bool-cases, append_assoc,
}
use wookie.MsgPack.{Codec, RoundTrips}
use wookie.Documents.{Document}
use wookie.Documents.RoundTrip.{FitsTime}
use wookie.Split.{Locale, feed}
use wookie.Split.Positions.{lower_words}
use wookie.Split.Tokens.{feed-Distinct}
use wookie.Storage.{RawId, Session, Entry, Elliptics, create_session, transform_tokens}
use wookie.Operators.Match.{quote_ok, all_quotes_ok}
use wookie.Operators.Match.Occurs.{PhraseAt}
use wookie.Operators.Match.Phrase.{quote_ok-PhraseAt}
use wookie.Operators.Find.{quoted_request, prepare_quote, check_entries, on_result_ready}
use wookie.Operators.Find.Inverted.{shown, entry_indexes, insert_indexes-Shows}
use wookie.Operators.Find.Words.{has_phrase, WordsAt, has_phrase-WordsAt}

module _ (id : Str → RawId) (injective : (a b : Str) → id a ≡ id b → a ≡ b) (words : List Str)
    (known : List Str) (pos : Map ℕ RawId)
    (found : (p : ℕ) → find p pos ≡ shown id known (get_elem? words p)) where
  PhraseAt-WordsAt :
      (ts : List Str) (p : ℕ)
      → All (λ t. contains t known ≡ true) ts
      → PhraseAt (map id ts) p pos ↔ WordsAt ts p words
  PhraseAt-WordsAt [] p k = ((λ h. tt), λ h. tt)
  PhraseAt-WordsAt (t ∷ ts) p k =
      let (there, back) = PhraseAt-WordsAt ts (suc p) k.1 in
      (
        (λ h. (seen (get_elem? words p) t (sym (found p) ∙ h.0), there h.1)),
        λ h. (found p ∙ ap (shown id known) h.0 ∙ ground (arith, k.0), back h.1),
      )
    where
      seen : (o : Option Str) (t : Str) → shown id known o ≡ some (id t) → o ≡ some t
      seen none t h = cc
      seen (some w) t h = ground (arith, h, injective w t)

map-Distinct :
    (id : Str → RawId) (ts : List Str)
    → ((a b : Str) → id a ≡ id b → a ≡ b)
    → Distinct ts
    → Distinct (map id ts)
map-Distinct id [] injective d = tt
map-Distinct id (t ∷ ts) injective d = (absent ts d.0, map-Distinct id ts injective d.1)
  where
    absent : (us : List Str) → contains t us ≡ false → contains (id t) (map id us) ≡ false
    absent [] h = refl
    absent (u ∷ us) h =
        ground (arith, h, absent us, same_iff (id t) (id u), same_iff t u, injective t u)

same_truth : (a b : Bool) → (a ≡ true) ↔ (b ≡ true) → a ≡ b
same_truth a b h = ground (arith, h.0, h.1, Bool-cases a, Bool-cases b)

module _ (c : Codec) (e : Elliptics c.Data) (loc : Locale) (st : Session) where
  abbrev pub id : Str → RawId
  id t = e.transform (create_session st) t

  transform_tokens-map : (ts : List Str) → transform_tokens c e st ts ≡ map id ts
  unfolding transform_tokens
  transform_tokens-map [] = refl
  transform_tokens-map (t ∷ ts) = ap (λ l. id t ∷ l) (transform_tokens-map ts)

  -- The distinct lower-case words of a text.
  abbrev pub tokens_of : Str → List Str
  tokens_of text = (feed loc text []).1

  -- What the store returns of a document for the tokens `known`.
  abbrev pub entry : List Str → RawId × Document → Entry c.Data
  entry known (doc_id, doc) = record {
    id = doc_id;
    indexes = entry_indexes c id doc.ts (lower_words loc doc.body) known;
  }

  abbrev pub entries : List Str → List (RawId × Document) → List (Entry c.Data)
  entries known [] = []
  entries known (doc ∷ docs) = entry known doc ∷ entries known docs

  -- Every text has a word, and its words are known.
  abbrev pub Known : List Str → List Str → Type 0
  Known known texts =
      All
        (λ text.
          (0 < length (tokens_of text)) × All (λ t. contains t known ≡ true) (tokens_of text))
        texts

  -- The documents that hold every text as a phrase, in order.
  abbrev pub holds_all : List Str → List Str → Bool
  holds_all [] words = true
  holds_all (text ∷ texts) words = has_phrase (tokens_of text) words && holds_all texts words

  abbrev pub matching : List Str → List (RawId × Document) → List RawId
  matching texts [] = []
  matching texts ((doc_id, doc) ∷ docs) =
      let rest = matching texts docs in
      if holds_all texts (lower_words loc doc.body) then doc_id ∷ rest else rest

  -- Times and positions fit the fields that are stored.
  abbrev pub Fits : List (RawId × Document) → Type 0
  Fits docs = All (λ (_, doc). FitsTime doc.ts × (length (lower_words loc doc.body) ≤ 2 ^ 31)) docs

  module _ (injective : (a b : Str) → id a ≡ id b → a ≡ b) where
    quote_ok-has_phrase :
        (words known : List Str) (text : Str) (pos : Map ℕ RawId)
        → 0 < length (tokens_of text)
        → All (λ t. contains t known ≡ true) (tokens_of text)
        → Ascending pos
        → ((p : ℕ) → find p pos ≡ shown id known (get_elem? words p))
        → quote_ok (prepare_quote c e loc st text) pos ≡ has_phrase (tokens_of text) words
    quote_ok-has_phrase words known text pos some_word k a found =
        let ts = tokens_of text in
        let ids = transform_tokens-map ts in
        let counted : length ts ≡ length (transform_tokens c e st ts) =
          sym (ap length ids ∙ length-map id ts) in
        let test =
          quote_ok-PhraseAt (prepare_quote c e loc st text) pos counted
            (subst (λ n. 0 < n) counted some_word)
            (subst Distinct (sym ids) (map-Distinct id ts injective (feed-Distinct loc text))) a in
        same_truth (quote_ok (prepare_quote c e loc st text) pos) (has_phrase ts words) (
          (λ h.
              let (p, x) = test.0 h in
              (has_phrase-WordsAt ts words).1 (
                p,
                (PhraseAt-WordsAt id injective words known pos found ts p k).0
                    (subst (λ l. PhraseAt l p pos) ids x),
              )),
          λ h.
              let (p, x) = (has_phrase-WordsAt ts words).0 h in
              test.1 (
                p,
                subst (λ l. PhraseAt l p pos) (sym ids)
                    ((PhraseAt-WordsAt id injective words known pos found ts p k).1 x),
              ),
        )

    all_quotes_ok-holds_all :
        (words known texts : List Str) (pos : Map ℕ RawId)
        → Known known texts
        → Ascending pos
        → ((p : ℕ) → find p pos ≡ shown id known (get_elem? words p))
        → all_quotes_ok (quoted_request c e loc st texts) pos ≡ holds_all texts words
    unfolding all_quotes_ok
    all_quotes_ok-holds_all words known [] pos k a found = refl
    all_quotes_ok-holds_all words known (text ∷ texts) pos k a found =
        ap₂ (λ x y. x && y) (quote_ok-has_phrase words known text pos k.0.0 k.0.1 a found)
          (all_quotes_ok-holds_all words known texts pos k.1 a found)

    check_entries-matching :
        (known texts : List Str) (docs : List (RawId × Document)) (ids : List RawId)
        → RoundTrips c
        → Known known texts
        → Fits docs
        → check_entries c (quoted_request c e loc st texts) (entries known docs) ids
          ≡ ok (ids ++ matching texts docs)
    check_entries-matching known texts [] ids r k f = ap ok (sym (append-nil ids))
    check_entries-matching known texts ((doc_id, doc) ∷ docs) ids r k f =
        let words = lower_words loc doc.body in
        let (pos, inverted, s) = insert_indexes-Shows c id doc.ts words r f.0.0 f.0.1 known [] in
        let test = all_quotes_ok-holds_all words known texts pos k (s.ordered tt) s.found in
        let added =
          after (check_entries-matching known texts docs ids r k f.1)
            (check_entries-matching known texts docs (ids ++ doc_id ∷ []) r k f.1)
            (holds_all texts words) in
        rw inverted (
          ap
            (λ b.
              check_entries c (quoted_request c e loc st texts) (entries known docs)
                (if b then ids ++ doc_id ∷ [] else ids))
            test
          ∙ added)
      where
        after :
            check_entries c (quoted_request c e loc st texts) (entries known docs) ids
              ≡ ok (ids ++ matching texts docs)
            → check_entries c
                (quoted_request c e loc st texts)
                (entries known docs)
                (ids ++ doc_id ∷ [])
              ≡ ok ((ids ++ doc_id ∷ []) ++ matching texts docs)
            → (b : Bool)
            → check_entries c
                (quoted_request c e loc st texts)
                (entries known docs)
                (if b then ids ++ doc_id ∷ [] else ids)
              ≡ ok (ids ++ (if b then doc_id ∷ matching texts docs else matching texts docs))
        after without with true =
            with ∙ ap ok (append_assoc ids (doc_id ∷ []) (matching texts docs))
        after without with false = without

    -- If ids are distinct for distinct tokens and msgpack gives back what it is given: when the store
    -- returns, for some documents, the data that they have under the tokens asked for, and these
    -- tokens are at least those of the quotes, which all have a word, then `on_result_ready` finds,
    -- in order, exactly the documents whose lower-case words hold the tokens of every quote
    -- consecutively, and reports no error. Times and positions of the documents fit their fields.
    pub on_result_ready-matching :
        (known texts : List Str) (docs : List (RawId × Document))
        → RoundTrips c
        → Known known texts
        → Fits docs
        → on_result_ready c (quoted_request c e loc st texts) (ok (entries known docs))
          ≡ ok (matching texts docs, none)
    unfolding on_result_ready
    on_result_ready-matching known texts [] r k f = refl
    on_result_ready-matching known texts (doc ∷ docs) r k f =
        rw (check_entries-matching known texts (doc ∷ docs) [] r k f) refl
