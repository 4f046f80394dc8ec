-- ===== src/Operators/Find/Search.antt =====
-- The whole search, from what `prepare` makes of the request to the ids.
use wookie.Base.{
  ◌<◌, ◌≡◌, subst, true, none, some, List, [], ◌∷◌, ◌++◌, arith, length, Str, nat_ord, str_ord, All,
  contains, contains-append, contains-sort_unique, sort_unique, ok, same_iff,
}
use wookie.MsgPack.{Codec, RoundTrips}
use wookie.Documents.{Document}
use wookie.Split.{Locale, feed}
use wookie.Storage.{RawId, Session, Elliptics, create_session, transform_tokens}
use wookie.Operators.Scan.{prepare, FindRequest}
use wookie.Operators.Scan.Quotes.{quoted, quotes-prepare}
use wookie.Operators.Find.{find, find_request, quoted_request, quote_tokens, on_result_ready}
use wookie.Operators.Find.Phrases.{
  id, tokens_of, entries, Known, Fits, matching, on_result_ready-matching,
}

module _ (c : Codec) (e : Elliptics c.Data) (loc : Locale) (st : Session) where
  -- The tokens that the store is asked for.
  abbrev pub asked : FindRequest → List Str
  asked r =
      sort_unique
        (quote_tokens c e loc st (quoted_request c e loc st r.quotes) ++ (feed loc r.text []).1)

  each_contained :
      (ts known : List Str)
      → ((t : Str) → contains t ts ≡ true → contains t known ≡ true)
      → All (λ t. contains t known ≡ true) ts
  each_contained [] known h = tt
  each_contained (t ∷ ts) known h =
      (h t (ground (arith, same_iff t t)), each_contained ts known λ u k. h u (ground (arith, k)))

  quotes-Known :
      (known texts : List Str)
      → ((t : Str)
          → contains t (quote_tokens c e loc st (quoted_request c e loc st texts)) ≡ true
          → contains t known ≡ true)
      → All (λ text. 0 < length (tokens_of c e loc st text)) texts
      → Known c e loc st known texts
  quotes-Known known [] h words = tt
  quotes-Known known (text ∷ texts) h words =
      let rest = quote_tokens c e loc st (quoted_request c e loc st texts) in
      (
        (
          words.0,
          each_contained (tokens_of c e loc st text) known
              λ t k. h t (ground (arith, k, contains-append t (tokens_of c e loc st text) rest)),
        ),
        quotes-Known known texts
            (λ t k. h t (ground (arith, k, contains-append t (tokens_of c e loc st text) rest)))
            words.1,
      )

  -- The search, in terms of what `prepare` returns.
  pub find-matching_parts :
      (text : Str) (w : e.World) (docs : List (RawId × Document)) {r : FindRequest}
      → ((a b : Str) → id c e loc st a ≡ id c e loc st b → a ≡ b)
      → RoundTrips c
      → prepare text ≡ some r
      → All (λ q. 0 < length (tokens_of c e loc st q)) r.quotes
      → e.find_all_indexes (create_session st) (transform_tokens c e st (asked r)) w
        ≡ ok (entries c e loc st (asked r) docs)
      → Fits c e loc st docs
      → find c e loc st text w ≡ ok (matching c e loc st (quoted text) docs, none)
  unfolding find find_request
  find-matching_parts text w docs {r} injective rt parts words answer fits =
      let rest = (feed loc r.text []).1 in
      let ts = quote_tokens c e loc st (quoted_request c e loc st r.quotes) in
      let known =
        quotes-Known (asked r) r.quotes
          (λ t h. ground (arith, h, contains-sort_unique t (ts ++ rest), contains-append t ts rest))
          words in
      rw (parts, answer)
        (subst
          (λ qs.
            on_result_ready c (quoted_request c e loc st r.quotes)
              (ok (entries c e loc st (asked r) docs))
            ≡ ok (matching c e loc st qs docs, none))
          (quotes-prepare text parts)
          (on_result_ready-matching c e loc st injective (asked r) r.quotes docs rt known fits))
