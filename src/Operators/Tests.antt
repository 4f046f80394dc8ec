-- ===== src/Operators/Tests.antt =====
-- Requests and phrases.
use wookie.Base.{
  ℕ, ◌≡◌, refl, ◌↔◌, true, none, some, [], ◌∷◌, arith, str_compare, Str, nat_ord, str_ord, Map,
}
use wookie.Operators.Scan.{prepare}
use wookie.Operators.Scan.Quotes.{quoted, quotes-prepare}
use wookie.Operators.Scan.Rest.{prepare-one_quote, prepare-two_quotes}
use wookie.Operators.Match.{RawId, Quote, quote_ok}
use wookie.Operators.Match.Occurs.{PhraseAt}
use wookie.Operators.Match.Phrase.{quote_ok-PhraseAt}

abbrev a : Str
a = b'a' ∷ []

abbrev b : Str
b = b'b' ∷ []

abbrev phrase : Quote
phrase = record { text = b'a' ∷ b' ' ∷ b'b' ∷ []; tokens = a ∷ b ∷ []; indexes = a ∷ b ∷ [] }

abbrev page : Map ℕ RawId
page = (0, b) ∷ (3, a) ∷ (4, b) ∷ []

quote_ok-PhraseAt_example : (quote_ok phrase page ≡ true) ↔ ((p : ℕ) × PhraseAt (a ∷ b ∷ []) p page)
unfolding str_compare
quote_ok-PhraseAt_example =
    quote_ok-PhraseAt phrase page refl (omega arith) (refl, (refl, tt))
      ((refl, (refl, tt)), ((refl, tt), (tt, tt)))

found : quote_ok phrase page ≡ true
unfolding str_compare
found = quote_ok-PhraseAt_example.1 (3, (refl, (refl, tt)))

-- `x "a" `.
abbrev request : Str
request = b'x' ∷ b'"' ∷ b'a' ∷ b'"' ∷ b' ' ∷ []

one_quoted :
    prepare request ≡ some (record { quotes = a ∷ []; text = b'x' ∷ b'"' ∷ b'"' ∷ b' ' ∷ [] })
one_quoted = prepare-one_quote (b'x' ∷ []) a (b' ' ∷ []) (refl, tt) (refl, tt) (refl, tt)

quotes-prepare_example : a ∷ [] ≡ quoted request
quotes-prepare_example = quotes-prepare request one_quoted

-- `"abcd"-"a"`.
prepare-two_quotes_example :
    prepare (b'"' ∷ b'a' ∷ b'b' ∷ b'c' ∷ b'd' ∷ b'"' ∷ b'-' ∷ b'"' ∷ b'a' ∷ b'"' ∷ []) ≡ none
prepare-two_quotes_example =
    prepare-two_quotes [] (b'a' ∷ b'b' ∷ b'c' ∷ b'd' ∷ []) (b'-' ∷ []) a [] tt
      (refl, (refl, (refl, (refl, tt)))) (refl, tt) (refl, tt) (omega arith)
