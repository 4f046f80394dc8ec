-- ===== src/Split/Tests.antt =====
-- The splitter on a short text.
use wookie.Base.{
  ◌≡◌, some, [], ◌∷◌, map, ◌==◌, if◌then◌else◌, str_compare, Str, nat_ord, str_ord, find,
}
use wookie.Split.{Locale, feed}
use wookie.Split.Positions.{find-feed}
use wookie.Split.Tokens.{tokens-feed}

-- Words of one letter, and lower case for the letter B alone.
abbrev letters : Locale
letters = record { words = map (λ c. c ∷ []); to_lower = map (λ c. if c == b'B' then b'b' else c) }

abbrev text : Str
text = b'a' ∷ b'B' ∷ b'a' ∷ b'b' ∷ []

find-feed_example : find (b'b' ∷ []) (feed letters text []).0 ≡ some (1 ∷ 3 ∷ [])
unfolding str_compare
find-feed_example = find-feed letters text [] (b'b' ∷ [])

tokens-feed_example : (feed letters text []).1 ≡ (b'a' ∷ []) ∷ (b'b' ∷ []) ∷ []
unfolding str_compare
tokens-feed_example = tokens-feed letters text []
