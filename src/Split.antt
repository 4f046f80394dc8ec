-- ===== src/Split.antt =====
-- include/wookie/split.hpp: the splitter that turns a text into lower-case tokens with their
-- positions. Word boundaries and case come from boost::locale and are a parameter. A position is
-- an `int` in the code and a natural number here: texts of 2^31 words are not modelled.
pub mod Positions
pub mod Tokens
mod Tests
use wookie.Base.{
  ℕ, ◌+◌, Option, none, some, List, [], ◌∷◌, ◌++◌, Str, str_ord, Map, find, insert, modify,
}

-- What the splitter uses of boost::locale: the words of a text, in order, and lower case.
pub record Locale : Type 0 where
  pub words : Str → List Str
  pub to_lower : Str → Str

-- `mpos_t`.
abbrev pub Mpos : Type 0
Mpos = Map Str (List ℕ)

-- The variables of the loop in `split::feed`.
pub record FeedState : Type 0 where
  pub mpos : Mpos
  pub tokens : List Str
  pub pos : ℕ

-- The body of the loop, for the word `word`.
unfoldable pub feed_word : Locale → FeedState → Str → FeedState
feed_word loc s word =
    let token = loc.to_lower word in
    elim (find token s.mpos) [
      | some vec ↦ record s { mpos = modify token (λ v. v ++ s.pos ∷ []) s.mpos; pos = s.pos + 1 }
      | none ↦ record {
        mpos = insert token (s.pos ∷ []) s.mpos;
        tokens = s.tokens ++ token ∷ [];
        pos = s.pos + 1;
      }
    ]

unfoldable pub feed_loop : Locale → FeedState → List Str → FeedState
feed_loop loc s [] = s
feed_loop loc s (w ∷ ws) = feed_loop loc (feed_word loc s w) ws

-- `split::feed`: the position map, and `tokens` with the new tokens behind it.
unfoldable pub feed : Locale → Str → List Str → Mpos × List Str
feed loc text tokens =
    let s = feed_loop loc (record { mpos = []; tokens = tokens; pos = 0 }) (loc.words text) in
    (s.mpos, s.tokens)
