-- ===== src/Splitter/Tests.antt =====
-- The indexes of a short document.
use wookie.Base.{◌≡◌, ok, [], ◌∷◌, arith, map, Str, nat_ord, str_ord, find}
use wookie.MsgPack.{Object, Codec}
use wookie.Documents.{Document}
use wookie.Split.{Locale}
use wookie.Split.Positions.{lower_words, positions_from, nonempty}
use wookie.Splitter.{prepare_indexes}
use wookie.Splitter.Indexes.{index_of, find-prepare_indexes}

abbrev plain : Codec
plain = record { Data = Object; pack = λ o. o; unpack = λ o. ok o }

-- Words of one letter.
abbrev letters : Locale
letters = record { words = map (λ c. c ∷ []); to_lower = λ t. t }

abbrev page : Document
page = record {
  ts = record { tsec = 5; tnsec = 7 };
  key = b'k' ∷ [];
  body = b'a' ∷ b'b' ∷ b'a' ∷ [];
}

abbrev base : Str
base = b'z' ∷ []

abbrev a : Str
a = b'a' ∷ []

find-prepare_indexes_example :
    find a (prepare_indexes plain letters page base [])
    ≡ index_of plain page.ts a (nonempty (positions_from 0 a (lower_words letters page.body)))
find-prepare_indexes_example =
    find-prepare_indexes plain letters page base a (λ h. ground (arith, h)) (λ h. ground (arith, h))
