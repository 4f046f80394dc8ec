-- ===== src/Operators/Find/Tests.antt =====
-- A search for a phrase in two documents.
use wookie.Base.{
  sort_unique, ◌≡◌, refl, true, false, none, [], ◌∷◌, List, map, arith, str_compare, Str, nat_ord,
  str_ord, elliptics_error, ok, err, enoent,
}
use wookie.MsgPack.{Object, Codec}
use wookie.Documents.{Document}
use wookie.Split.{Locale}
use wookie.Storage.{RawId, Session, Elliptics, Entry}
use wookie.Operators.Find.{find}
use wookie.Operators.Find.Phrases.{entries}
use wookie.Operators.Find.Asking.{
  Asking, with_quote, text_of, IsAsking, asked_words, hits, find-matching,
}

abbrev plain : Codec
plain = record { Data = Object; pack = λ o. o; unpack = λ o. ok o }

abbrev blank : Session
blank = record { groups = []; namespace = []; throws = true; cached = false; timeout = 5 }

-- A store that returns what it holds, whatever it is asked for.
abbrev memory : Elliptics Object
memory = record {
  World = List (Entry Object);
  new_session = blank;
  transform = λ s t. t;
  write_data = λ s key d w. (w, none);
  read_data = λ s key w. err (elliptics_error enoent);
  find_all_indexes = λ s ids w. ok w;
}

-- Words of one letter.
abbrev letters : Locale
letters = record { words = map (λ c. c ∷ []); to_lower = λ t. t }

abbrev ab : Str
ab = b'a' ∷ b'b' ∷ []

abbrev request : Asking
request = with_quote [] ab []

abbrev docs : List (RawId × Document)
docs =
    (
      b'1' ∷ [],
      record {
        ts = record { tsec = 5; tnsec = 7 };
        key = b'k' ∷ [];
        body = b'x' ∷ b'a' ∷ b'b' ∷ [];
      },
    )
    ∷ (
      b'2' ∷ [],
      record { ts = record { tsec = 5; tnsec = 7 }; key = b'l' ∷ []; body = b'b' ∷ b'a' ∷ [] },
    )
    ∷ []

a_word : IsAsking letters request
unfolding str_compare
a_word = (tt, (refl, (refl, tt)), tt, omega arith, (refl, (refl, tt)))

find-matching_example :
    find plain memory letters blank
      (text_of request)
      (entries plain memory letters blank (sort_unique (asked_words letters request)) docs)
    ≡ ok (hits letters request docs, none)
find-matching_example =
    find-matching plain memory letters blank request
      (entries plain memory letters blank (sort_unique (asked_words letters request)) docs) docs
      a_word (λ a b h. h) (λ o. refl) refl
      (((omega arith, omega arith), omega arith), (((omega arith, omega arith), omega arith), tt))
