-- ===== src/Pipeline/Tests.antt =====
-- A document on its way.
use wookie.Base.{ℕ, List, Map, find, arith, ◌≡◌, refl, false, [], ◌∷◌, Str, ok, nat_ord, str_ord}
use wookie.MsgPack.{Object, Codec, to_vector}
use wookie.Pipeline.{value_as, finish, exec, MetaInfoPipeline}
use wookie.Pipeline.Processors.{frequencies_name, to_pair, parse_html, extract_features}
use wookie.Pipeline.Features.{
  IsListing, occurrences, uploaded, with_text, with_frequencies, features-parse_html,
}
use wookie.Parser.Sample.{undetected, page, behind, fed}

abbrev plain : Codec
plain = record { Data = Object; pack = λ o. o; unpack = λ o. ok o }

abbrev a : Str
a = b'a' ∷ []

abbrev b : Str
b = b'b' ∷ []

abbrev names : MetaInfoPipeline plain
names = record { m_current_name = a; m_next_name = b }

abbrev order : Map Str ℕ → List (Str × ℕ)
order m = m

listing : IsListing order
listing = record { same_entries = λ word m. refl; no_other = λ P m h. h }

features-parse_html_example :
    (frequencies : List (Str × ℕ)) × (parse_html plain undetected names
        (uploaded plain a page)
        false
      ≡ ok (exec a b (with_text plain a page behind.m_tokens) ∷ finish plain names))
    × (extract_features plain order names (with_text plain a page behind.m_tokens) false
        ≡ ok (exec a b (with_frequencies plain order a page behind.m_tokens) ∷ finish plain names))
    × (value_as plain []
          (to_vector to_pair)
          frequencies_name
          (with_frequencies plain order a page behind.m_tokens)
        ≡ ok frequencies)
    × (find (b't' ∷ []) frequencies ≡ occurrences (b't' ∷ []) behind.m_tokens)
features-parse_html_example =
    features-parse_html plain (λ o. refl) undetected order listing names names a page (b't' ∷ [])
      behind fed (omega arith)
