-- ===== src/Pipeline/Features.antt =====
-- The terms of a page, from its upload to their frequencies.
use wookie.Base.{
  ◌>>=◌, ℕ, ◌+◌, ◌%◌, ◌^◌, ◌≡◌, ◌<◌, ◌==◌, refl, sym, ap, ◌∙◌, false, Option, none, some, List, [],
  ◌∷◌, map, if◌then◌else◌, Str, nat_ord, str_ord, str_eq, str_eq_iff, Map, find, place, modify,
  assign, find-assign, length, count_if, All, ok, arith, str_compare, Option-cases, Bool-cases, inl,
  inr,
}
use wookie.MsgPack.{Codec, RoundTrips, raw, array, to_str, to_vector, to_vector-array}
use wookie.Parser.{Outside, Parser, parser, feed_text}
use wookie.Pipeline.{
  Info, set_object, value_as, set_value, value, set_body, set_url, url, body, exec,
  MetaInfoPipeline, push_internal, push, finish,
}
use wookie.Pipeline.Processors.{
  text_name, frequencies_name, from_strings, from_pair, to_pair, count_terms, parse_html,
  extract_features,
}

-- How often a word occurs, or none if it does not.
unfoldable pub occurrences : Str → List Str → Option ℕ
occurrences word words = let n = count_if (str_eq word) words in if n == 0 then none else some n

-- The entry of a word, and its count.
held : Str → Map Str ℕ → ℕ
held word m = elim (find word m) [ none ↦ 0 | some n ↦ n ]

abbrev next_count : Str → Map Str ℕ → ℕ
next_count w m = (elim (find w m) [ none ↦ 0 | some n ↦ n ] + 1) % 2 ^ 64

find-count_terms :
    (word : Str) (m : Map Str ℕ) (words : List Str)
    → held word m + length words < 2 ^ 64
    → find word (count_terms m words) ≡ (
        if count_if (str_eq word) words == 0
        then find word m
        else some (held word m + count_if (str_eq word) words))
unfolding count_terms held
find-count_terms word m [] small = refl
find-count_terms word m (w ∷ words) small =
    let m' = assign w (next_count w m) m in
    let placed = find-assign word w (next_count w m) m in
    elim (Bool-cases (str_eq word w)) [
      | inl e ↦
          let same_word : w ≡ word = sym ((str_eq_iff word w).0 e) in
          let got : find word m' ≡ some (held word m + 1) =
            placed
            ∙ ap (λ b. if b then some (next_count w m) else find word m) e
            ∙ ap some (ap (λ v. next_count v m) same_word ∙ omega (arith, small)) in
          let one_more : held word m' ≡ held word m + 1 = ground (arith, got) in
          let rest = find-count_terms word m' words (omega (arith, small, one_more)) in
          ground (arith, rest, got, one_more, e)
      | inr e ↦
          let got : find word m' ≡ find word m =
            placed ∙ ap (λ b. if b then some (next_count w m) else find word m) e in
          let as_before : held word m' ≡ held word m = ground (arith, got) in
          let rest = find-count_terms word m' words (omega (arith, small, as_before)) in
          ground (arith, rest, got, as_before, e)
    ]

Small : Str × ℕ → Type 0
Small (word, n) = n < 2 ^ 64

modify-Small :
    (k : Str) (v : ℕ) (m : Map Str ℕ) → v < 2 ^ 64 → All Small m → All Small (modify k (λ x. v) m)
unfolding Small
modify-Small k v [] small h = tt
modify-Small k v ((j, n) ∷ m) small h = ground (arith, modify-Small k v m small h.1)

place-Small : (k : Str) (v : ℕ) (m : Map Str ℕ) → v < 2 ^ 64 → All Small m → All Small (place k v m)
unfolding Small
place-Small k v [] small h = (small, tt)
place-Small k v ((j, n) ∷ m) small h = ground (arith, place-Small k v m small h.1)

assign-Small :
    (k : Str) (v : ℕ) (m : Map Str ℕ) → v < 2 ^ 64 → All Small m → All Small (assign k v m)
assign-Small k v m small h = elim (Option-cases (find k m)) [
  | inl absent ↦ ground (arith, absent, place-Small k v m small h)
  | inr (n, present) ↦ ground (arith, present, modify-Small k v m small h)
]

count_terms-Small :
    (m : Map Str ℕ) (words : List Str) → All Small m → All Small (count_terms m words)
unfolding count_terms Small
count_terms-Small m [] h = h
count_terms-Small m (w ∷ words) h =
    count_terms-Small (assign w (next_count w m) m) words
      (assign-Small w (next_count w m) m (omega arith) h)

-- How the container lists its entries: in whatever order, but these entries and no other.
pub record IsListing (order : Map Str ℕ → List (Str × ℕ)) : Type 1 where
  pub same_entries : (word : Str) (m : Map Str ℕ) → find word (order m) ≡ find word m
  pub no_other : (P : Str × ℕ → Type 0) (m : Map Str ℕ) → All P m → All P (order m)

pairs_fit : (ps : List (Str × ℕ)) → All Small ps → All (λ p. to_pair (from_pair p) ≡ ok p) ps
unfolding Small
pairs_fit [] h = tt
pairs_fit ((word, n) ∷ ps) h = (ground (arith, h.0), pairs_fit ps h.1)

strings_fit : (words : List Str) → All (λ w. to_str (raw w) ≡ ok w) words
strings_fit [] = tt
strings_fit (w ∷ words) = (refl, strings_fit words)

module _ (c : Codec) where
  -- A page on its way: as it was uploaded, behind the html processor, and behind the extractor.
  abbrev pub uploaded : Str → Str → Info c
  uploaded that_url page = set_body c page (set_url c that_url [])

  abbrev pub with_text : Str → Str → List Str → Info c
  with_text that_url page tokens =
      set_object c text_name (from_strings tokens) (uploaded that_url page)

  abbrev pub with_frequencies : (Map Str ℕ → List (Str × ℕ)) → Str → Str → List Str → Info c
  with_frequencies order that_url page tokens =
      set_object c frequencies_name (array (map from_pair (order (count_terms [] tokens))))
        (with_text that_url page tokens)

module _ (c : Codec) (r : RoundTrips c) (out : Outside) (order : Map Str ℕ → List (Str × ℕ))
    (listing : IsListing order) where
  push-ok :
      (p : MetaInfoPipeline c) (info : Info c) {that_url : Str}
      → url c info ≡ ok that_url
      → push c p info false ≡ ok (exec that_url p.m_next_name info ∷ finish c p)
  unfolding push push_internal
  push-ok p info named = ground (arith, named)

  parse_html-ok :
      (p : MetaInfoPipeline c) (info : Info c) {that_url page : Str} (q : Parser)
      → url c info ≡ ok that_url
      → body c info ≡ ok page
      → feed_text out parser page ≡ (q, none)
      → parse_html c out p info false
        ≡ push c p (set_object c text_name (from_strings q.m_tokens) info) false
  unfolding parse_html
  parse_html-ok p info q named stored fed = ground (arith, named, stored, fed)

  extract_features-ok :
      (p : MetaInfoPipeline c) (info : Info c) {that_url : Str} (words : List Str)
      → url c info ≡ ok that_url
      → value_as c [] (to_vector to_str) text_name info ≡ ok words
      → extract_features c order p info false
        ≡ push c p
            (set_object c frequencies_name
              (array (map from_pair (order (count_terms [] words))))
              info)
            false
  unfolding extract_features
  extract_features-ok p info words named stored = ground (arith, named, stored)

  -- When msgpack gives back what it is given, and the parser reads an uploaded page: the html
  -- processor passes the page's texts on, the feature extractor passes their frequencies on with
  -- them, each under the url of the upload and with its response closed when the next queue took
  -- it, and the frequencies unpacked there hold for each string that is one of the page's whole texts
  -- how often it occurs among these, and nothing for any other string: a text of several words is
  -- one entry, and its words have none.
  pub features-parse_html :
      (p p' : MetaInfoPipeline c) (that_url page word : Str) (q : Parser)
      → feed_text out parser page ≡ (q, none)
      → length q.m_tokens < 2 ^ 64
      → (frequencies : List (Str × ℕ)) × (parse_html c out p (uploaded c that_url page) false
          ≡ ok (exec that_url p.m_next_name (with_text c that_url page q.m_tokens) ∷ finish c p))
        × (extract_features c order p' (with_text c that_url page q.m_tokens) false
            ≡ ok (
                exec that_url p'.m_next_name (with_frequencies c order that_url page q.m_tokens)
                ∷ finish c p'))
        × (value_as c []
              (to_vector to_pair)
              frequencies_name
              (with_frequencies c order that_url page q.m_tokens)
            ≡ ok frequencies)
        × (find word frequencies ≡ occurrences word q.m_tokens)
  unfolding parse_html extract_features push push_internal url body value value_as set_url set_body
      set_value str_compare occurrences held
  features-parse_html p p' that_url page word q fed small = (
    order (count_terms [] q.m_tokens),
    parse_html-ok p (uploaded c that_url page) q (named (r (raw that_url))) (named (r (raw page)))
          fed
        ∙ push-ok p (with_text c that_url page q.m_tokens) (named (r (raw that_url))),
    extract_features-ok p' (with_text c that_url page q.m_tokens) q.m_tokens
          (named (r (raw that_url)))
          (rw (r (from_strings q.m_tokens))
            (to_vector-array to_str raw q.m_tokens (strings_fit q.m_tokens)))
        ∙ push-ok p' (with_frequencies c order that_url page q.m_tokens) (named (r (raw that_url))),
    rw (r (array (map from_pair (order (count_terms [] q.m_tokens))))) (
        to_vector-array to_pair from_pair (order (count_terms [] q.m_tokens)) (
          pairs_fit (order (count_terms [] q.m_tokens)) (
            listing.no_other Small (count_terms [] q.m_tokens)
              (count_terms-Small [] q.m_tokens tt)))),
    listing.same_entries word (count_terms [] q.m_tokens)
        ∙ find-count_terms word [] q.m_tokens (ground (arith, small))
        ∙ ground arith,
  )
    where
      named :
          {v : Str}
          → c.unpack (c.pack (raw v)) ≡ ok (raw v)
          → (c.unpack (c.pack (raw v)) >>= to_str) ≡ ok v
      named given = ap (λ o. o >>= to_str) given
