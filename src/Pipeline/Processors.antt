-- ===== src/Pipeline/Processors.antt =====
-- The applications of the pipeline: processors/html_processor.cpp, feature_extractor.cpp,
-- stub_processor.cpp, last_processor.cpp, the process handler of first_processor.cpp, and the
-- constructor and `on_chunk` of include/wookie/application.hpp.
use wookie.Base.{
  ◌>>=◌, ℕ, ◌+◌, ◌%◌, ◌^◌, Bool, Option, none, some, List, [], ◌∷◌, ◌++◌, map, not, Str, nat_ord,
  str_ord, Map, find, assign, Result, ok, err, type_error, runtime_error,
}
use wookie.MsgPack.{Codec, Object, raw, uint, array, item, to_str, to_uint64, to_vector, via_array}
use wookie.Parser.{Outside, parser, c_str, feed_text}
use wookie.Pipeline.{
  Info, set_object, value_as, set_value, url, body, Event, MetaInfoPipeline, push_internal, push,
  finish,
}

abbrev pub text_name : Str
text_name = b't' ∷ b'e' ∷ b'x' ∷ b't' ∷ []

-- `"terms_frequencies"`.
abbrev pub frequencies_name : Str
frequencies_name =
    b't' ∷ b'e' ∷ b'r' ∷ b'm' ∷ b's' ∷ b'_' ∷ b'f' ∷ b'r' ∷ b'e' ∷ b'q' ∷ b'u' ∷ b'e' ∷ b'n' ∷ b'c'
    ∷ b'i' ∷ b'e' ∷ b's' ∷ []

-- `"stub"` and `"stub-info"`.
abbrev pub stub_name : Str
stub_name = b's' ∷ b't' ∷ b'u' ∷ b'b' ∷ []

abbrev pub stub_info : Str
stub_info = stub_name ++ b'-' ∷ b'i' ∷ b'n' ∷ b'f' ∷ b'o' ∷ []

-- `"-queue@push"` and `"-queue@ack"`.
abbrev pub queue_push : Str
queue_push = b'-' ∷ b'q' ∷ b'u' ∷ b'e' ∷ b'u' ∷ b'e' ∷ b'@' ∷ b'p' ∷ b'u' ∷ b's' ∷ b'h' ∷ []

abbrev pub queue_ack : Str
queue_ack = b'-' ∷ b'q' ∷ b'u' ∷ b'e' ∷ b'u' ∷ b'e' ∷ b'@' ∷ b'a' ∷ b'c' ∷ b'k' ∷ []

-- `std::vector<std::string>` and `std::vector<std::pair<std::string, size_t>>` as msgpack objects.
abbrev pub from_strings : List Str → Object
from_strings words = array (map raw words)

abbrev pub from_pair : Str × ℕ → Object
from_pair (word, n) = array (raw word ∷ uint n ∷ [])

abbrev pub to_pair : Object → Result (Str × ℕ)
to_pair o = elim (via_array o) [
  | none ↦ err type_error
  | some items ↦ do
    w ← item items 0
    word ← to_str w
    k ← item items 1
    n ← to_uint64 k
    ok (word, n)
]

-- `++terms_frequencies[word]` for every word: an `unordered_map`, whose entries are kept in the
-- order of the keys here.
unfoldable pub count_terms : Map Str ℕ → List Str → Map Str ℕ
count_terms m [] = m
count_terms m (word ∷ words) =
    let n : ℕ = elim (find word m) [ none ↦ 0 | some k ↦ k ] in
    count_terms (assign word ((n + 1) % 2 ^ 64) m) words

module _ (c : Codec) where
  -- The constructor of `meta_info_pipeline_t`: the members `next` and `current` of the
  -- configuration, where it has them, and their text if they are strings.
  pub create_pipeline : Option (Option Str) → Option (Option Str) → Result (MetaInfoPipeline c)
  create_pipeline next none = err runtime_error
  create_pipeline next (some none) = err runtime_error
  create_pipeline next (some (some current)) = ok (record {
    m_current_name = c_str current ++ queue_ack;
    m_next_name = elim next [ none ↦ [] | some none ↦ [] | some (some name) ↦ name ++ queue_push ];
  })

  -- `pipeline_process_handler::on_chunk`: the message is parsed, its data are unpacked, and the
  -- handler is called; `parse` and `unpack` are those of elliptics and of cocaine.
  pub on_chunk :
      (Str → Result c.Data)
      → (c.Data → Result (Info c))
      → (Info c → Result (List (Event c)))
      → Str
      → Result (List (Event c))
  on_chunk parse unpack on_request chunk = do
    bytes ← parse chunk
    info ← unpack bytes
    on_request info

  -- `push(url, info, method)`: what `method` is called with, when the `exec` fails or not.
  pub push_with : MetaInfoPipeline c → Str → Info c → Bool → List (Event c) × Bool
  unfolding push_internal
  push_with p that_url info failed = (push_internal c p that_url info, not failed)

  -- The `on_request` of first_processor.cpp, html_processor.cpp, feature_extractor.cpp,
  -- stub_processor.cpp and last_processor.cpp, when the `exec` of `push` fails or not.
  unfoldable pub first : MetaInfoPipeline c → Info c → Bool → Result (List (Event c))
  unfolding push
  first p info failed = push c p info failed

  unfoldable pub parse_html : Outside → MetaInfoPipeline c → Info c → Bool → Result (List (Event c))
  unfolding push
  parse_html out p info failed = do
    logged ← url c info
    page ← body c info
    let (q, thrown) = feed_text out parser page
    elim thrown [
      | some e ↦ err e
      | none ↦ push c p (set_object c text_name (from_strings q.m_tokens) info) failed
    ]

  -- The order in which the `unordered_map` lists its entries is a parameter.
  unfoldable pub extract_features :
      (Map Str ℕ → List (Str × ℕ)) → MetaInfoPipeline c → Info c → Bool → Result (List (Event c))
  unfolding push count_terms value_as
  extract_features order p info failed = do
    logged ← url c info
    words ← value_as c [] (to_vector to_str) text_name info
    let frequencies = array (map from_pair (order (count_terms [] words)))
    push c p (set_object c frequencies_name frequencies info) failed

  unfoldable pub stub : MetaInfoPipeline c → Info c → Bool → Result (List (Event c))
  unfolding push set_value
  stub p info failed = push c p (set_value c stub_name stub_info info) failed

  unfoldable pub last : MetaInfoPipeline c → Info c → Result (List (Event c))
  unfolding finish
  last p info = do logged ← url c info; ok (finish c p)
