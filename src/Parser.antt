-- ===== src/Parser.antt =====
-- include/wookie/parser.hpp: the parser of a page, which collects the links and the texts of the
-- tree that tidy makes of it, and the n-grams of a text; `create_href_parser` of lib/engine.cpp.
-- `update_tfidf` is in TfIdf. What the code uses of tidy, libmagic, boost::locale, the charset
-- detector and iconv is in `Outside`.
pub mod Visible
pub mod Tree
pub mod Ngrams
pub mod Fresh
pub mod Sample
mod Tests
use wookie.Split.{Locale}
use wookie.TfIdf.{Tf, Double, WordInfo, top, merge, TfIdf, empty_tfidf, size_of_int, int_of_size}
use wookie.Magic.{is_text}
use wookie.Base.{
  ℕ, ◌/◌, ◌==◌, min, Bool, true, false, not, ◌&&◌, ◌||◌, Option, none, some, List, [], ◌∷◌, ◌++◌,
  map, length, ltb, if◌then◌else◌, Str, str_ord, str_eq, Result, ok, err, ◌>>=◌, Error,
  runtime_error, ℤ, pos, negsuc,
}

-- What the code asks of a node: is it `TidyTag_A`, the value of its `href`, is it a script, a style
-- or a text, has it a text, and which.
pub record NodeData : Type 0 where
  pub is_a : Bool
  pub href : Option Str
  pub is_script : Bool
  pub is_style : Bool
  pub is_text_node : Bool
  pub has_text : Bool
  pub text : Str

-- `TidyNode`: a null pointer, or a node with what `tidyGetChild` and `tidyGetNext` return.
pub data TidyNode : Type 0 where
  null : TidyNode
  node : NodeData → (child next : TidyNode) → TidyNode

-- `tidyParseString` returns its status and the first child of the root.
pub record Outside : Type 0 where
  pub loc : Locale
  pub characters : Str → List Str
  pub detect : Str → Str
  pub charset_convert : Str → Str → Str → Result Str
  pub magic_buffer : Str → Option Str
  pub tidy_parse : Str → ℤ × TidyNode

-- `parser`, with its members that change.
pub record Parser : Type 0 where
  pub m_urls : List Str
  pub m_tokens : List Str
  pub m_tfidf : TfIdf

abbrev pub parser : Parser
parser = record { m_urls = []; m_tokens = []; m_tfidf = empty_tfidf }

-- A method: the parser after it, and what it threw.
abbrev pub Ran : Type 0
Ran = Parser × Option Error

-- The next statement is skipped when the one before it threw.
abbrev pub then_do : Ran → (Parser → Ran) → Ran
then_do (p, none) next = next p
then_do (p, some e) next = (p, some e)

-- `"utf8"`.
abbrev pub utf8 : Str
utf8 = b'u' ∷ b't' ∷ b'f' ∷ b'8' ∷ []

-- `c_str`: what a reader of a C string sees.
abbrev pub c_str : Str → Str
c_str [] = []
c_str (c ∷ cs) = if c == 0 then [] else c ∷ c_str cs

-- `parser::reset`.
pub reset : Parser → Parser
reset p = record p { m_urls = []; m_tokens = [] }

-- `parser::text`: each token is followed by `join`.
pub joined : List Str → Str → Str
joined [] join = []
joined (t ∷ ts) join = t ++ join ++ joined ts join

-- `std::min<int>(text.size(), 1024)` as a `size_t`.
pub sample_size : ℕ → ℕ
sample_size n = elim (int_of_size n) [ pos k ↦ min k 1024 | negsuc k ↦ size_of_int (negsuc k) ]

module _ (out : Outside) where
  open out use {loc, detect, charset_convert, magic_buffer, tidy_parse}

  -- `parser::convert`.
  pub convert : Str → Result Str
  convert text =
      let enc = detect text in
      if not (length enc == 0) && not (str_eq enc utf8)
      then charset_convert utf8 enc text
        >>= (λ converted. ok (if ltb (length text / 3) (length converted) then converted else text))
      else ok text

  -- The statements of `traverse_tree` on a node: its link and its text.
  pub push_url : NodeData → Parser → Ran
  unfolding convert
  push_url n p =
      if n.is_a
      then elim n.href [
        | none ↦ (p, none)
        | some value ↦ elim (convert value) [
          | err e ↦ (p, some e)
          | ok url ↦ (record p { m_urls = p.m_urls ++ url ∷ [] }, none)
        ]
      ]
      else (p, none)

  pub push_text : NodeData → Parser → Ran
  unfolding convert
  push_text n p =
      if n.is_text_node && n.has_text
      then elim (convert n.text) [
        | err e ↦ (p, some e)
        | ok token ↦ (record p { m_tokens = p.m_tokens ++ token ∷ [] }, none)
      ]
      else (p, none)

  -- `parser::traverse_tree`, from a child of its node on.
  pub traverse_tree : TidyNode → Parser → Ran
  unfolding push_url push_text
  traverse_tree null p = (p, none)
  traverse_tree (node n child next) p = then_do (push_url n p) (λ p.
      elim (n.is_script || n.is_style) [
        | true ↦ traverse_tree next p
        | false ↦
            then_do (push_text n p)
              (λ p. then_do (traverse_tree child p) (λ p. traverse_tree next p))
      ])

  -- `parser::feed_text`.
  pub feed_text : Parser → Str → Ran
  unfolding reset traverse_tree
  feed_text p page =
      if length page == 0
      then (reset p, none)
      else let (status, html) = tidy_parse (c_str page) in
        elim status [
          | negsuc n ↦ (reset p, some runtime_error)
          | pos n ↦ traverse_tree html (reset p)
        ]

  -- `parser::feed_file`: the state of the stream after it was opened, and what can be read of it.
  pub feed_file : Parser → Bool × Str → Ran
  unfolding reset feed_text sample_size
  feed_file p (bad, text) =
      if bad
      then (reset p, some runtime_error)
      else if is_text magic_buffer text (sample_size (length text))
      then feed_text (reset p) text
      else (reset p, some runtime_error)

  -- `parser::text`.
  pub text_of : Parser → Str → Str
  unfolding joined
  text_of p join = joined p.m_tokens join

  -- `parser::word_tokens` and `parser::string_tokens`.
  pub words_of : List Str → List Str
  words_of [] = []
  words_of (t ∷ ts) = map loc.to_lower (loc.words t) ++ words_of ts

  pub word_tokens : Parser → List Str
  unfolding words_of
  word_tokens p = words_of p.m_tokens

  pub string_tokens : Parser → Str → Str
  unfolding joined word_tokens
  string_tokens p join = joined (word_tokens p) join

  -- `parser::top`, for a number type and a `std::sort`, and `parser::merge_into`.
  pub top_words :
      (d : Double)
      → ((WordInfo d → WordInfo d → Bool) → List (WordInfo d) → List (WordInfo d))
      → Parser
      → Tf
      → ℕ
      → List (WordInfo d)
  top_words d sort_by p tf num = top d sort_by p.m_tfidf tf num

  unfoldable pub merge_into : Parser → TfIdf → TfIdf
  merge_into p df = merge df p.m_tfidf

  -- `create_href_parser` of lib/engine.cpp: a new parser for every page.
  pub href_parser : Str → Result (List Str)
  unfolding feed_text
  href_parser data_of_reply =
      let (p, thrown) = feed_text parser data_of_reply in
      elim thrown [ none ↦ ok p.m_urls | some e ↦ err e ]
