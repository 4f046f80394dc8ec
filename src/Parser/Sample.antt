-- ===== src/Parser/Sample.antt =====
-- A page for tests, with a link, a text and a script.
use wookie.Base.{◌≡◌, refl, true, false, none, some, [], ◌∷◌, Str, str_ord, pos}
use wookie.TfIdf.{empty_tfidf}
use wookie.Iconv.Ascii.{convert_ascii}
use wookie.Parser.{
  NodeData, TidyNode, null, node, Outside, Parser, parser, reset, convert, push_url, push_text,
  traverse_tree, feed_text,
}

abbrev pub plain : NodeData
plain = record {
  is_a = false;
  href = none;
  is_script = false;
  is_style = false;
  is_text_node = false;
  has_text = false;
  text = [];
}

abbrev pub text_node : Str → NodeData
text_node text = record plain { is_text_node = true; has_text = true; text = text }

-- An anchor around a text, and a script around another.
abbrev pub html : TidyNode
html =
    node (record plain { is_a = true; href = some (b'u' ∷ []) })
      (node (text_node (b't' ∷ [])) null null)
      (node (record plain { is_script = true }) (node (text_node (b's' ∷ [])) null null) null)

abbrev pub page : Str
page = b'p' ∷ []

abbrev pub out : Outside
out = record {
  loc = record { words = λ text. text ∷ []; to_lower = λ word. word };
  characters = λ text. [];
  detect = λ text. b'a' ∷ [];
  charset_convert = convert_ascii;
  magic_buffer = λ text. none;
  tidy_parse = λ page. (pos 0, html);
}

-- The same, where the detector names no charset.
abbrev pub undetected : Outside
undetected = record out { detect = λ text. [] }

-- What is left of the page.
abbrev pub behind : Parser
behind = record { m_urls = (b'u' ∷ []) ∷ []; m_tokens = (b't' ∷ []) ∷ []; m_tfidf = empty_tfidf }

pub fed : feed_text undetected parser page ≡ (behind, none)
unfolding feed_text traverse_tree push_url push_text convert reset
fed = refl
