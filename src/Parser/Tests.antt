-- ===== src/Parser/Tests.antt =====
-- A parser that has read another page.
use wookie.Base.{◌≡◌, ◌↔◌, refl, none, [], ◌∷◌, ok, map_result}
use wookie.Parser.{Parser, parser, convert, feed_text}
use wookie.Parser.Visible.{visible, hrefs, texts}
use wookie.Parser.Tree.{feed_text-visible}
use wookie.Parser.Sample.{out, html, page, behind}

-- A parser that was fed before.
abbrev before : Parser
before = record parser { m_urls = (b'x' ∷ []) ∷ [] }

feed_text-visible_example : (feed_text out before page ≡ (behind, none)) ↔ (
    (map_result (convert out) (hrefs (visible html)) ≡ ok behind.m_urls)
    × (map_result (convert out) (texts (visible html)) ≡ ok behind.m_tokens)
    × (behind.m_tfidf ≡ before.m_tfidf))
feed_text-visible_example = feed_text-visible out before behind page 0 html (λ h. cc) refl
