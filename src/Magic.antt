-- ===== src/Magic.antt =====
-- The class `magic` of include/wookie/url.hpp. What libmagic finds is a parameter.
use wookie.Base.{ℕ, Bool, Option, none, some, [], ◌∷◌, take, Str, str_eq}

-- `"none"` and `"text/"`.
abbrev pub no_type : Str
no_type = b'n' ∷ b'o' ∷ b'n' ∷ b'e' ∷ []

abbrev pub text_prefix : Str
text_prefix = b't' ∷ b'e' ∷ b'x' ∷ b't' ∷ b'/' ∷ []

module _ (magic_buffer : Str → Option Str) where
  -- `magic::type`, of the first `size` bytes.
  unfoldable pub mime_type : Str → ℕ → Str
  mime_type buffer size = elim (magic_buffer (take size buffer)) [ none ↦ no_type | some ret ↦ ret ]

  -- `magic::is_text`.
  unfoldable pub is_text : Str → ℕ → Bool
  unfolding mime_type
  is_text buffer size = str_eq (take 5 (mime_type buffer size)) text_prefix
