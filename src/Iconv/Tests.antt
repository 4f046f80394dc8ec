-- ===== src/Iconv/Tests.antt =====
-- A text with a byte that is no ASCII.
use wookie.Base.{◌≡◌, refl, some, [], ◌∷◌, Str}
use wookie.Iconv.{left, convert_loop, convert}
use wookie.Iconv.Decode.{Decodes, convert-Decodes}
use wookie.Iconv.Ascii.{ascii, libc, documented}

-- A letter, a byte that is skipped, and another letter.
abbrev text : Str
text = b'a' ∷ 200 ∷ b'b' ∷ []

convert-Decodes_example : (out : Str) × (convert libc tt text ≡ some out) × Decodes ascii text out
convert-Decodes_example = convert-Decodes libc ascii documented tt text

converted : convert libc tt text ≡ some (b'a' ∷ b'b' ∷ [])
unfolding convert convert_loop left
converted = refl
