-- ===== src/Hash/Tests.antt =====
-- Hashes of nine bytes.
use wookie.Base.{ℕ, ◌^◌, ◌<◌, ◌≡◌, refl, [], ◌∷◌, Str, pos, negsuc}
use wookie.Hash.{mix, mix_words, fall_through, mix_tail, finish, mixed, murmur}
use wookie.Hash.Positive.{murmur-lt}

abbrev nine : Str
nine = b'1' ∷ b'2' ∷ b'3' ∷ b'4' ∷ b'5' ∷ b'6' ∷ b'7' ∷ b'8' ∷ b'9' ∷ []

murmur-lt_example : (n : ℕ) × (murmur nine (negsuc 0) ≡ pos n) × (n < 2 ^ 63)
murmur-lt_example = murmur-lt nine (negsuc 0)

hashed : murmur nine (pos 0) ≡ pos 5293780161301791536
unfolding murmur mixed mix_words mix mix_tail fall_through finish
hashed = refl
