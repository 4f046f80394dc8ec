-- ===== src/Split/Positions.antt =====
-- What `split::feed` computes: every token with all its positions, and each token once.
use wookie.Base.{
  ℕ, ◌+◌, ◌≡◌, refl, sym, ap, Option, none, some, List, [], ◌∷◌, ◌++◌, map, append-nil,
  append_assoc, arith, Str, str_ord, find, find-insert, find-modify, str_eq, same_iff,
  if◌then◌else◌,
}
use wookie.Split.{Locale, FeedState, feed_word, feed_loop, feed}

-- The lower-case words of a text, in order.
abbrev pub lower_words : Locale → Str → List Str
lower_words loc text = map loc.to_lower (loc.words text)

-- The indices of `token` in a list whose first entry has index `i`.
abbrev pub positions_from : ℕ → Str → List Str → List ℕ
positions_from i token [] = []
positions_from i token (w ∷ ws) =
    let rest = positions_from (i + 1) token ws in if str_eq token w then i ∷ rest else rest

-- A key with no position is missing.
abbrev pub nonempty : List ℕ → Option (List ℕ)
nonempty [] = none
nonempty (p ∷ ps) = some (p ∷ ps)

abbrev extend : Option (List ℕ) → List ℕ → Option (List ℕ)
extend none ps = nonempty ps
extend (some v) ps = some (v ++ ps)

pub find-feed_word :
    (loc : Locale) (s : FeedState) (w t : Str)
    → find t (feed_word loc s w).mpos
      ≡ (if str_eq t (loc.to_lower w) then extend (find t s.mpos) (s.pos ∷ []) else find t s.mpos)
unfolding feed_word
find-feed_word loc s w t = ground (
  arith,
  find-insert t (loc.to_lower w) (s.pos ∷ []) s.mpos,
  find-modify t (loc.to_lower w) (λ (v : List ℕ). v ++ s.pos ∷ []) s.mpos,
  same_iff t (loc.to_lower w),
)

extend-cons :
    (o : Option (List ℕ)) (p : ℕ) (ps : List ℕ) → extend (extend o (p ∷ [])) ps ≡ extend o (p ∷ ps)
extend-cons none p ps = refl
extend-cons (some v) p ps = ap some (append_assoc v (p ∷ []) ps)

extend-nil : (o : Option (List ℕ)) → extend o [] ≡ o
extend-nil none = refl
extend-nil (some v) = ap some (append-nil v)

pos-feed_word : (loc : Locale) (s : FeedState) (w : Str) → (feed_word loc s w).pos ≡ s.pos + 1
unfolding feed_word
pos-feed_word loc s w = ground arith

find-feed_loop :
    (loc : Locale) (s : FeedState) (ws : List Str) (t : Str)
    → find t (feed_loop loc s ws).mpos
      ≡ extend (find t s.mpos) (positions_from s.pos t (map loc.to_lower ws))
unfolding feed_loop
find-feed_loop loc s [] t = sym (extend-nil _)
find-feed_loop loc s (w ∷ ws) t = ground (
  arith,
  find-feed_loop loc (feed_word loc s w) ws t,
  find-feed_word loc s w t,
  pos-feed_word loc s w,
  extend-cons (find t s.mpos) s.pos (positions_from (s.pos + 1) t (map loc.to_lower ws)),
)

-- For every text and token, the map returned by `feed` has under the token exactly the positions
-- of that token among the lower-case words of the text, in ascending order, and no entry for a
-- token that does not occur.
pub find-feed :
    (loc : Locale) (text : Str) (tokens : List Str) (t : Str)
    → find t (feed loc text tokens).0 ≡ nonempty (positions_from 0 t (lower_words loc text))
unfolding feed
find-feed loc text tokens t = find-feed_loop loc _ (loc.words text) t
