-- ===== src/Split/Tokens.antt =====
-- The `tokens` argument of `split::feed`: what it appends, and how that fits the position map.
use wookie.Base.{
  ℕ, ◌≡◌, refl, sym, ap, ap₂, ◌∙◌, inl, inr, Bool, true, false, List, [], ◌∷◌, ◌++◌, map,
  append-nil, append_assoc, arith, Str, str_ord, find, insert-Ascending, modify-Ascending,
  Ascending, same_iff, contains, not, ◌&&◌, Distinct, is_some, Bool-cases,
}
use wookie.Split.{Locale, Mpos, FeedState, feed_word, feed_loop, feed}
use wookie.Split.Positions.{lower_words, find-feed_word}

-- The entries that are neither in `seen` nor repeat an earlier entry, in order.
abbrev pub firsts : List Str → List Str → List Str
firsts seen [] = []
firsts seen (w ∷ ws) = elim (contains w seen) [
  | true ↦ firsts seen ws
  | false ↦ w ∷ firsts (w ∷ seen) ws
]

firsts_seen :
    (seen : List Str) (w : Str) (ws : List Str)
    → contains w seen ≡ true
    → firsts seen (w ∷ ws) ≡ firsts seen ws
firsts_seen seen w ws h = ground arith

firsts_new :
    (seen : List Str) (w : Str) (ws : List Str)
    → contains w seen ≡ false
    → firsts seen (w ∷ ws) ≡ w ∷ firsts (w ∷ seen) ws
firsts_new seen w ws h = ground arith

contains-firsts :
    (t : Str) (seen ws : List Str)
    → contains t (firsts seen ws) ≡ (contains t ws && not (contains t seen))
contains-firsts t seen [] = refl
contains-firsts t seen (w ∷ ws) =
    ground (arith, contains-firsts t seen ws, contains-firsts t (w ∷ seen) ws, same_iff t w)

firsts-Distinct : (seen ws : List Str) → Distinct (firsts seen ws)
firsts-Distinct seen [] = tt
firsts-Distinct seen (w ∷ ws) = ground (
  arith,
  firsts-Distinct seen ws,
  firsts-Distinct (w ∷ seen) ws,
  contains-firsts w (w ∷ seen) ws,
  same_iff w w,
)

-- In a list without repetitions every entry is a first.
firsts_all :
    (seen ws : List Str)
    → Distinct ws
    → ((t : Str) → contains t ws ≡ true → contains t seen ≡ false)
    → firsts seen ws ≡ ws
firsts_all seen [] d apart = refl
firsts_all seen (w ∷ ws) d apart =
    firsts_new seen w ws (apart w (ground (arith, same_iff w w)))
    ∙ ap (λ ws. w ∷ ws)
        (firsts_all (w ∷ seen) ws d.1 λ t there. ground (arith, there, apart t, d.0, same_iff t w))

-- `seen` holds the keys of the position map.
abbrev Keys : Mpos → List Str → Type 0
Keys m seen = (t : Str) → is_some (find t m) ≡ contains t seen

known_word :
    (loc : Locale) (s : FeedState) (seen : List Str) (w : Str)
    → Keys s.mpos seen
    → contains (loc.to_lower w) seen ≡ true
    → Keys (feed_word loc s w).mpos seen
known_word loc s seen w k h t =
    ground (arith, find-feed_word loc s w t, k t, k (loc.to_lower w), same_iff t (loc.to_lower w))

unknown_word :
    (loc : Locale) (s : FeedState) (seen : List Str) (w : Str)
    → Keys s.mpos seen
    → Keys (feed_word loc s w).mpos (loc.to_lower w ∷ seen)
unknown_word loc s seen w k t = ground (arith, find-feed_word loc s w t, k t)

tokens_seen :
    (loc : Locale) (s : FeedState) (w : Str)
    → is_some (find (loc.to_lower w) s.mpos) ≡ true
    → (feed_word loc s w).tokens ≡ s.tokens
unfolding feed_word
tokens_seen loc s w h = ground arith

tokens_new :
    (loc : Locale) (s : FeedState) (w : Str)
    → is_some (find (loc.to_lower w) s.mpos) ≡ false
    → (feed_word loc s w).tokens ≡ s.tokens ++ loc.to_lower w ∷ []
unfolding feed_word
tokens_new loc s w h = ground arith

tokens-feed_loop :
    (loc : Locale) (s : FeedState) (seen ws : List Str)
    → Keys s.mpos seen
    → (feed_loop loc s ws).tokens ≡ s.tokens ++ firsts seen (map loc.to_lower ws)
unfolding feed_loop
tokens-feed_loop loc s seen [] k = sym (append-nil _)
tokens-feed_loop loc s seen (w ∷ ws) k = elim (Bool-cases (contains (loc.to_lower w) seen)) [
  | inl old ↦
      tokens-feed_loop loc (feed_word loc s w) seen ws (known_word loc s seen w k old)
      ∙ ap₂ ◌++◌ (tokens_seen loc s w (k _ ∙ old)) (sym (firsts_seen seen _ _ old))
  | inr new ↦
      tokens-feed_loop loc (feed_word loc s w) (loc.to_lower w ∷ seen) ws
        (unknown_word loc s seen w k)
      ∙ ap (λ ts. ts ++ firsts (loc.to_lower w ∷ seen) (map loc.to_lower ws))
          (tokens_new loc s w (k _ ∙ new))
      ∙ append_assoc s.tokens (loc.to_lower w ∷ []) _
      ∙ ap (◌++◌ s.tokens) (sym (firsts_new seen _ _ new))
]

-- For every text and every list `tokens`, `feed` leaves the entries of `tokens` alone and appends
-- the lower-case words of the text, each once, in the order of their first occurrence.
pub tokens-feed :
    (loc : Locale) (text : Str) (tokens : List Str)
    → (feed loc text tokens).1 ≡ tokens ++ firsts [] (lower_words loc text)
unfolding feed
tokens-feed loc text tokens = tokens-feed_loop loc _ [] (loc.words text) (λ t. refl)

-- From no tokens, what `feed` gives contains the lower-case words, and is their list if they are
-- distinct.
pub contains-feed :
    (loc : Locale) (text t : Str)
    → contains t (feed loc text []).1 ≡ contains t (lower_words loc text)
contains-feed loc text t =
    ap (contains t) (tokens-feed loc text [])
    ∙ contains-firsts t [] (lower_words loc text)
    ∙ either (contains t (lower_words loc text))
  where
    either : (b : Bool) → (b && true) ≡ b
    either true = refl
    either false = refl

pub feed_once :
    (loc : Locale) (text : Str)
    → Distinct (lower_words loc text)
    → (feed loc text []).1 ≡ lower_words loc text
feed_once loc text d =
    tokens-feed loc text [] ∙ firsts_all [] (lower_words loc text) d λ t there. refl

pub feed-Distinct : (loc : Locale) (text : Str) → Distinct (feed loc text []).1
feed-Distinct loc text = rw (tokens-feed loc text []) (firsts-Distinct [] (lower_words loc text))

feed_word-Ascending :
    (loc : Locale) (s : FeedState) (w : Str) → Ascending s.mpos → Ascending (feed_word loc s w).mpos
unfolding feed_word
feed_word-Ascending loc s w a = ground (
  arith,
  insert-Ascending (loc.to_lower w) (s.pos ∷ []) s.mpos,
  modify-Ascending (loc.to_lower w) (λ (v : List ℕ). v ++ s.pos ∷ []) s.mpos a,
)

feed_loop-Ascending :
    (loc : Locale) (s : FeedState) (ws : List Str)
    → Ascending s.mpos
    → Ascending (feed_loop loc s ws).mpos
unfolding feed_loop
feed_loop-Ascending loc s [] a = a
feed_loop-Ascending loc s (w ∷ ws) a =
    feed_loop-Ascending loc (feed_word loc s w) ws (feed_word-Ascending loc s w a)

pub feed-Ascending :
    (loc : Locale) (text : Str) (tokens : List Str) → Ascending (feed loc text tokens).0
unfolding feed
feed-Ascending loc text tokens = feed_loop-Ascending loc _ (loc.words text) tt
