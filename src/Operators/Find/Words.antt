-- ===== src/Operators/Find/Words.antt =====
-- The tokens of a quote among the words of a text.
use wookie.Base.{
  ℕ, zero, suc, ◌≡◌, refl, ◌↔◌, Bool, true, false, ◌&&◌, ◌||◌, some, List, [], ◌∷◌, arith,
  get_elem?, Str, nat_ord, str_ord, str_eq, str_eq_iff, inl, inr, Bool-cases,
}

-- The list begins with the tokens; the tokens stand somewhere in the list, one after the other.
abbrev pub starts_with : List Str → List Str → Bool
starts_with [] ws = true
starts_with (t ∷ ts) [] = false
starts_with (t ∷ ts) (w ∷ ws) = str_eq t w && starts_with ts ws

abbrev pub has_phrase : List Str → List Str → Bool
has_phrase tokens [] = starts_with tokens []
has_phrase tokens (w ∷ ws) = starts_with tokens (w ∷ ws) || has_phrase tokens ws

abbrev pub WordsAt : List Str → ℕ → List Str → Type 0
WordsAt [] p ws = Unit {0}
WordsAt (t ∷ ts) p ws = (get_elem? ws p ≡ some t) × WordsAt ts (suc p) ws

WordsAt-cons :
    (ts : List Str) (p : ℕ) (w : Str) (ws : List Str)
    → WordsAt ts (suc p) (w ∷ ws) ↔ WordsAt ts p ws
WordsAt-cons [] p w ws = ((λ h. tt), λ h. tt)
WordsAt-cons (t ∷ ts) p w ws =
    let r = WordsAt-cons ts (suc p) w ws in ((λ h. (h.0, r.0 h.1)), λ h. (h.0, r.1 h.1))

starts_with-WordsAt : (ts ws : List Str) → (starts_with ts ws ≡ true) ↔ WordsAt ts 0 ws
starts_with-WordsAt [] ws = ((λ h. tt), λ h. refl)
starts_with-WordsAt (t ∷ ts) [] = ((λ h. cc), λ h. cc h.0)
starts_with-WordsAt (t ∷ ts) (w ∷ ws) =
    let (there, back) = starts_with-WordsAt ts ws in
    (
      (λ h. (ground (arith, h, str_eq_iff t w), up' (there (ground (arith, h))))),
      λ h. ground (arith, h.0, str_eq_iff t w, back ((WordsAt-cons ts 0 w ws).0 h.1)),
    )
  where
    up' : WordsAt ts 0 ws → WordsAt ts 1 (w ∷ ws)
    up' = (WordsAt-cons ts 0 w ws).1

pub has_phrase-WordsAt :
    (ts ws : List Str) → (has_phrase ts ws ≡ true) ↔ ((p : ℕ) × WordsAt ts p ws)
has_phrase-WordsAt ts [] =
    ((λ h. (0, (starts_with-WordsAt ts []).0 h)), λ (p, h). none_there ts p h)
  where
    none_there : (ts : List Str) (p : ℕ) → WordsAt ts p [] → starts_with ts [] ≡ true
    none_there [] p h = refl
    none_there (t ∷ ts) p h = cc h.0
has_phrase-WordsAt ts (w ∷ ws) = (
  (λ h. elim (Bool-cases (starts_with ts (w ∷ ws))) [
    | inl here ↦ (0, (starts_with-WordsAt ts (w ∷ ws)).0 here)
    | inr later ↦
        let (p, a) = (has_phrase-WordsAt ts ws).0 (ground (arith, h, later)) in
        (suc p, (WordsAt-cons ts p w ws).1 a)
  ]),
  λ (p, a). back p a (has_phrase-WordsAt ts ws).1,
)
  where
    back :
        (p : ℕ)
        → WordsAt ts p (w ∷ ws)
        → (((q : ℕ) × WordsAt ts q ws) → has_phrase ts ws ≡ true)
        → has_phrase ts (w ∷ ws) ≡ true
    back zero a deeper = ground (arith, (starts_with-WordsAt ts (w ∷ ws)).1 a)
    back (suc p) a deeper = ground (arith, deeper (p, (WordsAt-cons ts p w ws).0 a))
