-- ===== src/Similarity/Threads.antt =====
-- What the threads do to the elements together.
use wookie.Base.{
  ℕ, zero, suc, ◌+◌, ◌<◌, ◌≤◌, ◌==◌, ◌≡◌, ◌⊎◌, inl, inr, refl, sym, ap, ap₂, ◌∙◌, Bool, true, false,
  Option, none, some, List, [], ◌∷◌, map, length, if◌then◌else◌, get_elem?, update_at,
  some_injective, arith, nat_ord, str_ord,
}
use wookie.TfIdf.{size_mod}
use wookie.Parser.{Outside}
use wookie.Similarity.{LearnElement}
use wookie.Similarity.Parse.{request_ngrams, visit_elements}
use wookie.Similarity.Interleavings.{times, shares, Interleaving, times-threads}

count_update : (out : Outside) → Option LearnElement → ℕ → Option LearnElement
count_update out none n = none
count_update out (some le) zero = some le
count_update out (some le) (suc n) = count_update out (some (request_ngrams out le)) n

get_elem?-update_at :
    {A : Type 0} (f : A → A) (i j : ℕ) (xs : List A)
    → get_elem? (update_at f i xs) j ≡ (
        if j == i
        then elim (get_elem? xs j) [ none ↦ none | some x ↦ some (f x) ]
        else get_elem? xs j)
get_elem?-update_at f i j [] = ground arith
get_elem?-update_at f zero zero (x ∷ xs) = refl
get_elem?-update_at f zero (suc j) (x ∷ xs) = ground arith
get_elem?-update_at f (suc i) zero (x ∷ xs) = ground arith
get_elem?-update_at f (suc i) (suc j) (x ∷ xs) = ground (arith, get_elem?-update_at f i j xs)

get_elem?-visit_elements :
    (out : Outside) (order : List ℕ) (les : List LearnElement) (j : ℕ)
    → get_elem? (visit_elements out order les) j
      ≡ count_update out (get_elem? les j) (times j order)
unfolding visit_elements count_update
get_elem?-visit_elements out [] les j = ended_at (get_elem? les j)
  where
    ended_at : (o : Option LearnElement) → o ≡ count_update out o 0
    ended_at none = refl
    ended_at (some le) = refl
get_elem?-visit_elements out (i ∷ is) les j =
    get_elem?-visit_elements out is (update_at (request_ngrams out) i les) j
    ∙ ap (λ o. count_update out o (times j is)) (get_elem?-update_at (request_ngrams out) i j les)
    ∙ taken (get_elem? les j) (j == i)
  where
    taken :
        (o : Option LearnElement) (b : Bool)
        → count_update out
            (if b then elim o [ none ↦ none | some x ↦ some (request_ngrams out x) ] else o)
            (times j is)
          ≡ count_update out o (elim b [ true ↦ suc (times j is) | false ↦ times j is ])
    taken none true = refl
    taken none false = refl
    taken (some le) true = refl
    taken (some le) false = refl

list_ext : {A : Type 0} (xs ys : List A) → ((i : ℕ) → get_elem? xs i ≡ get_elem? ys i) → xs ≡ ys
list_ext [] [] same_at = refl
list_ext [] (y ∷ ys) same_at = absurd (ground (arith, same_at 0))
list_ext (x ∷ xs) [] same_at = absurd (ground (arith, same_at 0))
list_ext (x ∷ xs) (y ∷ ys) same_at =
    ap₂ (◌∷◌) (some_injective (same_at 0)) (list_ext xs ys (λ i. same_at (suc i)))

get_elem?-map :
    {A B : Type 0} (f : A → B) (xs : List A) (j : ℕ)
    → get_elem? (map f xs) j ≡ elim (get_elem? xs j) [ none ↦ none | some x ↦ some (f x) ]
get_elem?-map f [] j = refl
get_elem?-map f (x ∷ xs) zero = refl
get_elem?-map f (x ∷ xs) (suc j) = get_elem?-map f xs j

get_elem?-cases : {A : Type 0} (xs : List A) (j : ℕ) → (j < length xs) ⊎ (get_elem? xs j ≡ none)
get_elem?-cases [] j = inr refl
get_elem?-cases (x ∷ xs) zero = inl (omega arith)
get_elem?-cases (x ∷ xs) (suc j) = elim (get_elem?-cases xs j) [
  | inl h ↦ inl (omega arith)
  | inr h ↦ inr h
]

once :
    (out : Outside) (o : Option LearnElement)
    → count_update out o 1 ≡ elim o [ none ↦ none | some x ↦ some (request_ngrams out x) ]
unfolding count_update
once out none = refl
once out (some le) = refl

never : (out : Outside) (n : ℕ) → count_update out none n ≡ none
unfolding count_update
never out n = refl

-- For at least one thread, and no position that wraps: in any interleaving of the second loops of
-- `load_documents`, the n-grams of every element are generated from its request, once.
pub visit_elements-map :
    (out : Outside) (les : List LearnElement) (step : ℕ) {order : List ℕ}
    → 0 < step
    → length les + step ≤ size_mod
    → Interleaving (shares step step (length les)) order
    → visit_elements out order les ≡ map (request_ngrams out) les
visit_elements-map out les step {order} positive fits run =
    list_ext (visit_elements out order les) (map (request_ngrams out) les) (λ j.
      get_elem?-visit_elements out order les j
      ∙ elim (get_elem?-cases les j) [
        | inr h ↦ ground (arith, h, never out (times j order))
        | inl h ↦
            ap (count_update out (get_elem? les j))
              (times-threads j step (length les) h positive fits run)
            ∙ once out (get_elem? les j)
      ]
      ∙ sym (get_elem?-map (request_ngrams out) les j))
