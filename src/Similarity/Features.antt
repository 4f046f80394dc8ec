-- ===== src/Similarity/Features.antt =====
-- What `generate_features` appends.
use wookie.Base.{
  ℕ, zero, suc, ◌≤◌, ◌≡◌, refl, sym, ap, subst, ◌∙◌, Bool, true, false, ◌&&◌, ◌||◌, ◌==◌, some,
  List, [], ◌∷◌, ◌++◌, map, length, count_if, contains, arith, min, replicate, take, if◌then◌else◌,
  nat_ord, str_ord, StrictlySorted, set_intersection, count_if-set_intersection,
  set_intersection-StrictlySorted, length-set_intersection, ℤ, pos,
}
use wookie.Documents.{Simdoc}
use wookie.TfIdf.{int_of_size}
use wookie.Parser.{Outside}
use wookie.Parser.Ngrams.{int_ord, generate_ngrams, generate_ngrams-StrictlySorted}
use wookie.Similarity.{LearnElement, overwrite, intersect, generate_features}

overwrite-length :
    (tmp xs : List ℤ)
    → length xs ≤ length tmp
    → (out : List ℤ) × (overwrite tmp xs ≡ some out) × (take (length xs) out ≡ xs)
overwrite-length tmp [] small = (tmp, refl, refl)
overwrite-length [] (x ∷ xs) small = absurd (omega arith)
overwrite-length (t ∷ tmp) (x ∷ xs) small =
    let (out, wrote, kept) = overwrite-length tmp xs (omega arith) in
    (x ∷ out, rw wrote refl, ap (◌∷◌ x) kept)

length-replicate : (n : ℕ) (x : ℤ) → length (replicate n x) ≡ n
length-replicate zero x = refl
length-replicate (suc n) x = ap suc (length-replicate n x)

-- `intersect` writes nothing past the end of its vector, and returns the whole intersection.
pub intersect-set_intersection : (f s : List ℤ) → intersect f s ≡ some (set_intersection f s)
unfolding intersect
intersect-set_intersection [] s = refl
intersect-set_intersection (x ∷ f) [] = ground arith
intersect-set_intersection (x ∷ f) (y ∷ s) =
    let bounds = length-set_intersection (x ∷ f) (y ∷ s) in
    let size = min (length (x ∷ f)) (length (y ∷ s)) in
    let (out, wrote, kept) =
      overwrite-length (replicate size (pos 0)) (set_intersection (x ∷ f) (y ∷ s))
        (omega (arith, length-replicate size (pos 0), bounds)) in
    rw (wrote, kept) (ground arith)

-- The n-grams of `f` that a test takes.
abbrev pub common : (ℤ → Bool) → List ℤ → ℕ
common p f = count_if p f

abbrev pub always : ℤ → Bool
always k = true

count_if-always : (f : List ℤ) → count_if always f ≡ length f
count_if-always [] = refl
count_if-always (x ∷ f) = ap suc (count_if-always f)

and_true : (f : List ℤ) (p : ℤ → Bool) → count_if (λ k. p k && true) f ≡ count_if p f
and_true [] p = refl
and_true (x ∷ f) p = ground (arith, and_true f p)

length-intersect :
    (f s : List ℤ)
    → StrictlySorted f
    → StrictlySorted s
    → length (set_intersection f s) ≡ count_if (λ k. contains k s) f
length-intersect f s sorted_f sorted_s =
    sym (count_if-always (set_intersection f s))
    ∙ count_if-set_intersection always f s sorted_f sorted_s
    ∙ and_true f (λ k. contains k s)

-- The n-grams of all three.
length-both :
    (f s r : List ℤ)
    → StrictlySorted f
    → StrictlySorted s
    → StrictlySorted r
    → length (set_intersection (set_intersection f s) r)
      ≡ count_if (λ k. contains k s && contains k r) f
length-both f s r sorted_f sorted_s sorted_r =
    length-intersect (set_intersection f s) r (set_intersection-StrictlySorted f s sorted_f)
      sorted_r
    ∙ count_if-set_intersection (λ k. contains k r) f s sorted_f sorted_s

-- What two documents and a request have in common.
abbrev pub counted : List ℤ → List ℤ → List ℤ → List ℤ
counted f s r = map int_of_size (
    length f
    ∷ length s
    ∷ count_if (λ k. contains k s) f
    ∷ length r
    ∷ count_if (λ k. contains k s && contains k r) f
    ∷ [])

-- For two documents and a request whose n-grams are those of their texts: `generate_features` writes
-- nothing past the end of a vector. If a document has no n-gram, it returns false and the element is
-- as before. Else it returns true, the element is valid, and five features are appended: the numbers
-- of the n-grams of the first document, of the second, of both, of the request, and of all three,
-- each as an `int`.
pub generate_features-counted :
    (out : Outside) (le : LearnElement) (d1 d2 : Simdoc)
    → d1.ngrams ≡ generate_ngrams out d1.text []
    → d2.ngrams ≡ generate_ngrams out d2.text []
    → le.req_ngrams ≡ generate_ngrams out le.request []
    → generate_features le d1 d2
      ≡ some (
          if length d1.ngrams == 0 || length d2.ngrams == 0 then (false, le) else (
            true,
            record le {
              valid = true;
              features = le.features ++ counted d1.ngrams d2.ngrams le.req_ngrams;
            },
          ))
unfolding generate_features
generate_features-counted out le d1 d2 made1 made2 made =
    let sorted_f : StrictlySorted d1.ngrams =
      subst StrictlySorted (sym made1) (generate_ngrams-StrictlySorted out d1.text []) in
    let sorted_s : StrictlySorted d2.ngrams =
      subst StrictlySorted (sym made2) (generate_ngrams-StrictlySorted out d2.text []) in
    let sorted_r : StrictlySorted le.req_ngrams =
      subst StrictlySorted (sym made) (generate_ngrams-StrictlySorted out le.request []) in
    ground (
      arith,
      intersect-set_intersection d1.ngrams d2.ngrams,
      intersect-set_intersection (set_intersection d1.ngrams d2.ngrams) le.req_ngrams,
      length-intersect d1.ngrams d2.ngrams sorted_f sorted_s,
      length-both d1.ngrams d2.ngrams le.req_ngrams sorted_f sorted_s sorted_r,
    )
