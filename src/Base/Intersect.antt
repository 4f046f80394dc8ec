-- ===== src/Base/Intersect.antt =====
-- `std::set_intersection` of two ranges without repetitions.
use Prim.Native.Nat.{◌≤◌, Ordering}
use mathlib.Core.Path.{◌≡◌, refl}
use mathlib.Core.Bool.{Bool, true, false, ◌&&◌}
use mathlib.Core.List.{List, [], ◌∷◌}
use native.Mathlib.Omega.{arith}
use wookie.Base.Lists.{length, count_if}
use wookie.Base.Order.{Ord, same_iff}
use wookie.Base.Sort.{contains, AllAfter, AllAfter-trans, StrictlySorted}

module _ {ℓ} {K : Type ℓ} ⦃o : Ord K⦄ where
  -- The steps up to the one that leaves `x`, the first entry of the first range.
  abbrev pub intersect_with : K → (List K → List K) → List K → List K
  intersect_with x rest [] = []
  intersect_with x rest (y ∷ ys) = elim (o.cmp x y) [
    | Ordering.lt ↦ rest (y ∷ ys)
    | Ordering.eq ↦ x ∷ rest ys
    | Ordering.gt ↦ intersect_with x rest ys
  ]

  abbrev pub set_intersection : List K → List K → List K
  set_intersection [] s = []
  set_intersection (x ∷ f) s = intersect_with x (set_intersection f) s

  contains-AllAfter : (k : K) (xs : List K) → AllAfter k xs → contains k xs ≡ false
  contains-AllAfter k [] after = refl
  contains-AllAfter k (x ∷ xs) after = ground (arith, contains-AllAfter k xs, after)

  AllAfter-contains :
      (a k : K) (xs : List K) → AllAfter a xs → contains k xs ≡ true → o.cmp a k ≡ Ordering.lt
  AllAfter-contains a k [] after member = cc
  AllAfter-contains a k (x ∷ xs) after member =
      ground (arith, AllAfter-contains a k xs after.1, after.0, same_iff k x)

  -- What is before all of `f` does not matter to the entries of `f`.
  count_if-AllAfter :
      (p : K → Bool) (y : K) (ys f : List K)
      → AllAfter y f
      → count_if (λ k. contains k (y ∷ ys) && p k) f ≡ count_if (λ k. contains k ys && p k) f
  count_if-AllAfter p y ys [] after = refl
  count_if-AllAfter p y ys (x ∷ f) after =
      ground (arith, count_if-AllAfter p y ys f after.1, after.0, same_iff x y, o.cmp_refl x)

  count_if-never : (f : List K) → count_if (λ k. false) f ≡ 0
  count_if-never [] = refl
  count_if-never (x ∷ f) = count_if-never f

  count_if-intersect_with :
      (p : K → Bool) (x : K) (f s : List K)
      → ((t : List K)
          → StrictlySorted t
          → count_if p (set_intersection f t) ≡ count_if (λ k. contains k t && p k) f)
      → AllAfter x f
      → StrictlySorted s
      → count_if p (intersect_with x (set_intersection f) s)
        ≡ count_if (λ k. contains k s && p k) (x ∷ f)
  count_if-intersect_with p x f [] rest after sorted = omega (arith, count_if-never f)
  count_if-intersect_with p x f (y ∷ ys) rest after sorted = ground (
    arith,
    rest (y ∷ ys) sorted,
    rest ys sorted.1,
    count_if-intersect_with p x f ys rest after sorted.1,
    count_if-AllAfter p y ys f,
    contains-AllAfter x ys,
    AllAfter-trans x y ys,
    AllAfter-trans y x f,
    o.cmp_gt x y,
    o.cmp_eq x y,
    same_iff x y,
    after,
    sorted,
  )

  -- The entries of the first range that the second contains, once each.
  pub count_if-set_intersection :
      (p : K → Bool) (f s : List K)
      → StrictlySorted f
      → StrictlySorted s
      → count_if p (set_intersection f s) ≡ count_if (λ k. contains k s && p k) f
  count_if-set_intersection p [] s sorted_f sorted_s = refl
  count_if-set_intersection p (x ∷ f) s sorted_f sorted_s =
      count_if-intersect_with p x f s
        (λ t sorted. count_if-set_intersection p f t sorted_f.1 sorted) sorted_f.0 sorted_s

  AllAfter-intersect_with :
      (a x : K) (f s : List K)
      → ((t : List K) → AllAfter a (set_intersection f t))
      → o.cmp a x ≡ Ordering.lt
      → AllAfter a (intersect_with x (set_intersection f) s)
  AllAfter-intersect_with a x f [] rest before = tt
  AllAfter-intersect_with a x f (y ∷ ys) rest before =
      ground (arith, rest (y ∷ ys), rest ys, AllAfter-intersect_with a x f ys rest before, before)

  AllAfter-set_intersection :
      (a : K) (f s : List K) → AllAfter a f → AllAfter a (set_intersection f s)
  AllAfter-set_intersection a [] s after = tt
  AllAfter-set_intersection a (x ∷ f) s after =
      AllAfter-intersect_with a x f s (λ t. AllAfter-set_intersection a f t after.1) after.0

  intersect_with-StrictlySorted :
      (x : K) (f s : List K)
      → ((t : List K) → StrictlySorted (set_intersection f t))
      → AllAfter x f
      → StrictlySorted (intersect_with x (set_intersection f) s)
  intersect_with-StrictlySorted x f [] rest after = tt
  intersect_with-StrictlySorted x f (y ∷ ys) rest after = ground (
    arith,
    rest (y ∷ ys),
    rest ys,
    intersect_with-StrictlySorted x f ys rest after,
    AllAfter-set_intersection x f ys after,
  )

  -- The common entries ascend strictly again.
  pub set_intersection-StrictlySorted :
      (f s : List K) → StrictlySorted f → StrictlySorted (set_intersection f s)
  set_intersection-StrictlySorted [] s sorted = tt
  set_intersection-StrictlySorted (x ∷ f) s sorted =
      intersect_with-StrictlySorted x f s (λ t. set_intersection-StrictlySorted f t sorted.1)
        sorted.0

  length-intersect_with :
      (x : K) (f s : List K)
      → ((t : List K)
          → (length (set_intersection f t) ≤ length f) × (length (set_intersection f t) ≤ length t))
      → (length (intersect_with x (set_intersection f) s) ≤ length (x ∷ f))
        × (length (intersect_with x (set_intersection f) s) ≤ length s)
  length-intersect_with x f [] rest = omega arith
  length-intersect_with x f (y ∷ ys) rest =
      ground (arith, rest (y ∷ ys), rest ys, length-intersect_with x f ys rest)

  -- No more entries than either range has.
  pub length-set_intersection :
      (f s : List K)
      → (length (set_intersection f s) ≤ length f) × (length (set_intersection f s) ≤ length s)
  length-set_intersection [] s = omega arith
  length-set_intersection (x ∷ f) s = length-intersect_with x f s (λ t. length-set_intersection f t)
