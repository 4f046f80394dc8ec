-- ===== src/Base/Sort.antt =====
-- `std::sort` over a total order, and `std::unique`. Equal keys are one value, so every sorting
-- algorithm gives this list.
use mathlib.Core.Path.{◌≡◌, refl}
use mathlib.Core.Logic.{◌≢◌}
use mathlib.Core.Bool.{Bool, true, false, ◌||◌}
use mathlib.Core.List.{List, [], ◌∷◌, ◌++◌}
use Prim.Native.Nat.{Ordering}
use native.Mathlib.Omega.{arith}
use wookie.Base.Order.{Ord, same, same_iff}

module _ {ℓ} {K : Type ℓ} ⦃o : Ord K⦄ where
  abbrev pub contains : K → List K → Bool
  contains k [] = false
  contains k (x ∷ xs) = same k x || contains k xs

  -- No entry twice.
  abbrev pub Distinct : List K → Type 0
  Distinct [] = Unit
  Distinct (x ∷ xs) = (contains x xs ≡ false) × Distinct xs

  pub contains-append :
      (k : K) (xs ys : List K) → contains k (xs ++ ys) ≡ (contains k xs || contains k ys)
  contains-append k [] ys = refl
  contains-append k (x ∷ xs) ys = ground (arith, contains-append k xs ys)

  pub Distinct-append :
      (xs ys : List K)
      → Distinct xs
      → Distinct ys
      → ((k : K) → contains k xs ≡ true → contains k ys ≡ false)
      → Distinct (xs ++ ys)
  Distinct-append [] ys dx dy apart = dy
  Distinct-append (x ∷ xs) ys dx dy apart = (
    ground (arith, contains-append x xs ys, apart x, dx.0, same_iff x x),
    Distinct-append xs ys dx.1 dy (λ k h. apart k (ground arith)),
  )

  abbrev pub insert_sorted : K → List K → List K
  insert_sorted k [] = k ∷ []
  insert_sorted k (x ∷ xs) = elim (o.cmp k x) [
    | Ordering.lt ↦ k ∷ x ∷ xs
    | Ordering.eq ↦ k ∷ x ∷ xs
    | Ordering.gt ↦ x ∷ insert_sorted k xs
  ]

  abbrev pub sort : List K → List K
  sort [] = []
  sort (x ∷ xs) = insert_sorted x (sort xs)

  -- Drops an entry that equals the entry before it.
  abbrev pub unique_after : K → List K → List K
  unique_after k [] = []
  unique_after k (x ∷ xs) = elim (same k x) [
    | true ↦ unique_after k xs
    | false ↦ x ∷ unique_after x xs
  ]

  abbrev pub unique : List K → List K
  unique [] = []
  unique (x ∷ xs) = x ∷ unique_after x xs

  abbrev pub sort_unique : List K → List K
  sort_unique xs = unique (sort xs)

  -- Every entry is after `k`.
  abbrev pub AllAfter : K → List K → Type 0
  AllAfter k [] = Unit
  AllAfter k (x ∷ xs) = (o.cmp k x ≡ Ordering.lt) × AllAfter k xs

  abbrev pub StrictlySorted : List K → Type 0
  StrictlySorted [] = Unit
  StrictlySorted (x ∷ xs) = AllAfter x xs × StrictlySorted xs

  -- No entry is before `k`.
  abbrev NoneBefore : K → List K → Type 0
  NoneBefore k [] = Unit
  NoneBefore k (x ∷ xs) = (o.cmp k x ≢ Ordering.gt) × NoneBefore k xs

  abbrev Sorted : List K → Type 0
  Sorted [] = Unit
  Sorted (x ∷ xs) = NoneBefore x xs × Sorted xs

  le_trans :
      (a b c : K) → o.cmp a b ≢ Ordering.gt → o.cmp b c ≢ Ordering.gt → o.cmp a c ≢ Ordering.gt
  le_trans a b c h k = ground (
    arith,
    o.cmp_eq a b,
    o.cmp_eq b c,
    o.cmp_trans a b c,
    o.cmp_gt a c,
    o.cmp_refl a,
    o.cmp_trans c a b,
    o.cmp_trans b c a,
    o.cmp_refl b,
  )

  NoneBefore-trans :
      (a b : K) (xs : List K) → o.cmp a b ≢ Ordering.gt → NoneBefore b xs → NoneBefore a xs
  NoneBefore-trans a b [] h n = tt
  NoneBefore-trans a b (x ∷ xs) h n = (le_trans a b x h n.0, NoneBefore-trans a b xs h n.1)

  insert_sorted-NoneBefore :
      (a k : K) (xs : List K)
      → o.cmp a k ≢ Ordering.gt
      → NoneBefore a xs
      → NoneBefore a (insert_sorted k xs)
  insert_sorted-NoneBefore a k [] h n = (h, tt)
  insert_sorted-NoneBefore a k (x ∷ xs) h n = ground (arith, insert_sorted-NoneBefore a k xs h n.1)

  insert_sorted-Sorted : (k : K) (xs : List K) → Sorted xs → Sorted (insert_sorted k xs)
  insert_sorted-Sorted k [] s = (tt, tt)
  insert_sorted-Sorted k (x ∷ xs) s = ground (
    arith,
    insert_sorted-Sorted k xs s.1,
    NoneBefore-trans k x xs,
    insert_sorted-NoneBefore x k xs,
    o.cmp_gt k x,
  )

  sort-Sorted : (xs : List K) → Sorted (sort xs)
  sort-Sorted [] = tt
  sort-Sorted (x ∷ xs) = insert_sorted-Sorted x (sort xs) (sort-Sorted xs)

  pub AllAfter-trans :
      (a b : K) (xs : List K) → o.cmp a b ≡ Ordering.lt → AllAfter b xs → AllAfter a xs
  AllAfter-trans a b [] h n = tt
  AllAfter-trans a b (x ∷ xs) h n = (o.cmp_trans a b x h n.0, AllAfter-trans a b xs h n.1)

  unique_after-StrictlySorted :
      (k : K) (xs : List K)
      → NoneBefore k xs
      → Sorted xs
      → AllAfter k (unique_after k xs) × StrictlySorted (unique_after k xs)
  unique_after-StrictlySorted k [] n s = (tt, tt)
  unique_after-StrictlySorted k (x ∷ xs) n s = ground (
    arith,
    unique_after-StrictlySorted k xs n.1 s.1,
    unique_after-StrictlySorted x xs s.0 s.1,
    AllAfter-trans k x (unique_after x xs),
  )

  unique-StrictlySorted : (xs : List K) → Sorted xs → StrictlySorted (unique xs)
  unique-StrictlySorted [] s = tt
  unique-StrictlySorted (x ∷ xs) s = unique_after-StrictlySorted x xs s.0 s.1

  -- The result ascends strictly, so it has no repetition.
  pub sort_unique-StrictlySorted : (xs : List K) → StrictlySorted (sort_unique xs)
  sort_unique-StrictlySorted xs = unique-StrictlySorted (sort xs) (sort-Sorted xs)

  pub contains-insert_sorted :
      (a k : K) (xs : List K) → contains a (insert_sorted k xs) ≡ (same a k || contains a xs)
  contains-insert_sorted a k [] = refl
  contains-insert_sorted a k (x ∷ xs) = ground (arith, contains-insert_sorted a k xs)

  pub insert_sorted-Distinct :
      (k : K) (xs : List K) → contains k xs ≡ false → Distinct xs → Distinct (insert_sorted k xs)
  insert_sorted-Distinct k [] h d = (refl, tt)
  insert_sorted-Distinct k (x ∷ xs) h d = ground (
    arith,
    insert_sorted-Distinct k xs,
    contains-insert_sorted x k xs,
    same_iff x k,
    same_iff k x,
    d,
  )

  contains-sort : (a : K) (xs : List K) → contains a (sort xs) ≡ contains a xs
  contains-sort a [] = refl
  contains-sort a (x ∷ xs) =
      ground (arith, contains-insert_sorted a x (sort xs), contains-sort a xs)

  contains-unique_after :
      (a k : K) (xs : List K)
      → (same a k || contains a (unique_after k xs)) ≡ (same a k || contains a xs)
  contains-unique_after a k [] = refl
  contains-unique_after a k (x ∷ xs) = ground (
    arith,
    contains-unique_after a k xs,
    contains-unique_after a x xs,
    same_iff k x,
    same_iff a k,
    same_iff a x,
  )

  contains-unique : (a : K) (xs : List K) → contains a (unique xs) ≡ contains a xs
  contains-unique a [] = refl
  contains-unique a (x ∷ xs) = contains-unique_after a x xs

  -- Sorting and dropping repetitions keeps what the list contains.
  pub contains-sort_unique : (a : K) (xs : List K) → contains a (sort_unique xs) ≡ contains a xs
  contains-sort_unique a xs = ground (arith, contains-unique a (sort xs), contains-sort a xs)
