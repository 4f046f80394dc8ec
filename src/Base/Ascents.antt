-- ===== src/Base/Ascents.antt =====
-- Strictly ascending lists are given by what they contain.
use mathlib.Core.Path.{◌≡◌, refl, sym, ap₂, ◌∙◌}
use mathlib.Core.Bool.{true}
use mathlib.Core.List.{List, [], ◌∷◌}
use Prim.Native.Nat.{Ordering}
use native.Mathlib.Omega.{arith}
use wookie.Base.Tests.{Bool-cases}
use wookie.Base.Order.{Ord, same_iff}
use wookie.Base.Sort.{
  contains, AllAfter, StrictlySorted, sort_unique, sort_unique-StrictlySorted, contains-sort_unique,
}

module _ {ℓ} {K : Type ℓ} ⦃o : Ord K⦄ where
  AllAfter-contains :
      (k a : K) (xs : List K) → AllAfter k xs → contains a xs ≡ true → o.cmp k a ≡ Ordering.lt
  AllAfter-contains k a [] after there = cc
  AllAfter-contains k a (x ∷ xs) after there =
      ground (arith, there, after.0, AllAfter-contains k a xs after.1, same_iff a x)

  first_same :
      (x y : K) (xs ys : List K)
      → AllAfter x xs
      → AllAfter y ys
      → contains x (y ∷ ys) ≡ true
      → contains y (x ∷ xs) ≡ true
      → x ≡ y
  first_same x y xs ys after_x after_y there back = ground (
    arith,
    there,
    back,
    AllAfter-contains x y xs after_x,
    AllAfter-contains y x ys after_y,
    same_iff x y,
    same_iff y x,
    o.cmp_trans x y x,
    o.cmp_refl x,
  )

  StrictlySorted-unique :
      (xs ys : List K)
      → StrictlySorted xs
      → StrictlySorted ys
      → ((a : K) → contains a xs ≡ contains a ys)
      → xs ≡ ys
  StrictlySorted-unique [] [] sx sy h = refl
  StrictlySorted-unique [] (y ∷ ys) sx sy h = absurd (ground (arith, h y, same_iff y y))
  StrictlySorted-unique (x ∷ xs) [] sx sy h = absurd (ground (arith, h x, same_iff x x))
  StrictlySorted-unique (x ∷ xs) (y ∷ ys) sx sy h =
      let e : x ≡ y =
        first_same x y xs ys sx.0 sy.0 (ground (arith, h x, same_iff x x))
          (ground (arith, h y, same_iff y y)) in
      ap₂ ◌∷◌ e (
        StrictlySorted-unique xs ys sx.1 sy.1 λ a. ground (
          arith,
          e,
          h a,
          same_iff a x,
          same_iff a y,
          AllAfter-contains x a xs sx.0,
          AllAfter-contains y a ys sy.0,
          o.cmp_refl a,
          Bool-cases (contains a xs),
          Bool-cases (contains a ys),
        ))

  -- Lists with the same entries have the same sorted list without repetitions.
  pub sort_unique-same :
      (xs ys : List K) → ((a : K) → contains a xs ≡ contains a ys) → sort_unique xs ≡ sort_unique ys
  sort_unique-same xs ys h =
      StrictlySorted-unique (sort_unique xs) (sort_unique ys) (sort_unique-StrictlySorted xs)
        (sort_unique-StrictlySorted ys)
        λ a. contains-sort_unique a xs ∙ h a ∙ sym (contains-sort_unique a ys)
