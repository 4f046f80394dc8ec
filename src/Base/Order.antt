-- ===== src/Base/Order.antt =====
-- Ordered keys: `operator<` of `std::string` and of the integers, as a three-way comparison.
use Prim.Native.Nat.{ℕ, compare, Ordering}
use mathlib.Core.Path.{◌≡◌, refl}
use mathlib.Core.Logic.{◌↔◌}
use mathlib.Core.Bool.{Bool, true, false}
use mathlib.Core.List.{List, [], ◌∷◌}
use native.Mathlib.Omega.{arith}

-- A type with a strict total order.
pub record Ord {ℓ} (K : Type ℓ) : Type ℓ where
  pub cmp : K → K → Ordering
  pub cmp_refl : (a : K) → cmp a a ≡ Ordering.eq
  pub cmp_eq : (a b : K) → cmp a b ≡ Ordering.eq → a ≡ b
  pub cmp_gt : (a b : K) → cmp a b ≡ Ordering.gt → cmp b a ≡ Ordering.lt
  pub cmp_trans :
      (a b c : K) → cmp a b ≡ Ordering.lt → cmp b c ≡ Ordering.lt → cmp a c ≡ Ordering.lt

module _ {ℓ} {K : Type ℓ} ⦃o : Ord K⦄ where
  -- Neither key is before the other: the containers' test for the same key.
  abbrev pub same : K → K → Bool
  same a b = elim (o.cmp a b) [ Ordering.eq ↦ true | _ ↦ false ]

  pub same_iff : (a b : K) → (same a b ≡ true) ↔ (a ≡ b)
  same_iff a b = (λ h. o.cmp_eq a b (ground arith), λ h. rw h (ground (arith, o.cmp_refl b)))

pub compare_refl : (a : ℕ) → compare a a ≡ Ordering.eq
compare_refl a = ground arith

pub compare_eq : (a b : ℕ) → compare a b ≡ Ordering.eq → a ≡ b
compare_eq a b h = ground arith

pub compare_gt : (a b : ℕ) → compare a b ≡ Ordering.gt → compare b a ≡ Ordering.lt
compare_gt a b h = ground arith

pub compare_trans :
    (a b c : ℕ) → compare a b ≡ Ordering.lt → compare b c ≡ Ordering.lt → compare a c ≡ Ordering.lt
compare_trans a b c h k = ground arith

instance abbrev pub nat_ord : Ord ℕ
nat_ord = record {
  cmp = compare;
  cmp_refl = compare_refl;
  cmp_eq = compare_eq;
  cmp_gt = compare_gt;
  cmp_trans = compare_trans;
}

-- A `std::string` is the list of its bytes.
abbrev pub Str : Type 0
Str = List ℕ

unfoldable pub str_compare : Str → Str → Ordering
str_compare [] [] = Ordering.eq
str_compare [] (y ∷ ys) = Ordering.lt
str_compare (x ∷ xs) [] = Ordering.gt
str_compare (x ∷ xs) (y ∷ ys) = elim (compare x y) [
  | Ordering.lt ↦ Ordering.lt
  | Ordering.eq ↦ str_compare xs ys
  | Ordering.gt ↦ Ordering.gt
]

pub str_compare_refl : (a : Str) → str_compare a a ≡ Ordering.eq
unfolding str_compare
str_compare_refl [] = refl
str_compare_refl (x ∷ xs) = ground (arith, str_compare_refl xs)

pub str_compare_eq : (a b : Str) → str_compare a b ≡ Ordering.eq → a ≡ b
unfolding str_compare
str_compare_eq [] [] h = refl
str_compare_eq [] (y ∷ ys) h = cc
str_compare_eq (x ∷ xs) [] h = cc
str_compare_eq (x ∷ xs) (y ∷ ys) h = ground (arith, str_compare_eq xs ys)

pub str_compare_gt : (a b : Str) → str_compare a b ≡ Ordering.gt → str_compare b a ≡ Ordering.lt
unfolding str_compare
str_compare_gt [] [] h = cc
str_compare_gt [] (y ∷ ys) h = cc
str_compare_gt (x ∷ xs) [] h = refl
str_compare_gt (x ∷ xs) (y ∷ ys) h = ground (arith, str_compare_gt xs ys)

pub str_compare_trans :
    (a b c : Str)
    → str_compare a b ≡ Ordering.lt
    → str_compare b c ≡ Ordering.lt
    → str_compare a c ≡ Ordering.lt
unfolding str_compare
str_compare_trans [] [] [] h k = h
str_compare_trans [] [] (z ∷ zs) h k = k
str_compare_trans [] (y ∷ ys) [] h k = cc
str_compare_trans [] (y ∷ ys) (z ∷ zs) h k = refl
str_compare_trans (x ∷ xs) [] [] h k = cc
str_compare_trans (x ∷ xs) [] (z ∷ zs) h k = cc
str_compare_trans (x ∷ xs) (y ∷ ys) [] h k = cc
str_compare_trans (x ∷ xs) (y ∷ ys) (z ∷ zs) h k = ground (arith, str_compare_trans xs ys zs)

instance abbrev pub str_ord : Ord Str
str_ord = record {
  cmp = str_compare;
  cmp_refl = str_compare_refl;
  cmp_eq = str_compare_eq;
  cmp_gt = str_compare_gt;
  cmp_trans = str_compare_trans;
}

-- `operator==` of `std::string`.
abbrev pub str_eq : Str → Str → Bool
str_eq a b = same a b

pub str_eq_iff : (a b : Str) → (str_eq a b ≡ true) ↔ (a ≡ b)
str_eq_iff a b = same_iff a b
