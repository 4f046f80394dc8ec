-- ===== src/Base/Bags.antt =====
-- Lists whose order is forgotten.
use Prim.Native.Nat.{ℕ}
use mathlib.Core.Path.{◌≡◌, refl, ap, ◌∙◌}
use mathlib.Core.Bool.{Bool}
use mathlib.Core.List.{List, Permᴰ}
use mathlib.Core.Quot
use mathlib.Core.Quot.{Quot}
use native.Mathlib.Nat.{ℕ_set}
use native.Mathlib.Omega.{arith}
use wookie.Base.Lists.{count_if}

abbrev pub Bag {ℓ} : Type ℓ → Type ℓ
Bag A = Quot {α = List A} Permᴰ

module _ {ℓ} {A : Type ℓ} where
  abbrev pub bag : List A → Bag A
  bag xs = Quot.mk xs

  count_if-Permᴰ : (p : A → Bool) {xs ys : List A} → Permᴰ xs ys → count_if p xs ≡ count_if p ys
  count_if-Permᴰ p Permᴰ.nil = refl
  count_if-Permᴰ p (Permᴰ.cons e d) = ground (arith, ap p e, count_if-Permᴰ p d)
  count_if-Permᴰ p (Permᴰ.swap e f) = ground (arith, ap p e, ap p f)
  count_if-Permᴰ p (Permᴰ.trans d e) = count_if-Permᴰ p d ∙ count_if-Permᴰ p e

  -- The number of entries that pass a test.
  pub count_bag : (A → Bool) → Bag A → ℕ
  count_bag p = Quot.lift ℕ_set (count_if p) (λ xs ys d. count_if-Permᴰ p d)

  pub count_bag-bag : (p : A → Bool) (xs : List A) → count_bag p (bag xs) ≡ count_if p xs
  unfolding count_bag
  count_bag-bag p xs = refl
