-- ===== src/Base/Maps.antt =====
-- `std::map`: an association list in the order of its keys.
use mathlib.Core.Path.{◌≡◌, refl}
use mathlib.Core.List.{List, [], ◌∷◌}
use mathlib.Core.Option.{Option, none, some}
use Prim.Native.Nat.{Ordering}
use native.Mathlib.Omega.{arith}
use wookie.Base.Tests.{if◌then◌else◌, Option-cases}
use wookie.Base.Order.{Ord, same, same_iff}

abbrev pub Map {ℓ κ} : Type ℓ → Type κ → Type (ℓ ⊔ κ)
Map K V = List (K × V)

module _ {ℓ κ} {K : Type ℓ} {V : Type κ} ⦃o : Ord K⦄ where
  -- `find`.
  abbrev pub find : K → Map K V → Option V
  find k [] = none
  find k ((j, v) ∷ m) = if same k j then some v else find k m

  -- Puts an entry before the first greater key.
  abbrev pub place : K → V → Map K V → Map K V
  place k v [] = (k, v) ∷ []
  place k v ((j, w) ∷ m) = elim (o.cmp k j) [
    | Ordering.lt ↦ (k, v) ∷ (j, w) ∷ m
    | Ordering.eq ↦ (j, w) ∷ place k v m
    | Ordering.gt ↦ (j, w) ∷ place k v m
  ]

  -- `insert`: a key that is present keeps its value.
  abbrev pub insert : K → V → Map K V → Map K V
  insert k v m = elim (find k m) [ none ↦ place k v m | some w ↦ m ]

  -- A write through the iterator that `find` returns.
  abbrev pub modify : K → (V → V) → Map K V → Map K V
  modify k f [] = []
  modify k f ((j, v) ∷ m) = if same k j then (j, f v) ∷ m else (j, v) ∷ modify k f m

  -- `m[k] = v`.
  abbrev pub assign : K → V → Map K V → Map K V
  assign k v m = elim (find k m) [ none ↦ place k v m | some w ↦ modify k (λ x. v) m ]

  -- `erase`.
  abbrev pub erase : K → Map K V → Map K V
  erase k [] = []
  erase k ((j, v) ∷ m) = if same k j then m else (j, v) ∷ erase k m

  -- Every key is after `k`.
  abbrev pub Above : K → Map K V → Type 0
  Above k [] = Unit
  Above k ((j, v) ∷ m) = (o.cmp k j ≡ Ordering.lt) × Above k m

  -- The keys ascend strictly.
  abbrev pub Ascending : Map K V → Type 0
  Ascending [] = Unit
  Ascending ((k, v) ∷ m) = Above k m × Ascending m

  pub find-place :
      (j k : K) (v : V) (m : Map K V)
      → find k m ≡ none
      → find j (place k v m) ≡ (if same j k then some v else find j m)
  find-place j k v [] h = refl
  find-place j k v ((i, w) ∷ m) h = grind (arith, find-place j k v m, same_iff {K = K}, o.cmp_eq)

  pub find-insert :
      (j k : K) (v : V) (m : Map K V)
      → find j (insert k v m)
        ≡ elim (find j m) [ none ↦ if same j k then some v else none | some w ↦ some w ]
  find-insert j k v m = ground (arith, find-place j k v m, same_iff j k)

  pub find-modify :
      (j k : K) (f : V → V) (m : Map K V)
      → find j (modify k f m)
        ≡ (if same j k then elim (find k m) [ none ↦ none | some w ↦ some (f w) ] else find j m)
  find-modify j k f [] = ground arith
  find-modify j k f ((i, w) ∷ m) =
      ground (arith, find-modify j k f m, same_iff j k, same_iff j i, same_iff k i)

  pub find-assign :
      (j k : K) (v : V) (m : Map K V)
      → find j (assign k v m) ≡ (if same j k then some v else find j m)
  find-assign j k v m =
      ground (arith, find-place j k v m, find-modify j k (λ x. v) m, Option-cases (find k m))

  Above-trans : (k j : K) (m : Map K V) → o.cmp k j ≡ Ordering.lt → Above j m → Above k m
  Above-trans k j [] h a = tt
  Above-trans k j ((i, w) ∷ m) h a = (o.cmp_trans k j i h a.0, Above-trans k j m h a.1)

  pub find-Above : (k : K) (m : Map K V) → Above k m → find k m ≡ none
  find-Above k [] a = refl
  find-Above k ((i, w) ∷ m) a = ground (arith, find-Above k m a.1)

  place-Above :
      (i k : K) (v : V) (m : Map K V) → o.cmp i k ≡ Ordering.lt → Above i m → Above i (place k v m)
  place-Above i k v [] h a = (h, tt)
  place-Above i k v ((j, w) ∷ m) h a = ground (arith, place-Above i k v m h a.1)

  pub place-Ascending :
      (k : K) (v : V) (m : Map K V) → find k m ≡ none → Ascending m → Ascending (place k v m)
  place-Ascending k v [] h a = (tt, tt)
  place-Ascending k v ((j, w) ∷ m) h a =
      ground (arith, place-Ascending k v m, place-Above j k v m, o.cmp_gt k j, Above-trans k j m)

  pub insert-Ascending : (k : K) (v : V) (m : Map K V) → Ascending m → Ascending (insert k v m)
  insert-Ascending k v m a = ground (arith, place-Ascending k v m)

  modify-Above : (i k : K) (f : V → V) (m : Map K V) → Above i m → Above i (modify k f m)
  modify-Above i k f [] a = tt
  modify-Above i k f ((j, w) ∷ m) a = ground (arith, modify-Above i k f m a.1)

  pub modify-Ascending : (k : K) (f : V → V) (m : Map K V) → Ascending m → Ascending (modify k f m)
  modify-Ascending k f [] a = tt
  modify-Ascending k f ((j, w) ∷ m) a =
      ground (arith, modify-Ascending k f m a.1, modify-Above j k f m a.0)

  pub assign-Ascending : (k : K) (v : V) (m : Map K V) → Ascending m → Ascending (assign k v m)
  assign-Ascending k v m a = ground (arith, place-Ascending k v m, modify-Ascending k (λ x. v) m a)

  erase-Above : (i k : K) (m : Map K V) → Above i m → Above i (erase k m)
  erase-Above i k [] a = tt
  erase-Above i k ((j, w) ∷ m) a = ground (arith, erase-Above i k m a.1)

  pub erase-Ascending : (k : K) (m : Map K V) → Ascending m → Ascending (erase k m)
  erase-Ascending k [] a = tt
  erase-Ascending k ((j, w) ∷ m) a = ground (arith, erase-Ascending k m a.1, erase-Above j k m a.0)

  pub find-erase :
      (j k : K) (m : Map K V)
      → Ascending m
      → find j (erase k m) ≡ (if same j k then none else find j m)
  find-erase j k [] a = ground arith
  find-erase j k ((i, w) ∷ m) a =
      ground
        (arith, find-erase j k m a.1, find-Above i m a.0, same_iff j k, same_iff j i, same_iff k i)
