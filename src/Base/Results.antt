-- ===== src/Base/Results.antt =====
-- Exceptions as values, and the integers.
use Prim.Native.Nat.{ℕ}
use mathlib.Core.Path.{◌≡◌, refl}
use mathlib.Core.Logic.{◌⊎◌, inl, inr}
use mathlib.Core.Option.{Option, none, some}
use mathlib.Core.List.{List, [], ◌∷◌, ◌++◌}

-- What the program throws: `msgpack::type_error`, `msgpack::unpack_error`, an `elliptics::error`
-- with its code (the positive errno), `std::out_of_range` and `std::runtime_error`.
pub data Error : Type 0 where
  type_error unpack_error out_of_range runtime_error : Error
  elliptics_error : ℕ → Error

pub data Result {ℓ} (A : Type ℓ) : Type ℓ where
  err : (thrown : Error) → Result A
  ok : (value : A) → Result A

-- A statement and those after it, which an exception skips.
infixl 4 ◌>>=◌
abbrev pub ◌>>=◌ {ℓ₀ ℓ₁} : {A : Type ℓ₀} → {B : Type ℓ₁} → Result A → (A → Result B) → Result B
err thrown >>= next = err thrown
ok value >>= next = next value

-- `EPROTO`, `ENOENT` and `EINVAL`.
abbrev pub eproto : ℕ
eproto = 71

abbrev pub enoent : ℕ
enoent = 2

abbrev pub einval : ℕ
einval = 22

abbrev pub or_err {ℓ} : {A : Type ℓ} → Option A → Error → Result A
or_err none e = err e
or_err (some a) e = ok a

pub Result-cases {ℓ} :
    {A : Type ℓ} (r : Result A) → ((a : A) × (r ≡ ok a)) ⊎ ((e : Error) × (r ≡ err e))
Result-cases (ok a) = inl (a, refl)
Result-cases (err e) = inr (e, refl)

module _ {ℓ κ} {A : Type ℓ} {B : Type κ} where
  -- The call on every entry, in order; the first exception ends it.
  abbrev pub map_result : (A → Result B) → List A → Result (List B)
  map_result f [] = ok []
  map_result f (x ∷ xs) = do y ← f x; ys ← map_result f xs; ok (y ∷ ys)

  -- What a chain that throws nothing went through.
  pub >>=-eq-ok :
      (first : Result A) (next : A → Result B) {result : B}
      → (first >>= next) ≡ ok result
      → (value : A) × (first ≡ ok value) × (next value ≡ ok result)
  >>=-eq-ok (err thrown) next returned = cc
  >>=-eq-ok (ok value) next returned = (value, refl, returned)

  -- Two lists, one after the other.
  pub map_result-append :
      (f : A → Result B) (xs ys : List A)
      → map_result f (xs ++ ys)
        ≡ (map_result f xs >>= λ us. map_result f ys >>= λ vs. ok (us ++ vs))
  map_result-append f [] ys = elim (Result-cases (map_result f ys)) [
    | inl (vs, h) ↦ rw h refl
    | inr (e, h) ↦ rw h refl
  ]
  map_result-append f (x ∷ xs) ys = elim (Result-cases (f x)) [
    | inr (e, h) ↦ rw h refl
    | inl (u, h) ↦ rw h (
        rw (map_result-append f xs ys) (elim (Result-cases (map_result f xs)) [
          | inr (e, k) ↦ rw k refl
          | inl (us, k) ↦ rw k (elim (Result-cases (map_result f ys)) [
            | inr (e, l) ↦ rw l refl
            | inl (vs, l) ↦ rw l refl
          ])
        ]))
  ]

-- `negsuc n` is -(n + 1).
pub data ℤ : Type 0 where
  pos : ℕ → ℤ
  negsuc : ℕ → ℤ
