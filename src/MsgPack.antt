-- ===== src/MsgPack.antt =====
-- What the program uses of msgpack: objects, and `msgpack::object::convert` into the C++ types that
-- occur. The byte format itself is a parameter, `Codec`.
use wookie.Base.{
  ◌>>=◌, ℕ, ◌^◌, ◌≡◌, refl, sym, ap, ◌∙◌, arith, Option, none, some, List, [], ◌∷◌, ltb,
  if◌then◌else◌, get_elem?, Str, nat_ord, str_ord, type_error, Result, ok, err, or_err, map_result,
  map, All, ℤ, pos, negsuc,
}

mutual
  -- `msgpack::object`. `nint n` is the negative integer -(n + 1); `other` stands for nil, the
  -- Booleans, floats and maps, which no conversion of the program accepts.
  pub data Object : Type 0 where
    uint : ℕ → Object
    nint : ℕ → Object
    raw : Str → Object
    arr : Objects → Object
    other : Object

  pub data Objects : Type 0 where
    nil : Objects
    cons : Object → Objects → Objects

abbrev pub from_list : List Object → Objects
from_list [] = nil
from_list (o ∷ os) = cons o (from_list os)

abbrev pub to_list : Objects → List Object
to_list nil = []
to_list (cons o os) = o ∷ to_list os

-- `pack_array` and the values packed after it.
abbrev pub array : List Object → Object
array os = arr (from_list os)

-- `o.via.array`, where `o.type` is `ARRAY`.
abbrev pub via_array : Object → Option (List Object)
via_array (uint n) = none
via_array (nint n) = none
via_array (raw s) = none
via_array (arr os) = some (to_list os)
via_array other = none

-- `convert` into `uint64_t`, `int`, `long` and `std::string`.
abbrev pub to_uint64 : Object → Result ℕ
to_uint64 (uint n) = if ltb n (2 ^ 64) then ok n else err type_error
to_uint64 (nint n) = err type_error
to_uint64 (raw s) = err type_error
to_uint64 (arr os) = err type_error
to_uint64 other = err type_error

-- A signed integer with `2 ^ w` values from zero up.
abbrev pub to_signed : ℕ → Object → Result ℤ
to_signed bound (uint n) = if ltb n bound then ok (pos n) else err type_error
to_signed bound (nint n) = if ltb n bound then ok (negsuc n) else err type_error
to_signed bound (raw s) = err type_error
to_signed bound (arr os) = err type_error
to_signed bound other = err type_error

abbrev pub from_signed : ℤ → Object
from_signed (pos n) = uint n
from_signed (negsuc n) = nint n

abbrev pub to_int : Object → Result ℤ
to_int = to_signed (2 ^ 31)

abbrev pub to_long : Object → Result ℤ
to_long = to_signed (2 ^ 63)

-- An `int` that counts words: no negative position is ever packed, and one is refused here.
abbrev pub to_position : Object → Result ℕ
to_position (uint n) = if ltb n (2 ^ 31) then ok n else err type_error
to_position (nint n) = err type_error
to_position (raw s) = err type_error
to_position (arr os) = err type_error
to_position other = err type_error

abbrev pub to_str : Object → Result Str
to_str (uint n) = err type_error
to_str (nint n) = err type_error
to_str (raw s) = ok s
to_str (arr os) = err type_error
to_str other = err type_error

-- `convert` into a `std::vector`.
abbrev pub to_vector : {A : Type 0} → (Object → Result A) → Object → Result (List A)
to_vector f o = do os ← or_err (via_array o) type_error; map_result f os

-- `p[i]` of an array whose size has been tested.
abbrev pub item : List Object → ℕ → Result Object
item p i = or_err (get_elem? p i) type_error

-- The byte format: `msgpack::pack` into a buffer and `msgpack::unpack` from it, which throws on
-- bytes that hold no object. `Data` is `elliptics::data_pointer`.
pub record Codec : Type 1 where
  pub Data : Type 0
  pub pack : Object → Data
  pub unpack : Data → Result Object

-- msgpack's documented law: what was packed is unpacked.
abbrev pub RoundTrips : Codec → Type 0
RoundTrips c = (o : Object) → c.unpack (c.pack o) ≡ ok o

pub to_list-from_list : (os : List Object) → to_list (from_list os) ≡ os
to_list-from_list [] = refl
to_list-from_list (o ∷ os) = ap (◌∷◌ o) (to_list-from_list os)

pub from_list-to_list : (os : Objects) → from_list (to_list os) ≡ os
from_list-to_list nil = refl
from_list-to_list (cons o os) = ap (cons o) (from_list-to_list os)

-- An array is given back by its items.
pub via_array-array : (o : Object) {os : List Object} → via_array o ≡ some os → o ≡ array os
via_array-array (uint n) h = cc
via_array-array (nint n) h = cc
via_array-array (raw s) h = cc
via_array-array (arr xs) {os} h =
    let e : to_list xs ≡ os = ground arith in ap arr (sym (from_list-to_list xs) ∙ ap from_list e)
via_array-array other h = cc

-- Lists whose items are given back.
map_result-map :
    {A : Type 0} (f : Object → Result A) (g : A → Object) (xs : List A)
    → All (λ x. f (g x) ≡ ok x) xs
    → map_result f (map g xs) ≡ ok xs
map_result-map f g [] h = refl
map_result-map f g (x ∷ xs) h = rw (h.0, map_result-map f g xs h.1)

pub to_vector-array :
    {A : Type 0} (f : Object → Result A) (g : A → Object) (xs : List A)
    → All (λ x. f (g x) ≡ ok x) xs
    → to_vector f (array (map g xs)) ≡ ok xs
to_vector-array f g xs h = rw (to_list-from_list (map g xs)) (map_result-map f g xs h)
