-- ===== src/Documents.antt =====
-- include/wookie/document.hpp, include/wookie/index_data.hpp and test/similarity/simdoc.hpp: the
-- stored structures as msgpack objects. An `int` that is a word position is a natural number; the
-- word counts of a `simdoc` are not packed and stand in its component.
pub mod RoundTrip
pub mod Versions
mod Tests
use wookie.Base.{
  ◌>>=◌, ℕ, none, some, List, [], ◌∷◌, map, ◌==◌, if◌then◌else◌, length, Str, nat_ord, str_ord,
  Error, type_error, elliptics_error, Result, ok, err, eproto, ℤ, pos, negsuc,
}
use wookie.MsgPack.{
  Object, uint, raw, array, via_array, item, to_uint64, to_int, to_long, from_signed, to_position,
  to_str, to_vector,
}

-- `dnet_time`.
pub record Time : Type 0 where
  pub tsec : ℕ
  pub tnsec : ℕ

-- `document`: its field `data` is `body` here.
pub record Document : Type 0 where
  pub ts : Time
  pub key : Str
  pub body : Str

abbrev pub document_version : ℕ
document_version = 1

pub record IndexData : Type 0 where
  pub ts : Time
  pub key : Str
  pub positions : List ℕ

abbrev pub index_data_version : ℕ
index_data_version = 2

-- `simdoc`, without `name` and `tf`, which are not packed.
pub record Simdoc : Type 0 where
  pub id : ℤ
  pub text : Str
  pub ngrams : List ℤ

abbrev pub simdoc_version : ℕ
simdoc_version = 1

-- `operator<<` for `dnet_time`, `document`, `index_data` and `simdoc`.
pub pack_time : Time → Object
pack_time t = array (uint t.tsec ∷ uint t.tnsec ∷ [])

pub pack_document : Document → Object
unfolding pack_time
pack_document d = array (uint document_version ∷ pack_time d.ts ∷ raw d.key ∷ raw d.body ∷ [])

pub pack_index_data : IndexData → Object
unfolding pack_time
pack_index_data d =
    array (uint index_data_version ∷ pack_time d.ts ∷ array (map uint d.positions) ∷ raw d.key ∷ [])

pub pack_simdoc : Simdoc → Object
pack_simdoc d =
    array
      (uint simdoc_version ∷ from_signed d.id ∷ raw d.text ∷ array (map from_signed d.ngrams) ∷ [])

-- The array of an object, if it has `n` items.
abbrev array_of : ℕ → Error → Object → Result (List Object)
array_of n e o = elim (via_array o) [
  | none ↦ err e
  | some p ↦ if length p == n then ok p else err e
]

-- The size and version tests with which three of the operators begin.
abbrev versioned : ℕ → Object → Result (List Object)
versioned version o = do
  p ← array_of 4 (elliptics_error eproto) o
  v ← item p 0
  found ← to_int v
  elim found [
    | pos n ↦ if n == version then ok p else err (elliptics_error eproto)
    | negsuc n ↦ err (elliptics_error eproto)
  ]

abbrev field : {A : Type 0} → (Object → Result A) → List Object → ℕ → Result A
field f p i = do o ← item p i; f o

-- `operator>>` for the same four.
pub unpack_time : Object → Result Time
unpack_time o = do
  p ← array_of 2 type_error o
  tsec ← field to_uint64 p 0
  tnsec ← field to_uint64 p 1
  ok (record { tsec = tsec; tnsec = tnsec })

pub unpack_document : Object → Result Document
unfolding unpack_time
unpack_document o = do
  p ← versioned document_version o
  ts ← field unpack_time p 1
  key ← field to_str p 2
  body ← field to_str p 3
  ok (record { ts = ts; key = key; body = body })

-- The code's positions are an `int`; no splitter writes a negative one, and one is refused here.
pub unpack_index_data : Object → Result IndexData
unfolding unpack_time
unpack_index_data o = do
  p ← versioned index_data_version o
  ts ← field unpack_time p 1
  positions ← field (to_vector to_position) p 2
  key ← field to_str p 3
  ok (record { ts = ts; key = key; positions = positions })

pub unpack_simdoc : Object → Result Simdoc
unpack_simdoc o = do
  p ← versioned simdoc_version o
  id ← field to_int p 1
  text ← field to_str p 2
  ngrams ← field (to_vector to_long) p 3
  ok (record { id = id; text = text; ngrams = ngrams })
