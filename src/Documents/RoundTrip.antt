-- ===== src/Documents/RoundTrip.antt =====
-- What is packed is unpacked, and only that.
use wookie.Base.{ℕ, ◌^◌, ◌<◌, ◌≡◌, List, [], ◌∷◌, arith, All, nat_ord, str_ord, ok, ℤ, pos, negsuc}
use wookie.MsgPack.{to_vector-array, uint, from_signed, to_signed, to_position}
use wookie.Documents.{
  Time, Document, IndexData, pack_time, pack_document, pack_index_data, unpack_time,
  unpack_document, unpack_index_data,
}

-- The fields fit their C++ types.
abbrev pub FitsTime : Time → Type 0
FitsTime t = (t.tsec < 2 ^ 64) × (t.tnsec < 2 ^ 64)

pub unpack_time-pack_time : (t : Time) → FitsTime t → unpack_time (pack_time t) ≡ ok t
unfolding unpack_time pack_time
unpack_time-pack_time t h = ground arith

-- Every document whose time fits two `uint64_t` is unpacked from its packed object unchanged.
pub unpack_document-pack_document :
    (d : Document) → FitsTime d.ts → unpack_document (pack_document d) ≡ ok d
unfolding unpack_document pack_document
unpack_document-pack_document d h = ground (arith, unpack_time-pack_time d.ts h)

positions_fit : (ps : List ℕ) → All (λ p. p < 2 ^ 31) ps → All (λ p. to_position (uint p) ≡ ok p) ps
positions_fit [] h = tt
positions_fit (p ∷ ps) h = (ground arith, positions_fit ps h.1)

abbrev pub FitsSigned : ℕ → ℤ → Type 0
FitsSigned bound (pos n) = n < bound
FitsSigned bound (negsuc n) = n < bound

pub signed_fit : (bound : ℕ) (z : ℤ) → FitsSigned bound z → to_signed bound (from_signed z) ≡ ok z
signed_fit bound (pos n) h = ground arith
signed_fit bound (negsuc n) h = ground arith

-- Index data whose time fits two `uint64_t` and whose positions fit an `int` is unpacked unchanged.
pub unpack_index_data-pack_index_data :
    (d : IndexData)
    → FitsTime d.ts
    → All (λ p. p < 2 ^ 31) d.positions
    → unpack_index_data (pack_index_data d) ≡ ok d
unfolding unpack_index_data pack_index_data
unpack_index_data-pack_index_data d h k = ground (
  arith,
  unpack_time-pack_time d.ts h,
  to_vector-array to_position uint d.positions (positions_fit d.positions k),
)
