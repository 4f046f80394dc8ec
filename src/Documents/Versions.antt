-- ===== src/Documents/Versions.antt =====
-- What the operators refuse: objects of another shape or version, the other structures among them.
use wookie.Base.{
  ℕ, ◌^◌, ◌<◌, ◌≡◌, refl, ap, ◌∙◌, ◌≢◌, inl, inr, some, List, [], ◌∷◌, map, arith, Option-cases,
  length, Str, nat_ord, str_ord, Error, type_error, elliptics_error, ok, err, ◌>>=◌, eproto,
  >>=-eq-ok, ℤ, pos, negsuc, Result-cases,
}
use wookie.MsgPack.{
  Object, uint, nint, raw, arr, other, array, via_array, to_uint64, to_int, from_signed, to_str,
  via_array-array,
}
use wookie.Documents.{
  Time, Document, IndexData, Simdoc, document_version, simdoc_version, pack_time, pack_document,
  pack_index_data, pack_simdoc, array_of, versioned, field, unpack_time, unpack_document,
  unpack_index_data, unpack_simdoc,
}
use wookie.Documents.RoundTrip.{FitsTime}

to_str-eq-ok : (o : Object) {s : Str} → to_str o ≡ ok s → o ≡ raw s
to_str-eq-ok (uint n) h = cc
to_str-eq-ok (nint n) h = cc
to_str-eq-ok (raw s) h = ground arith
to_str-eq-ok (arr os) h = cc
to_str-eq-ok other h = cc

to_uint64-eq-ok : (o : Object) {n : ℕ} → to_uint64 o ≡ ok n → (o ≡ uint n) × (n < 2 ^ 64)
to_uint64-eq-ok (uint n) h = ground arith
to_uint64-eq-ok (nint n) h = cc
to_uint64-eq-ok (raw s) h = cc
to_uint64-eq-ok (arr os) h = cc
to_uint64-eq-ok other h = cc

array_of-eq-ok :
    (n : ℕ) (e : Error) (o : Object) {p : List Object}
    → array_of n e o ≡ ok p
    → (o ≡ array p) × (length p ≡ n)
array_of-eq-ok n e o {p} h = elim (Option-cases (via_array o)) [
  | inl miss ↦ ground (arith, miss)
  | inr (q, hit) ↦ ground (arith, hit, via_array-array o hit)
]

to_int-eq-ok : (o : Object) {n : ℕ} → to_int o ≡ ok (pos n) → o ≡ uint n
to_int-eq-ok (uint n) h = ground arith
to_int-eq-ok (nint n) h = ground arith
to_int-eq-ok (raw s) h = cc
to_int-eq-ok (arr os) h = cc
to_int-eq-ok other h = cc

unpack_time-eq-ok : (o : Object) {t : Time} → unpack_time o ≡ ok t → (o ≡ pack_time t) × FitsTime t
unfolding unpack_time pack_time
unpack_time-eq-ok o {t} h =
    let (p, arr_ok, h1) =
      >>=-eq-ok (array_of 2 type_error o)
        (λ p. do
          tsec ← field to_uint64 p 0
          tnsec ← field to_uint64 p 1
          ok (record { tsec = tsec; tnsec = tnsec }))
        h in
    let (e, n) = array_of-eq-ok 2 type_error o arr_ok in two p e n h1
  where
    two :
        (p : List Object)
        → o ≡ array p
        → length p ≡ 2
        → (do
          tsec ← field to_uint64 p 0
          tnsec ← field to_uint64 p 1
          ok (record { tsec = tsec; tnsec = tnsec }))
          ≡ ok t
        → (o ≡ array (uint t.tsec ∷ uint t.tnsec ∷ [])) × FitsTime t
    two (a ∷ b ∷ []) e n h =
        let (x, ea, h1) =
          >>=-eq-ok (to_uint64 a) (λ x. do y ← to_uint64 b; ok (record { tsec = x; tnsec = y }))
            h in
        let (y, eb, h2) = >>=-eq-ok (to_uint64 b) (λ y. ok (record { tsec = x; tnsec = y })) h1 in
        ground (arith, to_uint64-eq-ok a ea, to_uint64-eq-ok b eb)
    two p e n h = ground arith

-- An array of four that begins with the version, whatever follows.
abbrev Versioned : ℕ → Object → Object → Object → Object → Type 0
Versioned v o a b c = o ≡ array (uint v ∷ a ∷ b ∷ c ∷ [])

four_items :
    (p : List Object)
    → length p ≡ 4
    → (a : Object) × (b : Object) × (c : Object) × (d : Object) × (p ≡ a ∷ b ∷ c ∷ d ∷ [])
four_items (a ∷ b ∷ c ∷ d ∷ []) h = (a, b, c, d, refl)
four_items p h = absurd (omega arith)

versioned-eq-ok :
    (v : ℕ) (o : Object) {p : List Object}
    → versioned v o ≡ ok p
    → (a : Object) × (b : Object) × (c : Object) × (p ≡ uint v ∷ a ∷ b ∷ c ∷ [])
      × Versioned v o a b c
versioned-eq-ok v o {p} h = elim (Option-cases (via_array o)) [
  | inl miss ↦ absurd (ground (arith, miss))
  | inr (q, hit) ↦
      let (x, a, b, c, e) = four_items q (ground (arith, hit)) in
      let first : to_int x ≡ ok (pos v) = ground (arith, hit, e) in
      let e0 = to_int-eq-ok x first in
      let items : q ≡ uint v ∷ a ∷ b ∷ c ∷ [] = e ∙ ap (λ y. y ∷ a ∷ b ∷ c ∷ []) e0 in
      let same_list : p ≡ q = ground (arith, hit, e) in
      (a, b, c, same_list ∙ items, via_array-array o hit ∙ ap array items)
]

-- Whatever object `operator>>` takes for a document is the object that `operator<<` packs for it,
-- and its time fits.
pub unpack_document-eq-ok :
    (o : Object) {d : Document} → unpack_document o ≡ ok d → (o ≡ pack_document d) × FitsTime d.ts
unfolding unpack_document pack_document
unpack_document-eq-ok o {d} h = elim (Result-cases (versioned document_version o)) [
  | inr (e, bad) ↦ absurd (ground (arith, bad))
  | inl (p, good) ↦
      let (a, b, c, ep, eo) = versioned-eq-ok document_version o good in
      elim (Result-cases (unpack_time a)) [
        | inr (e, bad) ↦ absurd (ground (arith, good, ep, bad))
        | inl (t, time) ↦ elim (Result-cases (to_str b)) [
          | inr (e, bad) ↦ absurd (ground (arith, good, ep, time, bad))
          | inl (k, key) ↦ elim (Result-cases (to_str c)) [
            | inr (e, bad) ↦ absurd (ground (arith, good, ep, time, key, bad))
            | inl (s, body) ↦
                let out : d ≡ record { ts = t; key = k; body = s } =
                  ground (arith, good, ep, time, key, body) in
                let (et, fits) = unpack_time-eq-ok a time in
                ground (arith, eo, out, et, fits, to_str-eq-ok b key, to_str-eq-ok c body)
          ]
        ]
      ]
]

-- An object that is no array of four items is refused by all three, with `EPROTO`.
unpack_wrong_size :
    (o : Object)
    → ((p : List Object) → via_array o ≡ some p → length p ≢ 4)
    → (unpack_document o ≡ err (elliptics_error eproto))
      × (unpack_index_data o ≡ err (elliptics_error eproto))
      × (unpack_simdoc o ≡ err (elliptics_error eproto))
unfolding unpack_document unpack_index_data unpack_simdoc
unpack_wrong_size o h = elim (Option-cases (via_array o)) [
  | inl miss ↦ (ground (arith, miss), ground (arith, miss), ground (arith, miss))
  | inr (p, hit) ↦
      let n = h p hit in (ground (arith, hit, n), ground (arith, hit, n), ground (arith, hit, n))
]

-- The versions keep index data apart from the other two structures: a packed document or `simdoc`
-- is refused as index data and packed index data is refused as a document or `simdoc`, always with
-- `EPROTO`. Documents and `simdoc`s share a version, and a packed `simdoc` is refused as a document
-- by its second item, with a type error.
unpack_other_structure :
    (d : Document) (i : IndexData) (s : Simdoc)
    → (unpack_index_data (pack_document d) ≡ err (elliptics_error eproto))
      × (unpack_index_data (pack_simdoc s) ≡ err (elliptics_error eproto))
      × (unpack_document (pack_index_data i) ≡ err (elliptics_error eproto))
      × (unpack_simdoc (pack_index_data i) ≡ err (elliptics_error eproto))
      × (unpack_document (pack_simdoc s) ≡ err type_error)
unfolding unpack_document unpack_index_data unpack_simdoc pack_document pack_index_data pack_simdoc
    unpack_time
unpack_other_structure d i s = (refl, refl, refl, refl, id_refused s.id)
  where
    id_refused :
        (z : ℤ)
        → unpack_document (
            array (
              uint simdoc_version
              ∷ from_signed z
              ∷ raw s.text
              ∷ array (map from_signed s.ngrams)
              ∷ []))
          ≡ err type_error
    id_refused (pos n) = refl
    id_refused (negsuc n) = refl
