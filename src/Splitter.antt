-- ===== src/Splitter.antt =====
-- include/wookie/basic_elliptics_splitter.hpp and lib/basic_elliptics_splitter.cpp: the reverse
-- indexes of a document, one for each token with the token's positions.
pub mod Indexes
mod Tests
use wookie.Base.{ℕ, List, [], ◌∷◌, ◌++◌, Str, Map, str_eq, if◌then◌else◌}
use wookie.Documents.{Time, Document, IndexData, pack_document, pack_index_data}
use wookie.MsgPack.{Codec}
use wookie.Split.{Locale, feed}

module _ (c : Codec) where
  -- `index_data(ts, token, pos).convert()`.
  abbrev pub convert : IndexData → c.Data
  convert d = c.pack (pack_index_data d)

  -- The loop over the position map: an id and its data for every token.
  abbrev pub token_indexes : Time → Map Str (List ℕ) → List (Str × c.Data)
  token_indexes ts [] = []
  token_indexes ts ((token, positions) ∷ pos) =
      (token, convert (record { ts = ts; key = token; positions = positions }))
      ∷ token_indexes ts pos

  -- The two `prepare_indexes`. `ids` and `objs` are filled together and are one list of pairs; the
  -- new pairs come after those that are there.
  unfoldable pub prepare_content :
      Locale → Str → Str → Time → Str → List (Str × c.Data) → List (Str × c.Data)
  prepare_content loc key content ts base_index indexes =
      let tokens = if str_eq content [] then [] else token_indexes ts (feed loc content []).0 in
      let tmp : Document = record { ts = ts; key = key; body = key } in
      let base =
        if str_eq base_index [] then [] else (base_index, c.pack (pack_document tmp)) ∷ [] in
      (indexes ++ tokens) ++ base

  unfoldable pub prepare_indexes :
      Locale → Document → Str → List (Str × c.Data) → List (Str × c.Data)
  unfolding prepare_content
  prepare_indexes loc doc base_index indexes =
      prepare_content loc doc.key doc.body doc.ts base_index indexes
