-- ===== src/Operators/Find.antt =====
-- `find_result::find` and `find_result::on_result_ready`: the whole search.
pub mod Inverted
pub mod Words
pub mod Phrases
pub mod Search
pub mod Asking
mod Tests
use wookie.Base.{
  ◌>>=◌, ℕ, Option, none, some, List, [], ◌∷◌, ◌++◌, if◌then◌else◌, Str, nat_ord, str_ord, Map,
  insert, assign, sort_unique, Error, out_of_range, Result, ok, err, or_err,
}
use wookie.MsgPack.{Codec}
use wookie.Documents.{IndexData, unpack_index_data}
use wookie.Split.{Locale, feed}
use wookie.Storage.{RawId, Session, Entry, Elliptics, create_session, transform_tokens}
use wookie.Operators.Match.{Quote, all_quotes_ok}
use wookie.Operators.Scan.{prepare}

-- `m_request` after `find`, with `str_indexes` and the two maps between tokens and ids.
pub record Request : Type 0 where
  pub quotes : List Quote
  pub text : Str
  pub text_tokens : List Str
  pub mapper : Map Str RawId
  pub names : Map RawId Str
  pub str_indexes : List Str

module _ (c : Codec) (e : Elliptics c.Data) (loc : Locale) (st : Session) where
  -- The loop over the quotes: each with its tokens and their ids.
  abbrev pub prepare_quote : Str → Quote
  prepare_quote text =
      let tokens = (feed loc text []).1 in
      record { text = text; tokens = tokens; indexes = transform_tokens c e st tokens }

  abbrev pub quoted_request : List Str → List Quote
  quoted_request [] = []
  quoted_request (text ∷ texts) = prepare_quote text ∷ quoted_request texts

  abbrev pub quote_tokens : List Quote → List Str
  quote_tokens [] = []
  quote_tokens (q ∷ qs) = q.tokens ++ quote_tokens qs

  -- The loop over `str_indexes` that fills the maps.
  abbrev pub fill_mapper : List Str → Map Str RawId → Map Str RawId
  fill_mapper [] m = m
  fill_mapper (t ∷ ts) m = fill_mapper ts (assign t (e.transform (create_session st) t) m)

  abbrev pub fill_names : List Str → Map RawId Str → Map RawId Str
  fill_names [] m = m
  fill_names (t ∷ ts) m = fill_names ts (assign (e.transform (create_session st) t) t m)

  -- `find` up to the call of `find_all_indexes`; `prepare` may throw.
  unfoldable pub find_request : Str → Result Request
  find_request text = do
    parts ← or_err (prepare text) out_of_range
    let quotes = quoted_request parts.quotes
    let text_tokens = (feed loc parts.text []).1
    let str_indexes = sort_unique (quote_tokens quotes ++ text_tokens)
    ok (record {
      quotes = quotes;
      text = parts.text;
      text_tokens = text_tokens;
      mapper = fill_mapper str_indexes [];
      names = fill_names str_indexes [];
      str_indexes = str_indexes;
    })

module _ (c : Codec) where
  -- The loops that fill `pos`, the map from position to token id.
  abbrev pub insert_positions : RawId → List ℕ → Map ℕ RawId → Map ℕ RawId
  insert_positions id [] pos = pos
  insert_positions id (p ∷ ps) pos = insert_positions id ps (insert p id pos)

  abbrev pub insert_indexes : List (RawId × c.Data) → Map ℕ RawId → Result (Map ℕ RawId)
  insert_indexes [] pos = ok pos
  insert_indexes ((id, bytes) ∷ indexes) pos = do
    o ← c.unpack bytes
    idata ← unpack_index_data o
    insert_indexes indexes (insert_positions id idata.positions pos)

  -- The loop over the entries; `m_result_ids` grows with those whose quotes are all found.
  abbrev pub check_entries : List Quote → List (Entry c.Data) → List RawId → Result (List RawId)
  check_entries quotes [] result_ids = ok result_ids
  check_entries quotes (entry ∷ entries) result_ids = do
    pos ← insert_indexes entry.indexes []
    check_entries quotes entries
        (if all_quotes_ok quotes pos then result_ids ++ entry.id ∷ [] else result_ids)

  -- `on_result_ready`: `m_result_ids` when the completion is called, and the error that it is given.
  -- An exception leaves without a call.
  unfoldable pub on_result_ready :
      List Quote → Result (List (Entry c.Data)) → Result (List RawId × Option Error)
  on_result_ready quotes (err error) = ok ([], some error)
  on_result_ready quotes (ok []) = ok ([], none)
  on_result_ready quotes (ok (entry ∷ entries)) = do
    ids ← check_entries quotes (entry ∷ entries) []
    ok (ids, none)

  module _ (e : Elliptics c.Data) (loc : Locale) (st : Session) where
    -- `find` with its callback.
    unfoldable pub find : Str → e.World → Result (List RawId × Option Error)
    unfolding find_request on_result_ready
    find text w = do
      request ← find_request c e loc st text
      on_result_ready request.quotes
          (e.find_all_indexes (create_session st) (transform_tokens c e st request.str_indexes) w)
