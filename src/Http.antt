-- ===== src/Http.antt =====
-- httpserver/server.cpp: upload of a document with its indexes, its retrieval, and search. A handler
-- is a chain of callbacks; each is a function to what it does, a list of actions, and `upload` is
-- the chain, given what the store answers.
pub mod Upload
pub mod Get
pub mod Routes
mod Tests
use wookie.Base.{
  ◌>>=◌, ℕ, ◌==◌, ◌-◌, ◌^◌, Bool, true, false, not, ◌&&◌, Option, none, some, List, [], ◌∷◌, ◌++◌,
  map, is_some, ltb, leb, if◌then◌else◌, length, Str, Result, ok, err, enoent, elliptics_error, ℤ,
  pos, negsuc,
}
use wookie.MsgPack.{Codec}
use wookie.Documents.{Time, Document, pack_document}
use wookie.Split.{Locale}
use wookie.Splitter.{prepare_indexes}
use wookie.Storage.{RawId, Session, Elliptics, unpack}

-- `swarm::http_response` and `url_fetcher::response`, with the headers that the handlers set.
pub record Reply : Type 0 where
  pub code : ℕ
  pub content_type : Option Str
  pub content_length : Option ℕ
  pub last_modified : Option ℕ
  pub content : Str

-- `send_reply(code)`.
abbrev pub status : ℕ → Reply
status code = record {
  code = code;
  content_type = none;
  content_length = none;
  last_modified = none;
  content = [];
}

abbrev pub text_json : Str
text_json = b't' ∷ b'e' ∷ b'x' ∷ b't' ∷ b'/' ∷ b'j' ∷ b's' ∷ b'o' ∷ b'n' ∷ []

abbrev pub text_plain : Str
text_plain = b't' ∷ b'e' ∷ b'x' ∷ b't' ∷ b'/' ∷ b'p' ∷ b'l' ∷ b'a' ∷ b'i' ∷ b'n' ∷ []

-- What a request gives to the handlers: items of its query, a header and its body.
pub record Request : Type 0 where
  pub base_index : Option Str
  pub name : Option Str
  pub text : Option Str
  pub if_modified_since : Option ℤ
  pub buffer : Str

-- What a handler does: a reply, a write, an update of indexes, the call of rift's own
-- `on_write_finished`, which replies, and the start of a search.
pub data Action (Data : Type 0) : Type 0 where
  send_reply : Reply → Action Data
  write_data : Str → Data → Action Data
  set_indexes : Str → List (Str × Data) → Action Data
  on_write_finished : Action Data
  find : Str → Action Data

-- The fields of `on_upload`; the base class keeps the JSON object that the reply is made of.
pub record OnUpload : Type 0 where
  pub m_base_index : Str
  pub m_doc : Document

module _ (c : Codec) where
  -- `on_upload::checked`, for a handler made at the time `now`. `noauth` is `meta.noauth_all()`, and
  -- `verdict` a status, with 200 for success. There is no handler state where nothing is written.
  unfoldable pub checked : Time → Request → Bool → ℕ → Option OnUpload × List (Action c.Data)
  checked now req noauth verdict =
      if not (verdict == 200) && not noauth
      then (none, send_reply (status verdict) ∷ [])
      else elim req.base_index [
        | none ↦ (none, send_reply (status 400) ∷ [])
        | some base_index ↦ elim req.name [
          | none ↦ (none, send_reply (status 400) ∷ [])
          | some name ↦
              let doc : Document = record { ts = now; key = name; body = req.buffer } in
              (
                some (record { m_base_index = base_index; m_doc = doc }),
                write_data name (c.pack (pack_document doc)) ∷ [],
              )
        ]
      ]

  -- `on_upload::on_write_finished_update_index`: the second component says whether indexes are
  -- updated.
  unfoldable pub on_write_finished_update_index :
      Locale → OnUpload → Bool → List (Action c.Data) × Bool
  on_write_finished_update_index loc s error =
      if error
      then (send_reply (status 503) ∷ [], false)
      else elim (prepare_indexes c loc s.m_doc s.m_base_index []) [
        | [] ↦ (on_write_finished ∷ [], false)
        | index ∷ indexes ↦ (set_indexes s.m_doc.key (index ∷ indexes) ∷ [], true)
      ]

  -- `on_upload::on_index_update_finished`; `result` is the text of the JSON object.
  unfoldable pub on_index_update_finished : Str → Bool → List (Action c.Data)
  on_index_update_finished result error =
      if error
      then send_reply (status 503) ∷ []
      else send_reply (record {
        code = 200;
        content_type = some text_json;
        content_length = some (length result);
        last_modified = none;
        content = result;
      })
        ∷ []

  -- The cast of a `uint64_t` to `time_t`.
  abbrev pub time_t : ℕ → ℤ
  time_t n = if ltb n (2 ^ 63) then pos n else negsuc (2 ^ 64 - 1 - n)

  abbrev pub not_after : ℤ → ℤ → Bool
  not_after (pos a) (pos b) = leb a b
  not_after (pos a) (negsuc b) = false
  not_after (negsuc a) (pos b) = true
  not_after (negsuc a) (negsuc b) = leb b a

  -- `on_get::on_read_finished`: unpacking may throw.
  unfoldable pub on_read_finished : Request → Result c.Data → Result Reply
  on_read_finished req (err (elliptics_error code)) =
      if code == enoent then ok (status 404) else ok (status 503)
  on_read_finished req (err error) = ok (status 503)
  on_read_finished req (ok file) = do
    doc ← unpack c file
    let found : Reply = record {
      code = 200;
      content_type = some text_plain;
      content_length = some (length doc.body);
      last_modified = some doc.ts.tsec;
      content = doc.body;
    }
    elim req.if_modified_since [
      | none ↦ ok found
      | some modified_since ↦
          if not_after (time_t doc.ts.tsec) modified_since then ok (status 304) else ok found
    ]

  -- The chain of an upload: the answers of the store are whether the write and the update fail.
  unfoldable pub upload :
      Locale → Time → Request → Bool → ℕ → Bool → Bool → Str → List (Action c.Data)
  unfolding checked on_write_finished_update_index on_index_update_finished
  upload loc now req noauth verdict write_failed update_failed result =
      let (handler, first) = checked now req noauth verdict in
      elim handler [
        | none ↦ first
        | some s ↦
            let (second, updated) = on_write_finished_update_index loc s write_failed in
            let third = on_index_update_finished result update_failed in
            first ++ second ++ (if updated then third else [])
      ]

  -- `on_search::on_request`. The object that `find` returns is dropped, and no callback of the handler
  -- is connected to it.
  pub on_request : Request → List (Action c.Data)
  on_request req = elim req.text [
    | some text ↦ find text ∷ []
    | none ↦ send_reply (status 400) ∷ []
  ]

  -- `on_search::on_search_finished`, with the ids' text and the text of the JSON object from outside.
  pub on_search_finished : (RawId → Str) → (List Str → Str) → List RawId → Bool → Action c.Data
  on_search_finished dump to_json ids failed =
      if failed
      then send_reply (status 503)
      else (let result = to_json (map dump ids) in
          send_reply (record {
            code = 200;
            content_type = none;
            content_length = some (length result);
            last_modified = none;
            content = result;
          }))

-- `http_server::query_ok`.
pub query_ok : Request → Bool
query_ok req = is_some req.name

-- `http_server::extract_key`, for a request that `query_ok` takes: the key's id and the session.
pub extract_key :
    {Data : Type 0} → Elliptics Data → Session → Request → Str → List ℤ → Option (RawId × Session)
extract_key e m_session req bucket groups = elim req.name [
  | none ↦ none
  | some name ↦
      let session = record m_session { namespace = bucket; groups = groups } in
      some (e.transform session name, session)
]
