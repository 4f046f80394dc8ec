-- ===== src/Pipeline.antt =====
-- include/wookie/application.hpp, and the update handler of processors/first_processor.cpp: what the
-- applications of the pipeline pass on. Their process handlers are in Processors. Of the pipeline's calls, those that a request starts are recorded as events.
pub mod MetaInfo
pub mod Processors
pub mod Features
mod Tests
use wookie.Base.{
  ◌>>=◌, ℕ, Bool, Option, none, some, List, [], ◌∷◌, ◌++◌, if◌then◌else◌, Str, nat_ord, str_ord,
  Map, find, insert, Result, ok,
}
use wookie.MsgPack.{Codec, Object, raw, to_str}

module _ (c : Codec) where
  -- `meta_info_t`: its field `m_data`.
  abbrev pub Info : Type 0
  Info = Map Str c.Data

  -- `meta_info_t::set_value` of a value that is packed as `o`: `std::map::insert` does not replace.
  abbrev pub set_object : Str → Object → Info → Info
  set_object name o m_data = insert name (c.pack o) m_data

  -- `meta_info_t::value`, for a type with its default value and its conversion: a missing name gives
  -- `T()`.
  abbrev pub unpacked : {A : Type 0} → A → (Object → Result A) → Option c.Data → Result A
  unpacked missing to none = ok missing
  unpacked missing to (some bytes) = do o ← c.unpack bytes; to o

  unfoldable pub value_as : {A : Type 0} → A → (Object → Result A) → Str → Info → Result A
  value_as missing to name m_data = unpacked missing to (find name m_data)

  -- The two for strings.
  unfoldable pub set_value : Str → Str → Info → Info
  set_value name v m_data = set_object name (raw v) m_data

  unfoldable pub value : Str → Info → Result Str
  unfolding value_as
  value name m_data = value_as [] to_str name m_data

  abbrev pub body_name : Str
  body_name = b'b' ∷ b'o' ∷ b'd' ∷ b'y' ∷ []

  abbrev pub url_name : Str
  url_name = b'u' ∷ b'r' ∷ b'l' ∷ []

  pub set_body : Str → Info → Info
  unfolding set_value
  set_body body m_data = set_value body_name body m_data

  pub body : Info → Result Str
  unfolding value
  body m_data = value body_name m_data

  pub set_url : Str → Info → Info
  unfolding set_value
  set_url url m_data = set_value url_name url m_data

  pub url : Info → Result Str
  unfolding value
  url m_data = value url_name m_data

  -- What the handlers do: `exec` of an event on a url's id, and the parts of a response.
  pub data Event : Type 0 where
    exec : Str → Str → Info → Event
    exec_context : Str → Event
    write_headers : ℕ → Event
    write : Str → Event
    error : ℕ → Event
    close : Event

  -- `meta_info_pipeline_t`: the names of the events.
  pub record MetaInfoPipeline : Type 0 where
    pub m_current_name : Str
    pub m_next_name : Str

  abbrev pub ok_literal : Str
  ok_literal = b'o' ∷ b'k' ∷ []

  pub push_internal : MetaInfoPipeline → Str → Info → List Event
  push_internal p url info = exec url p.m_next_name info ∷ []

  -- `finish`; an error of the `exec` is logged.
  unfoldable pub finish : MetaInfoPipeline → List Event
  finish p = exec_context p.m_current_name ∷ write ok_literal ∷ close ∷ []

  -- `push(that, info)`, when the `exec` fails or not; unpacking the url may throw.
  unfoldable pub push : MetaInfoPipeline → Info → Bool → Result (List Event)
  unfolding push_internal finish url
  push p info failed = do
    target ← url info
    let rest = if failed then error 100 ∷ [] else finish p
    ok (push_internal p target info ++ rest)

  -- `update_handler::on_request`, when the `exec` fails or not.
  unfoldable pub update : MetaInfoPipeline → Option Str → Str → Bool → List Event
  unfolding push_internal set_url set_body
  update p none text failed = write_headers 400 ∷ close ∷ []
  update p (some that_url) text failed =
      let info = set_body text (set_url that_url []) in
      let code = if failed then 505 else 200 in
      push_internal p that_url info ++ write_headers code ∷ close ∷ []
