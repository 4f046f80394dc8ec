-- ===== src/Engine.antt =====
-- lib/engine.cpp and include/wookie/engine.hpp: the crawler. `engine_data` is a record, a handler is
-- a function to the new record, and what a handler starts outside (downloads, writes, calls of
-- processors) is recorded in `log`, in order.
pub mod Inflight
pub mod Filters
pub mod Reply
pub mod Crawl
pub mod Threads
mod Tests
use wookie.Base.{ℕ, Bool, Option, List, [], ◌∷◌, ◌++◌, Str, nat_ord, str_ord, Map, Result}
use wookie.Documents.{Time, Document}

-- What the program uses of `swarm::url`. A string is turned into a url by `parse`.
pub record UrlOps (Url : Type 0) : Type 0 where
  pub to_string : Url → Str
  pub parse : Str → Url
  pub is_valid : Url → Bool
  pub resolved : Url → Url → Url
  pub scheme : Url → Str
  pub host : Url → Str
  pub port : Url → Option ℕ

-- `swarm::url_fetcher::response`.
pub record Response (Url : Type 0) : Type 0 where
  pub url : Url
  pub request_url : Url
  pub code : ℕ
  pub content_type : Option Str

abbrev pub not_modified : ℕ
not_modified = 304

pub data DocumentType : Type 0 where
  document_cache document_new document_update : DocumentType

-- What a handler starts. A processor is a callback of the application and known by a number.
pub data Event (Url : Type 0) : Type 0 where
  feed : Url → Event Url
  feed_if_modified : Url → Time → Event Url
  write : Document → Event Url
  process : ℕ → Response Url → Str → DocumentType → Event Url

-- `engine_data`. Options, the command line and the two service objects are not kept; `total`
-- counts replies without bound, where the code has a `long`. A parser may throw, as that of
-- `create_href_parser` does.
pub record EngineData (Url : Type 0) : Type 0 where
  pub parsers : List (Response Url → Str → Result (List Str))
  pub filters : List (Response Url → Str → Bool)
  pub url_filters : List (Response Url → Url → Bool)
  pub processors : List ℕ
  pub fallback_processors : List ℕ
  pub inflight : Map Str Document
  pub total : ℕ
  pub generation_time : Time
  pub log : List (Event Url)

module _ {Url : Type 0} where
  -- `engine_data::engine_data`, at the time `now`.
  pub engine_data : Time → EngineData Url
  engine_data now = record {
    parsers = [];
    filters = [];
    url_filters = [];
    processors = [];
    fallback_processors = [];
    inflight = [];
    total = 0;
    generation_time = now;
    log = [];
  }

  abbrev pub emit : EngineData Url → Event Url → EngineData Url
  emit s e = record s { log = s.log ++ e ∷ [] }

  pub add_parser : EngineData Url → (Response Url → Str → Result (List Str)) → EngineData Url
  add_parser s parser = record s { parsers = s.parsers ++ parser ∷ [] }

  pub add_filter : EngineData Url → (Response Url → Str → Bool) → EngineData Url
  add_filter s filter = record s { filters = s.filters ++ filter ∷ [] }

  pub add_url_filter : EngineData Url → (Response Url → Url → Bool) → EngineData Url
  add_url_filter s filter = record s { url_filters = s.url_filters ++ filter ∷ [] }

  pub add_processor : EngineData Url → ℕ → EngineData Url
  add_processor s processor = record s { processors = s.processors ++ processor ∷ [] }

  pub add_fallback_processor : EngineData Url → ℕ → EngineData Url
  add_fallback_processor s processor = record s {
    fallback_processors = s.fallback_processors ++ processor ∷ [];
  }

  -- `engine_data::download`.
  unfoldable pub download : EngineData Url → Url → EngineData Url
  download s url = emit s (feed url)
