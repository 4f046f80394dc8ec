-- ===== src/Http/Routes.antt =====
-- `http_server` of httpserver/server.cpp: `initialize`, which names the handlers, and `process`, by
-- which rift asks it for the rights of a request.
use wookie.Base.{
  ℕ, ◌≡◌, Bool, true, false, Option, none, some, List, [], ◌∷◌, if◌then◌else◌, Str, str_ord,
  is_some, ◌&&◌, Option-cases, inl, inr, arith,
}
use wookie.MsgPack.{Codec}
use wookie.Documents.{Time}
use wookie.Storage.{Session, Elliptics, storage}
use wookie.Http.{Request, checked}

pub data Handler : Type 0 where
  on_get on_upload on_search on_ping on_echo : Handler

-- One call of `on`: an exact path, a method and a handler.
pub record Route : Type 0 where
  pub exact_match : Str
  pub methods : Str
  pub handler : Handler

abbrev pub get_method : Str
get_method = b'G' ∷ b'E' ∷ b'T' ∷ []

abbrev pub post_method : Str
post_method = b'P' ∷ b'O' ∷ b'S' ∷ b'T' ∷ []

abbrev pub get_path : Str
get_path = b'/' ∷ b'g' ∷ b'e' ∷ b't' ∷ []

abbrev pub upload_path : Str
upload_path = b'/' ∷ b'u' ∷ b'p' ∷ b'l' ∷ b'o' ∷ b'a' ∷ b'd' ∷ []

abbrev pub search_path : Str
search_path = b'/' ∷ b's' ∷ b'e' ∷ b'a' ∷ b'r' ∷ b'c' ∷ b'h' ∷ []

abbrev pub ping_path : Str
ping_path = b'/' ∷ b'p' ∷ b'i' ∷ b'n' ∷ b'g' ∷ []

abbrev pub echo_path : Str
echo_path = b'/' ∷ b'e' ∷ b'c' ∷ b'h' ∷ b'o' ∷ []

abbrev pub route : Str → Str → Handler → Route
route path method handler = record { exact_match = path; methods = method; handler = handler }

-- `initialize`, when the connection to elliptics is made or not: what it returns, the storage, and
-- the routes.
pub initialize : {Data : Type 0} → Elliptics Data → Bool → Bool × Option Session × List Route
initialize e connected =
    if connected
    then (
      true,
      some (storage e),
      route get_path get_method on_get
          ∷ route upload_path post_method on_upload
          ∷ route search_path get_method on_search
          ∷ route ping_path get_method on_ping
          ∷ route echo_path get_method on_echo
          ∷ [],
    )
    else (false, none, [])

-- `process`: every request is passed on with the verdict 200.
pub process : {A : Type 0} → Request → (Request → ℕ → A) → A
process request continue_handler = continue_handler request 200

module _ (c : Codec) where
  -- So a request to upload is refused only for a missing item of its query, whatever the rights of
  -- its bucket.
  process-checked :
      (now : Time) (req : Request) (noauth : Bool)
      → (process req (λ req verdict. checked c now req noauth verdict)).0 ≡ none
      → (is_some req.base_index && is_some req.name) ≡ false
  unfolding process checked
  process-checked now req noauth refused = elim (Option-cases req.base_index) [
    | inl no_index ↦ ground (arith, no_index)
    | inr (base_index, h) ↦ elim (Option-cases req.name) [
      | inl no_name ↦ ground (arith, h, no_name)
      | inr (name, k) ↦ absurd (ground (arith, refused, h, k))
    ]
  ]
