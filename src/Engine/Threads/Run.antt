-- ===== src/Engine/Threads/Run.antt =====
-- What a move at the head of the loop over the links does, in its cases.
use wookie.Base.{◌≡◌, refl, none, some, List, [], ◌∷◌, arith, Str, nat_ord, str_ord, find}
use wookie.Documents.{Document}
use wookie.Engine.{Response, EngineData}
use wookie.Engine.Inflight.{inflight_insert, new_document}
use wookie.Engine.Reply.{Outside, link_url, fetch_link, process_link}
use wookie.Engine.Threads.{idle, looping, reading, move}

module _ {Url : Type 0} (out : Outside Url) where
  open out use {net, Data, read_data, unpack_document, time_before, now}
  open net use {to_string}

  -- A link that is not followed.
  pub passes_by :
      (s : EngineData Url) (reply : Response Url) (body link : Str) (links : List Str)
      → link_url out s reply link ≡ none
      → (move out s (looping reply body (link ∷ links))
          ≡ record { engine = s; pc = looping reply body links; started = []; thrown = none })
        × (process_link out s reply body link ≡ (s, none))
  unfolding move process_link
  passes_by s reply body link links h = (ground (arith, h), ground (arith, h))

  module _ (s : EngineData Url) (reply : Response Url) (body link : Str) (links : List Str)
      {url : Url} (passed : link_url out s reply link ≡ some url) where
    pub in_flight :
        {d : Document}
        → find (to_string url) s.inflight ≡ some d
        → (move out s (looping reply body (link ∷ links))
            ≡ record { engine = s; pc = looping reply body links; started = []; thrown = none })
          × (process_link out s reply body link ≡ (s, none))
    unfolding move process_link fetch_link inflight_insert
    in_flight held = (ground (arith, passed, held), ground (arith, passed, held))

    pub enters :
        find (to_string url) s.inflight ≡ none
        → move out s (looping reply body (link ∷ links)) ≡ record {
          engine = (inflight_insert net s url (new_document net now)).0;
          pc = reading reply body url links;
          started = [];
          thrown = none;
        }
    unfolding move inflight_insert
    enters missing = ground (arith, passed, missing)

  pub ends :
      (s : EngineData Url) (reply : Response Url) (body : Str)
      → move out s (looping reply body [])
        ≡ record { engine = s; pc = idle; started = []; thrown = none }
  unfolding move
  ends s reply body = refl
