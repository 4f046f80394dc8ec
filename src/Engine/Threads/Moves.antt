-- ===== src/Engine/Threads/Moves.antt =====
-- What one move does to the fetches that go on and to the map in flight.
use wookie.Base.{
  ◌+◌, ◌≤◌, ◌≡◌, refl, sym, ap, subst, ◌∙◌, ◌⊎◌, inl, inr, true, none, List, [], ◌∷◌, arith,
  if◌then◌else◌, Bool-cases, Option-cases, Result-cases, Str, nat_ord, str_ord, str_eq, str_eq_iff,
  same_iff, find, find-insert, insert-Ascending, Ascending, is_some,
}
use wookie.Documents.{Document}
use wookie.Engine.{Response, EngineData, download}
use wookie.Engine.Inflight.{inflight_insert, new_document}
use wookie.Engine.Reply.{Outside, cached_link, link_url}
use wookie.Engine.Threads.{Pc, idle, replied, looping, reading, Moved, move}
use wookie.Engine.Threads.Run.{passes_by, in_flight, enters, ends}
use wookie.Engine.Threads.Claims.{times, claim}
use wookie.Engine.Threads.Outcomes.{
  cached_link-inflight, replied-inflight, misses, throws, hits, stays,
}

module _ {Url : Type 0} (out : Outside Url) where
  open out use {net, Data, read_data, unpack_document, time_before, now}
  open net use {to_string}

  -- What a move does to the fetch of `u`: nothing more is fetched than before, or `u` is entered, and
  -- was not in the map.
  pub record Effect (u : Str) (s : EngineData Url) (pc : Pc Url) (m : Moved Url) : Type 0 where
    pub balance :
        (times u m.started + claim out u m.pc ≤ claim out u pc)
        ⊎ ((times u m.started + claim out u m.pc ≡ 1)
            × (find u s.inflight ≡ none)
            × (is_some (find u m.engine.inflight) ≡ true))
    pub kept : is_some (find u s.inflight) ≡ true → is_some (find u m.engine.inflight) ≡ true

  same_inflight :
      (u : Str) (s : EngineData Url) (pc : Pc Url) (m : Moved Url)
      → m.engine.inflight ≡ s.inflight
      → times u m.started + claim out u m.pc ≤ claim out u pc
      → Effect u s pc m
  same_inflight u s pc m i b = record {
    balance = inl b;
    kept = λ h. ap (λ f. is_some (find u f)) i ∙ h;
  }

  entering :
      (u : Str) (s : EngineData Url) (reply : Response Url) (body link : Str) (links : List Str)
      (url : Url)
      → find (to_string url) s.inflight ≡ none
      → Effect u s (looping reply body (link ∷ links)) (record {
        engine = (inflight_insert net s url (new_document net now)).0;
        pc = reading reply body url links;
        started = [];
        thrown = none;
      })
  unfolding inflight_insert
  entering u s reply body link links url missing =
      let inserted = find-insert u (to_string url) (new_document net now) s.inflight in
      record {
        balance = elim (Bool-cases (str_eq u (to_string url))) [
          | inl this ↦ inr (
            ground (arith, this),
            ground (arith, this, str_eq_iff u (to_string url), missing),
            ground
                (arith, this, inserted, same_iff u (to_string url), str_eq_iff u (to_string url)),
          )
          | inr other ↦ inl (ground (arith, other))
        ];
        kept = λ h. ground (arith, inserted, h);
      }

  hitting :
      (u : Str) (s : EngineData Url) (reply : Response Url) (body : Str) (url : Url)
      (links : List Str) (doc : Document)
      → Effect u s (reading reply body url links) (record {
        engine = cached_link out s reply body url doc;
        pc = looping reply body links;
        started = if time_before doc.ts s.generation_time then to_string url ∷ [] else [];
        thrown = none;
      })
  hitting u s reply body url links doc = record {
    balance = inl (ground arith);
    kept = λ h. ground (
      arith,
      h,
      cached_link-inflight out s reply body url doc,
      find-insert u (to_string url) doc s.inflight,
    );
  }

  pub move-Effect : (u : Str) (s : EngineData Url) (pc : Pc Url) → Effect u s pc (move out s pc)
  unfolding download
  move-Effect u s idle =
      subst (Effect u s idle) (sym (stays out s)) (same_inflight u s _ _ refl (omega arith))
  move-Effect u s (replied reply body) =
      let (i, started, free) = replied-inflight out s reply body in
      same_inflight u s (replied reply body) (move out s (replied reply body)) i
        (ground (arith, started, free u))
  move-Effect u s (looping reply body []) =
      subst (Effect u s (looping reply body [])) (sym (ends out s reply body))
        (same_inflight u s _ _ refl (omega arith))
  move-Effect u s (looping reply body (link ∷ links)) =
      elim (Option-cases (link_url out s reply link)) [
        | inl refused ↦
            subst (Effect u s (looping reply body (link ∷ links)))
              (sym (passes_by out s reply body link links refused).0)
              (same_inflight u s _ _ refl (omega arith))
        | inr (url, passed) ↦ elim (Option-cases (find (to_string url) s.inflight)) [
          | inr (d, held) ↦
              subst (Effect u s (looping reply body (link ∷ links)))
                (sym (in_flight out s reply body link links passed held).0)
                (same_inflight u s _ _ refl (omega arith))
          | inl missing ↦
              subst (Effect u s (looping reply body (link ∷ links)))
                (sym (enters out s reply body link links passed missing))
                (entering u s reply body link links url missing)
        ]
      ]
  move-Effect u s (reading reply body url links) = elim (Result-cases (read_data (to_string url))) [
    | inr (e, h) ↦
        subst (Effect u s (reading reply body url links))
          (sym (misses out s reply body url links h)) (same_inflight u s _ _ refl (omega arith))
    | inl (bytes, h) ↦ elim (Result-cases (unpack_document bytes)) [
      | inr (e, k) ↦
          subst (Effect u s (reading reply body url links))
            (sym (throws out s reply body url links h k)) (same_inflight u s _ _ refl (omega arith))
      | inl (doc, k) ↦
          subst (Effect u s (reading reply body url links))
            (sym (hits out s reply body url links h k)) (hitting u s reply body url links doc)
    ]
  ]

  pub move-Ascending :
      (s : EngineData Url) (pc : Pc Url)
      → Ascending s.inflight
      → Ascending (move out s pc).engine.inflight
  unfolding download inflight_insert
  move-Ascending s idle a = subst (λ m. Ascending m.engine.inflight) (sym (stays out s)) a
  move-Ascending s (replied reply body) a =
      subst Ascending (sym (replied-inflight out s reply body).0) a
  move-Ascending s (looping reply body []) a =
      subst (λ m. Ascending m.engine.inflight) (sym (ends out s reply body)) a
  move-Ascending s (looping reply body (link ∷ links)) a =
      elim (Option-cases (link_url out s reply link)) [
        | inl refused ↦
            subst (λ m. Ascending m.engine.inflight)
              (sym (passes_by out s reply body link links refused).0) a
        | inr (url, passed) ↦ elim (Option-cases (find (to_string url) s.inflight)) [
          | inr (d, held) ↦
              subst (λ m. Ascending m.engine.inflight)
                (sym (in_flight out s reply body link links passed held).0) a
          | inl missing ↦
              subst (λ m. Ascending m.engine.inflight)
                (sym (enters out s reply body link links passed missing))
                (insert-Ascending (to_string url) (new_document net now) s.inflight a)
        ]
      ]
  move-Ascending s (reading reply body url links) a =
      elim (Result-cases (read_data (to_string url))) [
        | inr (e, h) ↦
            subst (λ m. Ascending m.engine.inflight) (sym (misses out s reply body url links h)) a
        | inl (bytes, h) ↦ elim (Result-cases (unpack_document bytes)) [
          | inr (e, k) ↦
              subst (λ m. Ascending m.engine.inflight) (sym (throws out s reply body url links h k))
                a
          | inl (doc, k) ↦
              subst (λ m. Ascending m.engine.inflight) (sym (hits out s reply body url links h k))
                (subst Ascending (sym (cached_link-inflight out s reply body url doc))
                  (ground (arith, insert-Ascending (to_string url) doc s.inflight a)))
        ]
      ]
