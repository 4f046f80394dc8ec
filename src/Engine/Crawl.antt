-- ===== src/Engine/Crawl.antt =====
-- The crawl as a sequence of replies: each one is handled by `process_url` as a whole, in any
-- order, and the outside gives other answers each time. Handlers of several downloader threads
-- interleave in the code; they share only the map in flight, under its lock, and the count.
use wookie.Base.{
  ◌≡◌, refl, sym, ap, subst, ◌∙◌, inl, inr, Bool, true, false, not, ◌&&◌, none, some, List, [], ◌∷◌,
  ◌++◌, arith, ◌==◌, if◌then◌else◌, Bool-cases, Option-cases, is_some, length, drop, Str, nat_ord,
  str_ord, str_eq, same_iff, find, erase, Ascending, erase-Ascending, find-erase, contains,
  Distinct, Result, contains-append, Distinct-append,
}
use wookie.Documents.{Time, Document}
use wookie.Engine.{Response, EngineData, not_modified}
use wookie.Engine.Inflight.{inflight_erase}
use wookie.Engine.Reply.{Outside, process_reply, process_url}
use wookie.Engine.Reply.Feeds.{fed, Feeds, quiet}
use wookie.Engine.Reply.Downloads.{IsLink, process_reply-Feeds}

-- The engine, and the strings of the urls whose download a link started and whose reply is awaited.
pub record Crawl (Url : Type 0) : Type 0 where
  pub engine : EngineData Url
  pub pending : List Str

abbrev pub remove : Str → List Str → List Str
remove u [] = []
remove u (x ∷ xs) = if str_eq u x then xs else x ∷ remove u xs

module _ {Url : Type 0} (out : Outside Url) where
  open out use {net, Data}
  open net use {to_string}

  -- The outside at another time.
  abbrev pub at : (Str → Result Data) → Time → Outside Url
  at read now = record out { read_data = read; now = now }

  -- The crawl after a reply to a download that a link started, if `linked`, or else to one that the
  -- application started: the link's download is no longer awaited, and the downloads that the
  -- handler started are.
  unfoldable pub after : Crawl Url → Outside Url → Bool → Response Url → Str → Bool → Crawl Url
  after c now linked reply body failed =
      let engine = (process_url now c.engine reply body failed).0 in
      record {
        engine = engine;
        pending =
            (if linked then remove (to_string reply.request_url) c.pending else c.pending)
            ++ drop (length (fed out c.engine.log)) (fed out engine.log);
      }

  -- A reply to a download that a link started and that is awaited, or to one that the application
  -- started itself with `engine.download`, for any url.
  pub data Step (c : Crawl Url) : Crawl Url → Type 0 where
    answer :
        (read : Str → Result Data) (now : Time) (reply : Response Url) (body : Str) (failed : Bool)
        → contains (to_string reply.request_url) c.pending ≡ true
        → Step c (after c (at read now) true reply body failed)
    answer_root :
        (read : Str → Result Data) (now : Time) (reply : Response Url) (body : Str) (failed : Bool)
        → Step c (after c (at read now) false reply body failed)

  pub data Reach (c : Crawl Url) : Crawl Url → Type 0 where
    here : Reach c c
    next : {d e : Crawl Url} → Reach c d → Step d e → Reach c e

  -- Whenever the application has a reply of its own, no link's download is fetching that url.
  abbrev pub ApartStep : {c d : Crawl Url} → Step c d → Type 0
  ApartStep (answer read now reply body failed h) = Unit {0}
  ApartStep {c} (answer_root read now reply body failed) =
      contains (to_string reply.request_url) c.pending ≡ false

  abbrev pub Apart : {c d : Crawl Url} → Reach c d → Type 0
  Apart here = Unit {0}
  Apart (next r s) = Apart r × ApartStep s

  -- No url is awaited twice, and every url that is awaited is in flight.
  pub record IsSound (c : Crawl Url) : Type 0 where
    pub once : Distinct c.pending
    pub in_flight :
        (u : Str) → contains u c.pending ≡ true → is_some (find u c.engine.inflight) ≡ true
    pub ordered : Ascending c.engine.inflight

  contains-remove :
      (k u : Str) (xs : List Str)
      → Distinct xs
      → contains k (remove u xs) ≡ (contains k xs && not (str_eq k u))
  contains-remove k u [] d = refl
  contains-remove k u (x ∷ xs) d =
      ground (arith, contains-remove k u xs d.1, same_iff k x, same_iff u x, same_iff k u, d.0)

  remove-Distinct : (u : Str) (xs : List Str) → Distinct xs → Distinct (remove u xs)
  remove-Distinct u [] d = tt
  remove-Distinct u (x ∷ xs) d =
      ground (arith, remove-Distinct u xs d.1, contains-remove x u xs d.1, d.0)

  drop-append_self : (xs ys : List Str) → drop (length xs) (xs ++ ys) ≡ ys
  drop-append_self [] ys = refl
  drop-append_self (x ∷ xs) ys = drop-append_self xs ys

  weaken :
      (o : Outside Url) (P Q : Str → Type 0) {s t : EngineData Url} {new : List Str}
      → ((u : Str) → P u → Q u)
      → Feeds o P s t new
      → Feeds o Q s t new
  weaken o P Q h f = record {
    log = f.log;
    distinct = f.distinct;
    fresh = f.fresh;
    entered = f.entered;
    kept = f.kept;
    allowed = λ u k. h u (f.allowed u k);
    filters_kept = f.filters_kept;
    ordered = f.ordered;
  }

  abbrev Always : Str → Type 0
  Always u = Unit {0}

  module _ (read : Str → Result Data) (now : Time) (reply : Response Url) where
    -- The state that the handler's first call leaves.
    unfoldable pub erased : EngineData Url → EngineData Url
    unfolding inflight_erase
    erased s = (inflight_erase net s reply.request_url now).0

    erased_missing :
        (s : EngineData Url) → find (to_string reply.request_url) s.inflight ≡ none → erased s ≡ s
    unfolding erased
    erased_missing s missing = ground (arith, missing)

    erased_held :
        (s : EngineData Url) {d : Document}
        → find (to_string reply.request_url) s.inflight ≡ some d
        → erased s ≡ record s { inflight = erase (to_string reply.request_url) s.inflight }
    unfolding erased
    erased_held s held = ground (arith, held)

    -- The reply's url has left the map, and nothing else has changed.
    pub record Erased (s s0 : EngineData Url) : Type 0 where
      pub found :
          (k : Str)
          → find k s0.inflight
            ≡ (if str_eq k (to_string reply.request_url) then none else find k s.inflight)
      pub ordered : Ascending s0.inflight
      pub log_kept : s0.log ≡ s.log

    pub erased-Erased : (s : EngineData Url) → Ascending s.inflight → Erased s (erased s)
    erased-Erased s a = elim (Option-cases (find (to_string reply.request_url) s.inflight)) [
      | inl missing ↦ subst (Erased s) (sym (erased_missing s missing)) (record {
        found = λ k. ground (arith, missing, same_iff k (to_string reply.request_url));
        ordered = a;
        log_kept = refl;
      })
      | inr (d, held) ↦ subst (Erased s) (sym (erased_held s held)) (record {
        found = λ k. find-erase k (to_string reply.request_url) s.inflight a;
        ordered = erase-Ascending (to_string reply.request_url) s.inflight a;
        log_kept = refl;
      })
    ]

    -- The handler goes on from there, and feeds new urls only.
    process_url-Feeds :
        (s : EngineData Url) (body : Str) (failed : Bool)
        → (new : List Str) × Feeds
            (at read now)
            Always
            (erased s)
            (process_url (at read now) s reply body failed).0
            new
    unfolding process_url erased
    process_url-Feeds s body true =
        ([], quiet (at read now) Always (erased s) (erased s) refl refl refl)
    process_url-Feeds s body false =
        let d = (inflight_erase net s reply.request_url now).1 in
        elim (Bool-cases (reply.code == not_modified)) [
          | inl same_page ↦ rw (same_page, process_url) (go d.body)
          | inr other ↦ rw (other, process_url) (go body)
        ]
      where
        o : Outside Url
        o = at read now

        go :
            (b : Str)
            → (new : List Str) × Feeds o Always
                (erased s)
                (process_reply o (erased s) reply b).0
                new
        go b =
            let (new, f) = process_reply-Feeds o (erased s) reply b in
            (new, weaken o (IsLink o (erased s) reply b) Always (λ u h. tt) f)

  after-IsSound :
      (c : Crawl Url) (read : Str → Result Data) (now : Time) (reply : Response Url) (body : Str)
      (failed : Bool)
      → IsSound c
      → IsSound (after c (at read now) true reply body failed)
  unfolding after
  after-IsSound c read now reply body failed v =
      let s0 = erased read now reply c.engine in
      let e = erased-Erased read now reply c.engine v.ordered in
      let (new, f) = process_url-Feeds read now reply c.engine body failed in
      let t = (process_url (at read now) c.engine reply body failed).0 in
      let u = to_string reply.request_url in
      let added : drop (length (fed out c.engine.log)) (fed out t.log) ≡ new =
        ap (drop (length (fed out c.engine.log))) (f.log ∙ ap (λ l. fed out l ++ new) e.log_kept)
        ∙ drop-append_self (fed out c.engine.log) new in
      let left = remove u c.pending in
      record {
        once = rw added (
            Distinct-append left new (remove-Distinct u c.pending v.once) f.distinct
              λ k h. ground (arith, kept_flying k h, f.fresh k));
        in_flight = λ k h. elim (Bool-cases (contains k left)) [
          | inl old ↦ ground (arith, kept_flying k old, f.kept k)
          | inr fresh ↦ f.entered k (
              ground (
                arith,
                h,
                added,
                contains-append k left (drop (length (fed out c.engine.log)) (fed out t.log)),
                fresh,
              ))
        ];
        ordered = f.ordered e.ordered;
      }
    where
      kept_flying :
          (k : Str)
          → contains k (remove (to_string reply.request_url) c.pending) ≡ true
          → is_some (find k (erased read now reply c.engine).inflight) ≡ true
      kept_flying k h = ground (
        arith,
        h,
        contains-remove k (to_string reply.request_url) c.pending v.once,
        v.in_flight k,
        (erased-Erased read now reply c.engine v.ordered).found k,
      )

  remove_absent : (u : Str) (xs : List Str) → contains u xs ≡ false → remove u xs ≡ xs
  remove_absent u [] h = refl
  remove_absent u (x ∷ xs) h = ground (arith, h, remove_absent u xs, same_iff u x)

  -- For a url that no link is fetching, it makes no difference who asked.
  after_absent :
      (c : Crawl Url) (o : Outside Url) (reply : Response Url) (body : Str) (failed : Bool)
      → contains (to_string reply.request_url) c.pending ≡ false
      → after c o true reply body failed ≡ after c o false reply body failed
  unfolding after
  after_absent c o reply body failed h =
      let engine = (process_url o c.engine reply body failed).0 in
      ap
        (λ left. record {
          engine = engine;
          pending = left ++ drop (length (fed out c.engine.log)) (fed out engine.log);
        })
        (remove_absent (to_string reply.request_url) c.pending h)

  Step-IsSound : {c d : Crawl Url} (s : Step c d) → ApartStep s → IsSound c → IsSound d
  Step-IsSound {c} (answer read now reply body failed h) apart v =
      after-IsSound c read now reply body failed v
  Step-IsSound {c} (answer_root read now reply body failed) apart v =
      subst IsSound (after_absent c (at read now) reply body failed apart)
        (after-IsSound c read now reply body failed v)

  -- Over every crawl that starts with nothing awaited and an empty map in flight, through replies
  -- in any order, with any pages, errors and answers of the outside, to downloads that links
  -- started and to downloads that the application started: no url is awaited twice for links, so a
  -- url that a link's download is fetching is not fetched by another link's; and every url so
  -- awaited is in flight. The condition is that the application has no reply of its own for a url
  -- while a link's download is fetching it.
  pub Reach-IsSound :
      {c d : Crawl Url}
      → c.pending ≡ []
      → c.engine.inflight ≡ []
      → (r : Reach c d) → Apart r
      → IsSound d
  Reach-IsSound {c} p i here apart = record {
    once = subst Distinct (sym p) tt;
    in_flight = λ u h. absurd (ground (arith, p, h));
    ordered = subst Ascending (sym i) tt;
  }
  Reach-IsSound p i (next r s) apart = Step-IsSound s apart.1 (Reach-IsSound p i r apart.0)
