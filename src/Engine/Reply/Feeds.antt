-- ===== src/Engine/Reply/Feeds.antt =====
-- A change of the engine's state seen through the downloads that it starts.
use wookie.Base.{
  ℕ, ◌≡◌, refl, sym, ap, subst, ◌∙◌, inl, inr, true, none, List, [], ◌∷◌, ◌++◌, append-nil,
  append_assoc, arith, Bool-cases, is_some, Str, nat_ord, str_ord, str_eq, same_iff, Map, find,
  insert, Ascending, find-insert, insert-Ascending, contains, Distinct, contains-append,
  Distinct-append,
}
use wookie.Documents.{Document}
use wookie.Engine.{
  Response, DocumentType, EngineData, Event, feed, feed_if_modified, write, process, emit,
}
use wookie.Engine.Reply.{Outside, run_processors, store_reply}

module _ {Url : Type 0} (out : Outside Url) where
  open out use {net, Data, read_data, unpack_document, time_before, now}
  open net use {to_string, parse, is_valid, resolved, scheme, host}

  -- The strings of the urls whose download a log starts.
  abbrev pub fed : List (Event Url) → List Str
  fed [] = []
  fed (feed u ∷ log) = to_string u ∷ fed log
  fed (feed_if_modified u ts ∷ log) = to_string u ∷ fed log
  fed (write d ∷ log) = fed log
  fed (process p reply body type ∷ log) = fed log

  pub fed-append : (xs ys : List (Event Url)) → fed (xs ++ ys) ≡ fed xs ++ fed ys
  fed-append [] ys = refl
  fed-append (feed u ∷ xs) ys = ap (◌∷◌ (to_string u)) (fed-append xs ys)
  fed-append (feed_if_modified u ts ∷ xs) ys = ap (◌∷◌ (to_string u)) (fed-append xs ys)
  fed-append (write d ∷ xs) ys = fed-append xs ys
  fed-append (process p reply body type ∷ xs) ys = fed-append xs ys

  -- From `s` to `t` the urls `new` were fed: each once, none that was in flight before, and all
  -- are in flight after; what was in flight stays so, with its document; each has the property `P`.
  pub record Feeds (P : Str → Type 0) (s t : EngineData Url) (new : List Str) : Type 0 where
    pub log : fed t.log ≡ fed s.log ++ new
    pub distinct : Distinct new
    pub fresh : (u : Str) → contains u new ≡ true → find u s.inflight ≡ none
    pub entered : (u : Str) → contains u new ≡ true → is_some (find u t.inflight) ≡ true
    pub kept :
        (u : Str) → is_some (find u s.inflight) ≡ true → find u t.inflight ≡ find u s.inflight
    pub allowed : (u : Str) → contains u new ≡ true → P u
    pub filters_kept : t.url_filters ≡ s.url_filters
    pub ordered : Ascending s.inflight → Ascending t.inflight

  pub run_processors-fed :
      (ps : List ℕ) (reply : Response Url) (body : Str) (type : DocumentType) (s : EngineData Url)
      → (fed (run_processors ps reply body type s).log ≡ fed s.log)
        × ((run_processors ps reply body type s).inflight ≡ s.inflight)
        × ((run_processors ps reply body type s).url_filters ≡ s.url_filters)
  unfolding run_processors
  run_processors-fed [] reply body type s = (refl, refl, refl)
  run_processors-fed (p ∷ ps) reply body type s =
      let (l, i, f) = run_processors-fed ps reply body type (emit s (process p reply body type)) in
      (l ∙ fed-append s.log (process p reply body type ∷ []) ∙ append-nil (fed s.log), i, f)

  one_write : (s : EngineData Url) (d : Document) → fed (s.log ++ write d ∷ []) ≡ fed s.log
  one_write s d = fed-append s.log (write d ∷ []) ∙ append-nil (fed s.log)

  abbrev first_write : EngineData Url → Response Url → Str → Document
  first_write s reply body = record { ts = now; key = to_string reply.url; body = body }

  abbrev second_write : EngineData Url → Response Url → Str → Document
  second_write s reply body = record { ts = now; key = to_string reply.request_url; body = body }

  pub store_reply-fed :
      (s : EngineData Url) (reply : Response Url) (body : Str)
      → (fed (store_reply out s reply body).log ≡ fed s.log)
        × ((store_reply out s reply body).inflight ≡ s.inflight)
        × ((store_reply out s reply body).url_filters ≡ s.url_filters)
  unfolding store_reply
  store_reply-fed s reply body =
      elim (Bool-cases (str_eq (to_string reply.url) (to_string reply.request_url))) [
        | inl one ↦ ground (arith, one, one_write s (first_write s reply body))
        | inr two ↦ ground (
          arith,
          two,
          one_write s (first_write s reply body),
          one_write (emit s (write (first_write s reply body))) (second_write s reply body),
        )
      ]

  -- A second `insert` under the same key changes nothing.
  pub insert_twice :
      (k : Str) (d d' : Document) (m : Map Str Document) → insert k d' (insert k d m) ≡ insert k d m
  insert_twice k d d' m = ground (arith, find-insert k k d m, same_iff k k)

  module _ (P : Str → Type 0) where
    pub quiet :
        (s t : EngineData Url)
        → fed t.log ≡ fed s.log
        → t.inflight ≡ s.inflight
        → t.url_filters ≡ s.url_filters
        → Feeds P s t []
    quiet s t l i f = record {
      log = l ∙ sym (append-nil (fed s.log));
      distinct = tt;
      fresh = λ u h. cc h;
      entered = λ u h. cc h;
      kept = λ u h. ap (find u) i;
      allowed = λ u h. cc h;
      filters_kept = f;
      ordered = λ a. subst Ascending (sym i) a;
    }

    pub Feeds-trans :
        {s t r : EngineData Url} {xs ys : List Str}
        → Feeds P s t xs
        → Feeds P t r ys
        → Feeds P s r (xs ++ ys)
    Feeds-trans {s} {t} {r} {xs} {ys} f g = record {
      log = g.log ∙ ap (λ l. l ++ ys) f.log ∙ append_assoc (fed s.log) xs ys;
      distinct =
          Distinct-append xs ys f.distinct g.distinct
            λ u h. ground (arith, f.entered u, g.fresh u, h);
      fresh = λ u h. ground (arith, contains-append u xs ys, f.fresh u, g.fresh u, f.kept u, h);
      entered =
          λ u h. ground (arith, contains-append u xs ys, f.entered u, g.entered u, g.kept u, h);
      kept = λ u h. ground (arith, f.kept u, g.kept u, h);
      allowed = λ u h. elim (Bool-cases (contains u xs)) [
        | inl first ↦ f.allowed u first
        | inr later ↦ g.allowed u (ground (arith, contains-append u xs ys, h))
      ];
      filters_kept = g.filters_kept ∙ f.filters_kept;
      ordered = λ a. g.ordered (f.ordered a);
    }

    -- One url enters the map, and its download starts.
    pub enter_and_feed :
        (s t : EngineData Url) (url : Url) (d : Document)
        → find (to_string url) s.inflight ≡ none
        → P (to_string url)
        → fed t.log ≡ fed s.log ++ to_string url ∷ []
        → t.inflight ≡ insert (to_string url) d s.inflight
        → t.url_filters ≡ s.url_filters
        → Feeds P s t (to_string url ∷ [])
    enter_and_feed s t url d missing p l i f = record {
      log = l;
      distinct = (refl, tt);
      fresh = λ u h. ground (arith, same_iff u (to_string url), missing, h);
      entered = λ u h. ground (arith, i, find-insert u (to_string url) d s.inflight, h);
      kept = λ u h. ground (
        arith,
        i,
        find-insert u (to_string url) d s.inflight,
        h,
        missing,
        same_iff u (to_string url),
      );
      allowed = λ u h. subst P (sym ((same_iff u (to_string url)).0 (ground arith))) p;
      filters_kept = f;
      ordered = λ a. subst Ascending (sym i) (insert-Ascending (to_string url) d s.inflight a);
    }

    -- One url enters the map, and no download starts.
    pub enter :
        (s t : EngineData Url) (url : Url) (d : Document)
        → t.log ≡ s.log
        → t.inflight ≡ insert (to_string url) d s.inflight
        → t.url_filters ≡ s.url_filters
        → Feeds P s t []
    enter s t url d l i f = record {
      log = ap fed l ∙ sym (append-nil (fed s.log));
      distinct = tt;
      fresh = λ u h. cc h;
      entered = λ u h. cc h;
      kept = λ u h. ground (arith, i, find-insert u (to_string url) d s.inflight, h);
      allowed = λ u h. cc h;
      filters_kept = f;
      ordered = λ a. subst Ascending (sym i) (insert-Ascending (to_string url) d s.inflight a);
    }
