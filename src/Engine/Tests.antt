-- ===== src/Engine/Tests.antt =====
-- A web of urls that are their own strings, with one page in the cache.
use wookie.Base.{
  str_compare, ℕ, ◌+◌, ◌≡◌, refl, true, false, none, List, [], ◌∷◌, ◌++◌, map, ltb, if◌then◌else◌,
  Str, nat_ord, str_ord, str_eq, contains, erase, elliptics_error, ok, err, enoent,
}
use wookie.Documents.{Time, Document}
use wookie.Engine.{UrlOps, Response, EngineData, download}
use wookie.Engine.Inflight.{inflight_insert, inflight_erase, found_in_page_cache}
use wookie.Engine.Reply.{
  Outside, http, fetch_link, process_reply, process_url, link_url, process_links, process_link,
  cached_link, store_reply, run_processors,
}
use wookie.Engine.Reply.Feeds.{Feeds}
use wookie.Engine.Reply.Downloads.{IsLink, process_reply-Feeds}
use wookie.Engine.Reply.Logs.{written, called_new, with_page}
use wookie.Engine.Reply.Branches.{stored_pages, new_page_processors, process_reply-branches}
use wookie.Engine.Reply.Cache.{found_in_page_cache-not_modified, fetch_link-not_modified}
use wookie.Engine.Threads.{idle, replied, move, Threads}
use wookie.Engine.Threads.Claims.{taken, moved, turn}
use wookie.Engine.Threads.Claims
use wookie.Engine.Threads.Exclusive.{IsExclusive, Reach-IsExclusive}
use wookie.Engine.Crawl.{
  Crawl, at, Reach, here, next, answer, answer_root, Apart, after, IsSound, Reach-IsSound,
}

abbrev strings : UrlOps Str
strings = record {
  to_string = λ u. u;
  parse = λ u. u;
  is_valid = λ u. true;
  resolved = λ base u. u;
  scheme = λ u. http;
  host = λ u. u;
  port = λ u. none;
}

abbrev time : ℕ → Time
time n = record { tsec = n; tnsec = 0 }

abbrev cached : Document
cached = record { ts = time 3; key = b'c' ∷ []; body = b'o' ∷ b'l' ∷ b'd' ∷ [] }

abbrev outside : Outside Str
outside = record {
  net = strings;
  Data = Document;
  read_data = λ key. if str_eq key (b'c' ∷ []) then ok cached else err (elliptics_error enoent);
  unpack_document = λ d. ok d;
  time_before = λ a b. ltb a.tsec b.tsec;
  now = time 9;
}

-- An engine that takes each letter of a page for a link.
abbrev engine : EngineData Str
engine = record {
  parsers = (λ reply body. ok (map (λ c. c ∷ []) body)) ∷ [];
  filters = [];
  url_filters = [];
  processors = 1 ∷ 2 ∷ [];
  fallback_processors = 3 ∷ [];
  inflight = [];
  total = 0;
  generation_time = time 5;
  log = [];
}

abbrev reply : Str → ℕ → Response Str
reply u code = record { url = u; request_url = u; code = code; content_type = none }

abbrev page : Response Str
page = reply (b'p' ∷ []) 200

abbrev links : Str
links = b'a' ∷ b'c' ∷ b'a' ∷ []

process_reply-Feeds_example :
    (new : List Str) × Feeds outside
      (IsLink outside engine page links)
      engine
      (process_reply outside engine page links).0
      new
process_reply-Feeds_example = process_reply-Feeds outside engine page links

process_reply-branches_example :
    (let t = (process_reply outside engine page links).0 in
      (t.total ≡ engine.total + 1)
      × (written t.log ≡ written engine.log ++ stored_pages outside page links)
      × (called_new t.log
          ≡ called_new engine.log
            ++ with_page links (new_page_processors outside engine page links)))
process_reply-branches_example = process_reply-branches outside engine page links

abbrev link : Str
link = b'a' ∷ []

found_in_page_cache-not_modified_example :
    let t = found_in_page_cache strings engine (b'c' ∷ []) cached in
    (process_url outside t (reply (b'c' ∷ []) 304) [] false
      ≡ process_reply outside
          (record t { inflight = erase (b'c' ∷ []) t.inflight })
          (reply (b'c' ∷ []) 304)
          cached.body)
    × (written (process_url outside t (reply (b'c' ∷ []) 304) [] false).0.log
        ≡ written t.log ++ stored_pages outside (reply (b'c' ∷ []) 304) cached.body)
found_in_page_cache-not_modified_example =
    found_in_page_cache-not_modified outside engine (b'c' ∷ []) cached (reply (b'c' ∷ []) 304) []
      refl refl refl

abbrev linked : EngineData Str
linked = (fetch_link outside engine page links (b'c' ∷ [])).0

fetch_link-not_modified_example :
    written (process_url outside linked (reply (b'c' ∷ []) 304) [] false).0.log
    ≡ written linked.log ++ stored_pages outside (reply (b'c' ∷ []) 304) []
fetch_link-not_modified_example =
    fetch_link-not_modified outside engine linked page (reply (b'c' ∷ []) 304) links [] (b'c' ∷ [])
      refl refl refl refl

abbrev crawl : Crawl Str
crawl = record { engine = engine; pending = [] }

abbrev first_page : Crawl Str
first_page = after outside crawl outside false page links false

link_awaited : contains (b'a' ∷ []) first_page.pending ≡ true
unfolding after process_url process_reply process_links process_link fetch_link cached_link link_url
    store_reply run_processors inflight_insert inflight_erase found_in_page_cache str_compare
    download
link_awaited = refl

-- The application's page, and then a page to which it links.
abbrev link_page : Crawl Str
link_page = after outside first_page outside true (reply (b'a' ∷ []) 200) links false

crawl-Reach : Reach outside crawl link_page
crawl-Reach =
    next (next here (answer_root outside.read_data outside.now page links false))
      (answer outside.read_data outside.now (reply (b'a' ∷ []) 200) links false link_awaited)

crawl-Apart : Apart outside crawl-Reach
unfolding crawl-Reach
crawl-Apart = ((tt, refl), tt)

Reach-IsSound_example : IsSound outside link_page
Reach-IsSound_example = Reach-IsSound outside refl refl crawl-Reach crawl-Apart

-- Two threads; one takes the reply to a page that the application asked for, and goes on.
abbrev threads : Threads Str
threads = record { engine = engine; pending = []; workers = idle ∷ idle ∷ [] }

abbrev first : Threads Str
first = taken outside threads [] outside.now false page links false (idle ∷ [])

abbrev second : Threads Str
second =
    moved outside first []
      (move (at outside outside.read_data outside.now) first.engine (replied page links))
      (idle ∷ [])

threads-Reach : Claims.Reach outside threads second
threads-Reach =
    Claims.next
      (Claims.next Claims.here
        (Claims.answer_root [] (idle ∷ []) outside.now page links false refl))
      (turn [] (replied page links) (idle ∷ []) outside.read_data outside.now refl)

threads-Apart : Claims.Apart outside threads-Reach
unfolding threads-Reach
threads-Apart = ((tt, refl), tt)

Reach-IsExclusive_example : IsExclusive outside second
Reach-IsExclusive_example = Reach-IsExclusive outside 2 refl refl refl threads-Reach threads-Apart
