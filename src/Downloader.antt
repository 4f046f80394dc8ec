-- ===== src/Downloader.antt =====
-- include/wookie/dmanager.hpp: the downloaders and their queues. The loops that serve the queues are
-- swarm's, and `rand` is an argument.
use wookie.Base.{
  ℕ, zero, suc, ◌+◌, ◌%◌, ◌<◌, ◌≡◌, Bool, true, Option, none, some, List, [], ◌∷◌, ◌++◌, length,
  length-append, replicate, arith,
}
use native.Mathlib.Nat.{mod-lt}
use wookie.Documents.{Document}

-- `url_fetcher::request`, as far as `feed` fills it.
pub record Request (Url : Type 0) : Type 0 where
  pub follow_location : Bool
  pub url : Url
  pub if_modified_since : Option ℕ

-- `dmanager`: what each downloader was given.
abbrev pub Dmanager : Type 0 → Type 0
Dmanager Url = List (List (Request Url))

module _ {Url : Type 0} where
  pub dmanager : ℕ → Dmanager Url
  dmanager tnum = replicate tnum []

  -- `enqueue` at the downloader `i`, which there must be.
  pub enqueue_at : ℕ → Request Url → Dmanager Url → Dmanager Url
  enqueue_at i request [] = []
  enqueue_at zero request (queue ∷ queues) = (queue ++ request ∷ []) ∷ queues
  enqueue_at (suc i) request (queue ∷ queues) = queue ∷ enqueue_at i request queues

  -- The two `feed`s. With no downloader the code divides by zero.
  pub feed : ℕ → Url → Dmanager Url → Dmanager Url
  unfolding enqueue_at
  feed rand url m_downloaders =
      enqueue_at (rand % length m_downloaders)
        (record { follow_location = true; url = url; if_modified_since = none }) m_downloaders

  pub feed_document : ℕ → Url → Document → Dmanager Url → Dmanager Url
  unfolding enqueue_at
  feed_document rand url doc m_downloaders =
      enqueue_at (rand % length m_downloaders)
        (record { follow_location = true; url = url; if_modified_since = some doc.ts.tsec })
        m_downloaders

  queued : Dmanager Url → ℕ
  queued [] = 0
  queued (queue ∷ queues) = length queue + queued queues

  queued-enqueue_at :
      (i : ℕ) (request : Request Url) (queues : Dmanager Url)
      → i < length queues
      → queued (enqueue_at i request queues) ≡ suc (queued queues)
  unfolding queued enqueue_at
  queued-enqueue_at i request [] there = absurd (omega arith)
  queued-enqueue_at zero request (queue ∷ queues) there =
      omega (arith, length-append queue (request ∷ []))
  queued-enqueue_at (suc i) request (queue ∷ queues) there =
      omega (arith, queued-enqueue_at i request queues (omega (arith, there)))

  -- With a downloader at least, whatever `rand` is, one request more is queued.
  queued-feed :
      (rand : ℕ) (url : Url) (queues : Dmanager Url)
      → 0 < length queues
      → queued (feed rand url queues) ≡ suc (queued queues)
  unfolding feed
  queued-feed rand url queues some_downloader =
      queued-enqueue_at (rand % length queues) _ queues (mod-lt rand some_downloader)
