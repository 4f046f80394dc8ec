-- ===== src/Engine/Reply/Logs.antt =====
-- The log seen through the documents that it writes and the calls for new pages.
use wookie.Base.{
  ℕ, ◌≡◌, refl, sym, ap, ◌∙◌, List, [], ◌∷◌, ◌++◌, map, append-nil, append_assoc, Str, nat_ord,
  str_ord,
}
use wookie.Documents.{Document}
use wookie.Engine.{
  Response, document_cache, document_new, document_update, EngineData, Event, feed,
  feed_if_modified, write, process, emit,
}
use wookie.Engine.Reply.{run_processors}

abbrev pub with_page : Str → List ℕ → List (ℕ × Str)
with_page body = map (λ p. (p, body))

module _ {Url : Type 0} where
  -- The documents that a log writes.
  abbrev pub written : List (Event Url) → List Document
  written [] = []
  written (feed u ∷ log) = written log
  written (feed_if_modified u ts ∷ log) = written log
  written (write d ∷ log) = d ∷ written log
  written (process p reply body type ∷ log) = written log

  -- The calls of processors with `document_new`: the processor and the page.
  abbrev pub called_new : List (Event Url) → List (ℕ × Str)
  called_new [] = []
  called_new (feed u ∷ log) = called_new log
  called_new (feed_if_modified u ts ∷ log) = called_new log
  called_new (write d ∷ log) = called_new log
  called_new (process p reply body document_cache ∷ log) = called_new log
  called_new (process p reply body document_new ∷ log) = (p, body) ∷ called_new log
  called_new (process p reply body document_update ∷ log) = called_new log

  pub written-append : (xs ys : List (Event Url)) → written (xs ++ ys) ≡ written xs ++ written ys
  written-append [] ys = refl
  written-append (feed u ∷ xs) ys = written-append xs ys
  written-append (feed_if_modified u ts ∷ xs) ys = written-append xs ys
  written-append (write d ∷ xs) ys = ap (◌∷◌ d) (written-append xs ys)
  written-append (process p reply body type ∷ xs) ys = written-append xs ys

  pub called_new-append :
      (xs ys : List (Event Url)) → called_new (xs ++ ys) ≡ called_new xs ++ called_new ys
  called_new-append [] ys = refl
  called_new-append (feed u ∷ xs) ys = called_new-append xs ys
  called_new-append (feed_if_modified u ts ∷ xs) ys = called_new-append xs ys
  called_new-append (write d ∷ xs) ys = called_new-append xs ys
  called_new-append (process p reply body document_cache ∷ xs) ys = called_new-append xs ys
  called_new-append (process p reply body document_new ∷ xs) ys =
      ap (◌∷◌ (p, body)) (called_new-append xs ys)
  called_new-append (process p reply body document_update ∷ xs) ys = called_new-append xs ys

  -- The same writes, the same calls for new pages and the same count of replies.
  pub record Follows (s t : EngineData Url) : Type 0 where
    pub writes : written t.log ≡ written s.log
    pub calls : called_new t.log ≡ called_new s.log
    pub total_kept : t.total ≡ s.total

  pub Follows-refl : (s : EngineData Url) → Follows s s
  Follows-refl s = record { writes = refl; calls = refl; total_kept = refl }

  pub Follows-trans : {s t r : EngineData Url} → Follows s t → Follows t r → Follows s r
  Follows-trans f g = record {
    writes = g.writes ∙ f.writes;
    calls = g.calls ∙ f.calls;
    total_kept = g.total_kept ∙ f.total_kept;
  }

  -- One event that is neither a write nor a call for a new page.
  pub emit-Follows :
      (s : EngineData Url) (e : Event Url)
      → written (e ∷ []) ≡ []
      → called_new (e ∷ []) ≡ []
      → Follows s (emit s e)
  emit-Follows s e w c = record {
    writes =
        written-append s.log (e ∷ []) ∙ ap (◌++◌ (written s.log)) w ∙ append-nil (written s.log);
    calls =
        called_new-append s.log (e ∷ [])
        ∙ ap (◌++◌ (called_new s.log)) c
        ∙ append-nil (called_new s.log);
    total_kept = refl;
  }

  pub run_processors-Follows :
      (ps : List ℕ) (reply : Response Url) (body : Str) (s : EngineData Url)
      → Follows s (run_processors ps reply body document_cache s)
  unfolding run_processors
  run_processors-Follows [] reply body s = Follows-refl s
  run_processors-Follows (p ∷ ps) reply body s =
      let e = process p reply body document_cache in
      Follows-trans (emit-Follows s e refl refl) (run_processors-Follows ps reply body (emit s e))

  pub run_processors_new :
      (ps : List ℕ) (reply : Response Url) (body : Str) (s : EngineData Url)
      → (let t = run_processors ps reply body document_new s in
          (written t.log ≡ written s.log)
          × (called_new t.log ≡ called_new s.log ++ with_page body ps)
          × (t.total ≡ s.total))
  unfolding run_processors
  run_processors_new [] reply body s = (refl, sym (append-nil (called_new s.log)), refl)
  run_processors_new (p ∷ ps) reply body s =
      let e = process p reply body document_new in
      let (w, c, t) = run_processors_new ps reply body (emit s e) in
      (
        w ∙ written-append s.log (e ∷ []) ∙ append-nil (written s.log),
        c
            ∙ ap (λ cs. cs ++ with_page body ps) (called_new-append s.log (e ∷ []))
            ∙ append_assoc (called_new s.log) ((p, body) ∷ []) (with_page body ps),
        t,
      )
