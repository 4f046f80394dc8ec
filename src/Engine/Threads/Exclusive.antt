-- ===== src/Engine/Threads/Exclusive.antt =====
-- No url is fetched twice at a time, however the threads interleave.
use wookie.Base.{
  ℕ, zero, suc, replicate, ◌+◌, ◌≤◌, ◌≡◌, refl, sym, ap, subst, ◌⊎◌, inl, inr, Bool, true, false,
  List, [], ◌∷◌, ◌++◌, arith, ◌==◌, if◌then◌else◌, Bool-cases, Str, nat_ord, str_ord, str_eq,
  str_eq_iff, find, Ascending, is_some, Result,
}
use wookie.Documents.{Time}
use wookie.Engine.{Response, not_modified}
use wookie.Engine.Inflight.{inflight_erase}
use wookie.Engine.Crawl.{remove, at, erased, erased-Erased}
use wookie.Engine.Reply.{Outside}
use wookie.Engine.Threads.{Pc, idle, replied, Moved, move, Threads}
use wookie.Engine.Threads.Claims.{
  times, times-append, times-remove, claim, claims, claims-append, fetching, taken, moved, Step,
  answer, answer_root, turn, ApartStep, Apart, Reach, here, next,
}
use wookie.Engine.Threads.Moves.{Effect, move-Effect, move-Ascending}

module _ {Url : Type 0} (out : Outside Url) where
  open out use {net, Data}
  open net use {to_string}

  -- No url is being fetched twice, and what is being fetched is in flight.
  pub record IsExclusive (s : Threads Url) : Type 0 where
    pub at_most_once : (u : Str) → fetching out u s ≤ 1
    pub in_map : (u : Str) → fetching out u s ≡ 1 → is_some (find u s.engine.inflight) ≡ true
    pub ordered : Ascending s.engine.inflight

  claims_between :
      (u : Str) (before : List (Pc Url)) (pc : Pc Url) (behind : List (Pc Url))
      → claims out u (before ++ pc ∷ behind)
        ≡ claims out u before + claim out u pc + claims out u behind
  claims_between u before pc behind = omega (arith, claims-append out u before (pc ∷ behind))

  turn-IsExclusive :
      (s : Threads Url) (before : List (Pc Url)) (pc : Pc Url) (behind : List (Pc Url))
      (read : Str → Result Data) (now : Time)
      → s.workers ≡ before ++ pc ∷ behind
      → IsExclusive s
      → IsExclusive (moved out s before (move (at out read now) s.engine pc) behind)
  turn-IsExclusive s before pc behind read now h v = record {
    at_most_once = λ u. elim (e u).balance [
      | inl less ↦ omega (arith, counted u, v.at_most_once u, less)
      | inr (one, missing, there) ↦
          ground (arith, counted u, v.at_most_once u, v.in_map u, missing, one)
    ];
    in_map = λ u flying. elim (e u).balance [
      | inl less ↦
          let before_that : fetching out u s ≡ 1 =
            omega (arith, counted u, v.at_most_once u, less, flying) in
          (e u).kept (v.in_map u before_that)
      | inr (one, missing, there) ↦ there
    ];
    ordered = move-Ascending (at out read now) s.engine pc v.ordered;
  }
    where
      m : Moved Url
      m = move (at out read now) s.engine pc

      e : (u : Str) → Effect (at out read now) u s.engine pc m
      e u = move-Effect (at out read now) u s.engine pc

      counted :
          (u : Str)
          → fetching out u (moved out s before m behind) + claim out u pc
            ≡ fetching out u s + times u m.started + claim out u m.pc
      counted u = omega (
        arith,
        ap (claims out u) h,
        claims_between u before pc behind,
        claims_between u before m.pc behind,
        times-append u s.pending m.started,
      )

  taken-IsExclusive :
      (s : Threads Url) (before behind : List (Pc Url)) (now : Time) (reply : Response Url)
      (body : Str) (failed : Bool)
      → s.workers ≡ before ++ idle ∷ behind
      → (times (to_string reply.request_url) s.pending ≡ 1)
        ⊎ (fetching out (to_string reply.request_url) s ≡ 0)
      → IsExclusive s
      → IsExclusive (taken out s before now true reply body failed behind)
  unfolding erased
  taken-IsExclusive s before behind now reply body failed h free v =
      let t = inflight_erase net s.engine reply.request_url now in
      let text = if reply.code == not_modified then t.1.body else body in
      let pc : Pc Url = if failed then idle else replied reply text in
      let e = erased-Erased out out.read_data now reply s.engine v.ordered in
      let u0 = to_string reply.request_url in
      let quiet : (u : Str) → claim out u pc ≡ 0 = λ u. ground arith in
      let left : (u : Str)
          → fetching out u (taken out s before now true reply body failed behind)
            ≡ times u (remove u0 s.pending) + claims out u s.workers =
        λ u. omega (
          arith,
          ap (claims out u) h,
          claims_between u before idle behind,
          claims_between u before pc behind,
          quiet u,
        ) in
      record {
        at_most_once = λ u. ground (arith, left u, times-remove u u0 s.pending, v.at_most_once u);
        in_map = λ u flying. elim (Bool-cases (str_eq u u0)) [
          | inl this ↦ absurd (gone u this (left u) flying)
          | inr other ↦
              let same_count : fetching out u s ≡ 1 =
                ground (arith, left u, flying, times-remove u u0 s.pending, other) in
              ground (arith, v.in_map u same_count, e.found u, other)
        ];
        ordered = e.ordered;
      }
    where
      gone :
          (u : Str)
          → str_eq u (to_string reply.request_url) ≡ true
          → fetching out u (taken out s before now true reply body failed behind)
            ≡ times u (remove (to_string reply.request_url) s.pending) + claims out u s.workers
          → fetching out u (taken out s before now true reply body failed behind) ≡ 1
          → ⊥
      gone u this left flying =
          let e : u ≡ to_string reply.request_url =
            (str_eq_iff u (to_string reply.request_url)).0 this in
          let removed = times-remove u (to_string reply.request_url) s.pending in
          let once = v.at_most_once u in
          elim (subst (λ w. (times w s.pending ≡ 1) ⊎ (fetching out w s ≡ 0)) (sym e) free) [
            | inl one ↦ ground (arith, left, flying, removed, this, one, once)
            | inr none_yet ↦ ground (arith, left, flying, removed, this, none_yet)
          ]

  remove_absent : (u : Str) (xs : List Str) → times u xs ≡ 0 → remove u xs ≡ xs
  remove_absent u [] h = refl
  remove_absent u (x ∷ xs) h = ground (arith, h, remove_absent u xs)

  -- For a url that is not being fetched, it makes no difference who asked.
  taken_absent :
      (s : Threads Url) (before behind : List (Pc Url)) (now : Time) (reply : Response Url)
      (body : Str) (failed : Bool)
      → fetching out (to_string reply.request_url) s ≡ 0
      → taken out s before now true reply body failed behind
        ≡ taken out s before now false reply body failed behind
  taken_absent s before behind now reply body failed none_yet =
      ap (λ left. record (taken out s before now false reply body failed behind) { pending = left })
        (remove_absent (to_string reply.request_url) s.pending (omega (arith, none_yet)))

  Step-IsExclusive :
      {s t : Threads Url} (step : Step out s t) → ApartStep out step → IsExclusive s → IsExclusive t
  Step-IsExclusive {s} (answer before behind now reply body failed h awaited) apart v =
      taken-IsExclusive s before behind now reply body failed h
        (inl (omega (arith, awaited, v.at_most_once (to_string reply.request_url)))) v
  Step-IsExclusive {s} (answer_root before behind now reply body failed h) apart v =
      subst IsExclusive (taken_absent s before behind now reply body failed apart)
        (taken-IsExclusive s before behind now reply body failed h (inr apart) v)
  Step-IsExclusive {s} (turn before pc behind read now h) apart v =
      turn-IsExclusive s before pc behind read now h v

  idle_claims : (u : Str) (n : ℕ) → claims out u (replicate n idle) ≡ 0
  idle_claims u zero = refl
  idle_claims u (suc n) = omega (arith, idle_claims u n)

  -- For any number of threads that begin idle, with nothing in flight, in any interleaving of their
  -- moves, with any replies to downloads that links or the application started, pages, failures and
  -- answers of the outside: no url is being fetched twice at a time, by downloads that links
  -- started and by threads that wait for the page cache together; and every url that is being
  -- fetched so is in flight. The condition is that the application has no reply of its own for a
  -- url while it is being fetched so.
  pub Reach-IsExclusive :
      (n : ℕ) {s t : Threads Url}
      → s.workers ≡ replicate n idle
      → s.pending ≡ []
      → s.engine.inflight ≡ []
      → (r : Reach out s t) → Apart out r
      → IsExclusive t
  Reach-IsExclusive n {s} w p i here apart = record {
    at_most_once = λ u. omega (arith, ap (times u) p, ap (claims out u) w, idle_claims u n);
    in_map =
        λ u flying. absurd (omega (arith, ap (times u) p, ap (claims out u) w, idle_claims u n));
    ordered = subst Ascending (sym i) tt;
  }
  Reach-IsExclusive n w p i (next r step) apart =
      Step-IsExclusive step apart.1 (Reach-IsExclusive n w p i r apart.0)
