-- ===== src/Recovery/Sound.antt =====
-- What the callbacks of a recovery keep.
use wookie.Base.{
  ℕ, suc, ◌+◌, ◌≤◌, ◌≡◌, refl, sym, ap, subst, ◌∙◌, ◌≢◌, ◌⊎◌, inl, inr, true, false, some, List, [],
  ◌∷◌, ◌++◌, map, arith, ◌==◌, if◌then◌else◌, length, Str, nat_ord, str_ord, same_iff, contains,
  Distinct, length-append, append-nil, List-cases,
}
use wookie.Recovery.{
  Awaited, RecoveryHandler, reading, pushing, erase_processor, finish_processor, process_next,
  on_read, on_pushed, Step, read, pushed,
}

-- The connections whose callback is awaited.
abbrev pub busy : List Awaited → List ℕ
busy = map (λ a. a.processor)

-- For a handler of `n` connections and `urls` urls: no connection waits for two callbacks, and all
-- that wait are registered; the header is 200 with the number of urls as the length of the body; the
-- bytes written, the callbacks awaited and the urls left are together at most that length; the
-- response is closed once if no connection is left, and else not; and a connection leaves only when
-- no url is left.
pub record IsSound (n urls : ℕ) (s : RecoveryHandler) : Type 0 where
  pub once : Distinct (busy s.awaited)
  pub registered : (p : ℕ) → contains p (busy s.awaited) ≡ true → contains p s.processors ≡ true
  pub announced : s.headers ≡ some (200, urls)
  pub sent : length s.written + length s.awaited + length s.urls ≤ urls
  pub closing : s.closed ≡ elim s.processors [ [] ↦ 1 | p ∷ ps ↦ 0 ]
  pub leaving : (length s.processors ≡ n) ⊎ (s.urls ≡ [])

contains-erase_processor :
    (k p : ℕ) (ps : List ℕ)
    → k ≢ p
    → contains k ps ≡ true
    → contains k (erase_processor p ps) ≡ true
contains-erase_processor k p [] h c = cc
contains-erase_processor k p (q ∷ ps) h c =
    ground (arith, c, contains-erase_processor k p ps h, h, same_iff k q)

-- What `process_next` comes to, in its three cases.
module _ (s : RecoveryHandler) (p : ℕ) where
  pub takes :
      {url : Str} {urls : List Str}
      → s.urls ≡ url ∷ urls
      → process_next s p ≡ record s {
        urls = urls;
        awaited = record { processor = p; url = url; phase = reading } ∷ s.awaited;
      }
  unfolding process_next
  takes h = ground (arith, h)

  pub leaves :
      {q : ℕ} {qs : List ℕ}
      → s.urls ≡ []
      → erase_processor p s.processors ≡ q ∷ qs
      → process_next s p ≡ record s { processors = q ∷ qs }
  unfolding process_next finish_processor
  leaves h e = ground (arith, h, e)

  pub closes :
      s.urls ≡ []
      → erase_processor p s.processors ≡ []
      → process_next s p ≡ record s { processors = []; closed = s.closed + 1 }
  unfolding process_next finish_processor
  closes h e = ground (arith, h, e)

-- A connection that is registered and waits for nothing takes the next url, or leaves.
pub process_next-IsSound :
    {n urls : ℕ} (s : RecoveryHandler) (p : ℕ)
    → IsSound n urls s
    → contains p (busy s.awaited) ≡ false
    → contains p s.processors ≡ true
    → IsSound n urls (process_next s p)
process_next-IsSound {n} {urls} s p v idle known = elim (List-cases s.urls) [
  | inr (url, rest, h) ↦ subst (IsSound n urls) (sym (takes s p h)) (record {
    once = (idle, v.once);
    registered = λ k c. ground (arith, c, v.registered k, known, same_iff k p);
    announced = v.announced;
    sent = ground (arith, v.sent, h);
    closing = v.closing;
    leaving = elim v.leaving [
      | inl full ↦ inl full
      | inr empty ↦ absurd (ground (arith, h, empty))
    ];
  })
  | inl h ↦ elim (List-cases (erase_processor p s.processors)) [
    | inl e ↦ subst (IsSound n urls) (sym (closes s p h e)) (record {
      once = v.once;
      registered = λ k c. ground (
        arith,
        c,
        idle,
        e,
        v.registered k c,
        contains-erase_processor k p s.processors,
        same_iff k p,
      );
      announced = v.announced;
      sent = v.sent;
      closing = ground (arith, v.closing, known, List-cases s.processors);
      leaving = inr h;
    })
    | inr (q, qs, e) ↦ subst (IsSound n urls) (sym (leaves s p h e)) (record {
      once = v.once;
      registered = λ k c. ground (
        arith,
        c,
        idle,
        e,
        v.registered k c,
        contains-erase_processor k p s.processors,
        same_iff k p,
      );
      announced = v.announced;
      sent = v.sent;
      closing = ground (arith, v.closing, known, List-cases s.processors);
      leaving = inr h;
    })
  ]
]

busy-append : (xs ys : List Awaited) → busy (xs ++ ys) ≡ busy xs ++ busy ys
busy-append [] ys = refl
busy-append (x ∷ xs) ys = ap (λ l. x.processor ∷ l) (busy-append xs ys)

module _ (p : ℕ) where
  contains_between :
      (k : ℕ) (xs ys : List ℕ)
      → contains k (xs ++ p ∷ ys) ≡ (if k == p then true else contains k (xs ++ ys))
  contains_between k [] ys = ground (arith, same_iff k p)
  contains_between k (x ∷ xs) ys = ground (arith, contains_between k xs ys)

  without_between :
      (xs ys : List ℕ)
      → Distinct (xs ++ p ∷ ys)
      → Distinct (xs ++ ys) × (contains p (xs ++ ys) ≡ false)
  without_between [] ys d = (d.1, d.0)
  without_between (x ∷ xs) ys d =
      let (rest, absent) = without_between xs ys d.1 in
      (
        (ground (arith, d.0, contains_between x xs ys), rest),
        ground (arith, absent, d.0, contains_between x xs ys, same_iff p x),
      )

-- The connection of a callback that runs waits for no other.
module _ {n urls : ℕ} (s : RecoveryHandler) (a : Awaited) (before behind : List Awaited)
    (v : IsSound n urls s) (waits : s.awaited ≡ before ++ a ∷ behind) where
  waiting : busy s.awaited ≡ busy before ++ a.processor ∷ busy behind
  waiting = ap busy waits ∙ busy-append before (a ∷ behind)

  apart :
      Distinct (busy before ++ busy behind)
      × (contains a.processor (busy before ++ busy behind) ≡ false)
  apart = without_between a.processor (busy before) (busy behind) (subst Distinct waiting v.once)

  was_waiting :
      (k : ℕ)
      → contains k (busy s.awaited)
        ≡ (if k == a.processor then true else contains k (busy before ++ busy behind))
  was_waiting k =
      ap (contains k) waiting ∙ contains_between a.processor k (busy before) (busy behind)

  pub fewer : length s.awaited ≡ suc (length (before ++ behind))
  fewer = ground (arith, waits, length-append before (a ∷ behind), length-append before behind)

  -- The callback is gone, and a byte may have been written.
  answered-IsSound :
      (bytes : List ℕ)
      → length bytes ≤ 1
      → IsSound n urls (record s { awaited = before ++ behind; written = s.written ++ bytes })
  answered-IsSound bytes h = record {
    once = subst Distinct (sym (busy-append before behind)) apart.0;
    registered =
        λ k c. v.registered k (ground (arith, was_waiting k, c, busy-append before behind));
    announced = v.announced;
    sent = ground (arith, v.sent, fewer, h, length-append s.written bytes);
    closing = v.closing;
    leaving = v.leaving;
  }

  -- The same connection waits for another callback.
  renewed-IsSound :
      (b : Awaited)
      → b.processor ≡ a.processor
      → IsSound n urls (record s { awaited = before ++ b ∷ behind })
  renewed-IsSound b h = record {
    once = subst Distinct (sym same_busy) v.once;
    registered = λ k c. v.registered k (ap (contains k) (sym same_busy) ∙ c);
    announced = v.announced;
    sent = ground (
      arith,
      v.sent,
      waits,
      length-append before (b ∷ behind),
      length-append before (a ∷ behind),
    );
    closing = v.closing;
    leaving = v.leaving;
  }
    where
      same_busy : busy (before ++ b ∷ behind) ≡ busy s.awaited
      same_busy =
          busy-append before (b ∷ behind) ∙ ap (λ p. busy before ++ p ∷ busy behind) h ∙ sym waiting

  idle_now : contains a.processor (busy (before ++ behind)) ≡ false
  idle_now = ap (contains a.processor) (busy-append before behind) ∙ apart.1

  pub known_now : contains a.processor s.processors ≡ true
  known_now =
      v.registered a.processor
        (ground (arith, was_waiting a.processor, same_iff a.processor a.processor))

pub Step-IsSound :
    {n urls : ℕ} {s t : RecoveryHandler} → Step s t → IsSound n urls s → IsSound n urls t
unfolding on_read on_pushed
Step-IsSound {s = s} (read before p url behind true h) v =
    subst (IsSound _ _)
      (ap (λ w. record s { awaited = before ++ behind; written = w }) (append-nil s.written))
      (answered-IsSound s (record { processor = p; url = url; phase = reading }) before behind v h
        [] (omega arith))
Step-IsSound {s = s} (read before p url behind false h) v =
    renewed-IsSound s (record { processor = p; url = url; phase = reading }) before behind v h
      (record { processor = p; url = url; phase = pushing }) refl
Step-IsSound {s = s} (pushed before p url behind failed h) v =
    let a : Awaited = record { processor = p; url = url; phase = pushing } in
    let bytes = (if failed then b'f' else b's') ∷ [] in
    process_next-IsSound (record s { awaited = before ++ behind; written = s.written ++ bytes }) p
      (answered-IsSound s a before behind v h bytes (omega arith)) (idle_now s a before behind v h)
      (known_now s a before behind v h)
