-- ===== src/Parser/Tree.antt =====
-- Which links and texts of a page `feed_text` collects.
use wookie.Base.{
  ℕ, ◌==◌, ◌≡◌, refl, sym, ap, ap₂, subst, ◌∙◌, ◌↔◌, ◌⊎◌, inl, inr, ◌≢◌, false, ◌&&◌, ◌||◌, none,
  some, List, [], ◌∷◌, ◌++◌, length, if◌then◌else◌, Str, ok, err, Error, map_result,
  map_result-append, arith, append-nil, append_assoc, Bool-cases, Option-cases, Result-cases, pos,
}
use wookie.Parser.{
  NodeData, TidyNode, Outside, Parser, Ran, then_do, c_str, reset, convert, push_url, push_text,
  feed_text,
}
use wookie.Parser.Visible.{
  visible, hrefs_of, texts_of, hrefs, texts, see, see_all, traverse_tree-visible,
}

module _ (out : Outside) where
  -- Both lists converted, and put behind what the parser has.
  added : Parser → List Str → List Str → Parser
  added p us ts = record p { m_urls = p.m_urls ++ us; m_tokens = p.m_tokens ++ ts }

  -- The outcome of a run over some nodes: every link and text was converted, or an exception was
  -- thrown for one of them.
  Outcome : Parser → List Str → List Str → Ran → Type 0
  Outcome p links words ran =
      ((us : List Str) × (ts : List Str) × (map_result (convert out) links ≡ ok us)
        × (map_result (convert out) words ≡ ok ts)
        × (ran ≡ (added p us ts, none)))
      ⊎ (e : Error) × (q : Parser) × (ran ≡ (q, some e))
        × ((map_result (convert out) links ≡ err e) ⊎ (map_result (convert out) words ≡ err e))

  added_nothing : (p : Parser) → added p [] [] ≡ p
  unfolding added
  added_nothing p =
      ap₂ (λ us ts. record p { m_urls = us; m_tokens = ts }) (append-nil p.m_urls)
        (append-nil p.m_tokens)

  added_more :
      (p : Parser) (us us' ts ts' : List Str)
      → added (added p us ts) us' ts' ≡ added p (us ++ us') (ts ++ ts')
  unfolding added
  added_more p us us' ts ts' =
      ap₂ (λ us ts. record p { m_urls = us; m_tokens = ts }) (append_assoc p.m_urls us us')
        (append_assoc p.m_tokens ts ts')

  -- The texts converted in two runs, one after the other.
  converted_append :
      (xs ys : List Str) {us vs : List Str}
      → map_result (convert out) xs ≡ ok us
      → map_result (convert out) ys ≡ ok vs
      → map_result (convert out) (xs ++ ys) ≡ ok (us ++ vs)
  converted_append xs ys h k = ground (arith, map_result-append (convert out) xs ys, h, k)

  throws_first :
      (xs ys : List Str) {e : Error}
      → map_result (convert out) xs ≡ err e
      → map_result (convert out) (xs ++ ys) ≡ err e
  throws_first xs ys h = ground (arith, map_result-append (convert out) xs ys, h)

  throws_later :
      (xs ys : List Str) {us : List Str} {e : Error}
      → map_result (convert out) xs ≡ ok us
      → map_result (convert out) ys ≡ err e
      → map_result (convert out) (xs ++ ys) ≡ err e
  throws_later xs ys h k = ground (arith, map_result-append (convert out) xs ys, h, k)

  then_do-Outcome :
      (links words links' words' : List Str) (p : Parser) (ran : Ran) (next : Parser → Ran)
      → Outcome p links words ran
      → ((q : Parser) → Outcome q links' words' (next q))
      → Outcome p (links ++ links') (words ++ words') (then_do ran next)
  unfolding Outcome
  then_do-Outcome links words links' words' p ran next (inr (e, q, h, inl k)) behind =
      inr (e, q, ap (λ r. then_do r next) h, inl (throws_first links links' k))
  then_do-Outcome links words links' words' p ran next (inr (e, q, h, inr k)) behind =
      inr (e, q, ap (λ r. then_do r next) h, inr (throws_first words words' k))
  then_do-Outcome links words links' words' p ran next (inl (us, ts, hl, hw, h)) behind =
      elim (behind (added p us ts)) [
        | inl (us', ts', hl', hw', h') ↦ inl (
          us ++ us',
          ts ++ ts',
          converted_append links links' hl hl',
          converted_append words words' hw hw',
          ap (λ r. then_do r next) h ∙ h' ∙ ap (λ q. (q, none)) (added_more p us us' ts ts'),
        )
        | inr (e, q, h', inl k) ↦
            inr (e, q, ap (λ r. then_do r next) h ∙ h', inl (throws_later links links' hl k))
        | inr (e, q, h', inr k) ↦
            inr (e, q, ap (λ r. then_do r next) h ∙ h', inr (throws_later words words' hw k))
      ]

  nothing-Outcome : (p : Parser) → Outcome p [] [] (p, none)
  unfolding Outcome
  nothing-Outcome p = inl ([], [], refl, refl, ap (λ q. (q, none)) (sym (added_nothing p)))

  push_url-Outcome : (n : NodeData) (p : Parser) → Outcome p (hrefs_of n) [] (push_url out n p)
  unfolding Outcome push_url hrefs_of added
  push_url-Outcome n p = elim (Bool-cases n.is_a) [
    | inr h ↦ rw h (nothing-Outcome p)
    | inl h ↦ elim (Option-cases n.href) [
      | inl no_link ↦ rw h (rw no_link (nothing-Outcome p))
      | inr (value, link) ↦ elim (Result-cases (convert out value)) [
        | inl (url, k) ↦ inl (
          url ∷ [],
          [],
          ground (arith, h, link, k),
          refl,
          ground (arith, h, link, k, append-nil p.m_tokens),
        )
        | inr (e, k) ↦ inr (e, p, ground (arith, h, link, k), inl (ground (arith, h, link, k)))
      ]
    ]
  ]

  -- The text of a node that is neither script nor style.
  push_text-Outcome :
      (n : NodeData) (p : Parser)
      → Outcome p [] (if n.is_text_node && n.has_text then n.text ∷ [] else []) (push_text out n p)
  unfolding Outcome push_text added
  push_text-Outcome n p = elim (Bool-cases (n.is_text_node && n.has_text)) [
    | inr h ↦ rw h (nothing-Outcome p)
    | inl h ↦ elim (Result-cases (convert out n.text)) [
      | inl (token, k) ↦
          inl
            ([], token ∷ [], refl, ground (arith, h, k), ground (arith, h, k, append-nil p.m_urls))
      | inr (e, k) ↦ inr (e, p, ground (arith, h, k), inr (ground (arith, h, k)))
    ]
  ]

  see-Outcome : (n : NodeData) (p : Parser) → Outcome p (hrefs_of n) (texts_of n) (see out n p)
  unfolding see texts_of
  see-Outcome n p =
      subst (λ links. Outcome p links (texts_of n) (see out n p)) (append-nil (hrefs_of n))
        (then_do-Outcome (hrefs_of n) [] [] (texts_of n) p (push_url out n p) _
          (push_url-Outcome n p)
          (λ q. elim (Bool-cases (n.is_script || n.is_style)) [
            | inl h ↦ rw h (nothing-Outcome q)
            | inr h ↦ rw h (push_text-Outcome n q)
          ]))

  see_all-Outcome :
      (ns : List NodeData) (p : Parser) → Outcome p (hrefs ns) (texts ns) (see_all out ns p)
  unfolding see_all hrefs texts
  see_all-Outcome [] p = nothing-Outcome p
  see_all-Outcome (n ∷ ns) p =
      then_do-Outcome (hrefs_of n) (texts_of n) (hrefs ns) (texts ns) p (see out n p)
        (see_all out ns) (see-Outcome n p) (see_all-Outcome ns)

  not_empty : (page : Str) → page ≢ [] → (length page == 0) ≡ false
  not_empty [] some_text = absurd (some_text refl)
  not_empty (c ∷ page) some_text = ground arith

  feed_text-eq-see_all :
      (p : Parser) (page : Str) (status : ℕ) (html : TidyNode)
      → page ≢ []
      → out.tidy_parse (c_str page) ≡ (pos status, html)
      → feed_text out p page ≡ see_all out (visible html) (reset p)
  unfolding feed_text
  feed_text-eq-see_all p page status html some_text parsed = rw (not_empty page some_text) (
      rw parsed (
        traverse_tree-visible out (out.tidy_parse (c_str page)).1 (reset p)
        ∙ ap (λ r. see_all out (visible r.1) (reset p)) parsed))

  -- What an outcome says of a run.
  Outcome-iff :
      (p p' : Parser) (links words : List Str) (ran : Ran)
      → Outcome (reset p) links words ran
      → (ran ≡ (p', none)) ↔ (
          (map_result (convert out) links ≡ ok p'.m_urls)
          × (map_result (convert out) words ≡ ok p'.m_tokens)
          × (p'.m_tfidf ≡ p.m_tfidf))
  unfolding Outcome added reset
  Outcome-iff p p' links words ran (inl (us, ts, hl, hw, h)) = (
    λ returned.
        let same_parser : added (reset p) us ts ≡ p' = ap (λ r. r.0) (sym h ∙ returned) in
        (
          hl ∙ ap (λ q. ok q.m_urls) same_parser,
          hw ∙ ap (λ q. ok q.m_tokens) same_parser,
          sym (ap (λ q. q.m_tfidf) same_parser),
        ),
    λ k.
        let same_urls : us ≡ p'.m_urls = ground (arith, hl, k.0) in
        let same_tokens : ts ≡ p'.m_tokens = ground (arith, hw, k.1) in
        h ∙ (λ i.
          (record { m_urls = same_urls i; m_tokens = same_tokens i; m_tfidf = sym k.2 i }, none)),
  )
  Outcome-iff p p' links words ran (inr (e, q, h, thrown)) = (
    λ returned. ground (arith, h, returned),
    λ k. elim thrown [ inl hl ↦ ground (arith, hl, k.0) | inr hw ↦ ground (arith, hw, k.1) ],
  )

  -- A page that tidy can parse is fed without exception exactly if the links of its anchors and its
  -- texts can all be converted. The parser then has these links and texts in document order,
  -- without those below a script or a style, and nothing of the page before.
  pub feed_text-visible :
      (p p' : Parser) (page : Str) (status : ℕ) (html : TidyNode)
      → page ≢ []
      → out.tidy_parse (c_str page) ≡ (pos status, html)
      → (feed_text out p page ≡ (p', none)) ↔ (
          (map_result (convert out) (hrefs (visible html)) ≡ ok p'.m_urls)
          × (map_result (convert out) (texts (visible html)) ≡ ok p'.m_tokens)
          × (p'.m_tfidf ≡ p.m_tfidf))
  feed_text-visible p p' page status html some_text parsed =
      rw (feed_text-eq-see_all p page status html some_text parsed) (
        Outcome-iff p p' (hrefs (visible html)) (texts (visible html))
          (see_all out (visible html) (reset p)) (see_all-Outcome (visible html) (reset p)))
