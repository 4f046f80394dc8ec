-- ===== src/Similarity/Alone.antt =====
-- What a thread sends of each document.
use wookie.Base.{
  ℕ, ◌≡◌, refl, Bool, none, some, List, [], ◌∷◌, ◌++◌, Option-cases, inl, inr, get_elem?, Str,
  arith, ℤ,
}
use wookie.Parser.{Outside, Parser, parser, feed_file}
use wookie.Parser.Fresh.{feed_file-fresh, string_tokens-with}
use wookie.Decimal.{lexical_cast}
use wookie.TfIdf.{size_of_int}
use wookie.Similarity.Parse.{Sending, html, load_document, visit_documents}

module _ (out : Outside) (input_dir normalize_url : Str) (read : Str → Bool × Str) where
  -- With a new parser.
  abbrev pub alone : ℤ → List Sending
  alone id = (load_document out input_dir normalize_url read parser id).1

  load_document-alone :
      (p : Parser) (id : ℤ) → (load_document out input_dir normalize_url read p id).1 ≡ alone id
  unfolding load_document
  load_document-alone p id =
      let file = read (input_dir ++ lexical_cast (size_of_int id) ++ html) in
      let fresh = feed_file out parser file in
      ground (
        arith,
        feed_file-fresh out p file,
        string_tokens-with out p.m_tfidf fresh.0 (b' ' ∷ []),
        Option-cases fresh.1,
      )

  abbrev pub each_alone : List ℤ → List ℕ → List Sending
  each_alone ids [] = []
  each_alone ids (i ∷ is) =
      elim (get_elem? ids i) [ none ↦ [] | some id ↦ alone id ] ++ each_alone ids is

  -- What a thread sends of a document does not depend on the documents before it.
  visit_documents-alone :
      (ids : List ℤ) (order : List ℕ) (p : Parser)
      → (visit_documents out input_dir normalize_url read ids order p).1 ≡ each_alone ids order
  unfolding visit_documents
  visit_documents-alone ids [] p = refl
  visit_documents-alone ids (i ∷ is) p = elim (Option-cases (get_elem? ids i)) [
    | inl h ↦ ground (arith, h, visit_documents-alone ids is p)
    | inr (id, h) ↦ ground (
      arith,
      h,
      load_document-alone p id,
      visit_documents-alone ids is (load_document out input_dir normalize_url read p id).0,
    )
  ]
