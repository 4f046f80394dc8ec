-- ===== src/Similarity/Parse.antt =====
-- The threads of test/similarity/elliptics_parse_docs.cpp: `load_documents`, where thread `id` of
-- `step` takes every `step`th document and element. What a thread sends is recorded in order; the
-- answers to it are outside.
use wookie.Base.{
  ℕ, zero, suc, ◌==◌, Bool, none, some, List, [], ◌∷◌, ◌++◌, length, ltb, if◌then◌else◌, get_elem?,
  Str, update_at, ℤ,
}
use wookie.Documents.{Simdoc}
use wookie.Decimal.{lexical_cast}
use wookie.TfIdf.{TfIdf, add_size, size_of_int, empty_tf, update_tfidf}
use wookie.Parser.{merge_into, Outside, Parser, feed_file, string_tokens}
use wookie.Parser.Ngrams.{generate_ngrams}
use wookie.Similarity.{LearnElement}

-- The values of `i` in `for (size_t i = id; i < n; i += step)`, for fuel.
unfoldable pub share : ℕ → ℕ → ℕ → ℕ → List ℕ
share zero i step n = []
share (suc fuel) i step n =
    let rest = share fuel (add_size i step) step n in if ltb i n then i ∷ rest else []

-- `dth->parser.generate_ngrams(le.request, le.req_ngrams)`.
unfoldable pub request_ngrams : Outside → LearnElement → LearnElement
request_ngrams out le = record le { req_ngrams = generate_ngrams out le.request le.req_ngrams }

-- The second loop, at the positions given.
unfoldable pub visit_elements : Outside → List ℕ → List LearnElement → List LearnElement
unfolding request_ngrams
visit_elements out [] les = les
visit_elements out (i ∷ is) les = visit_elements out is (update_at (request_ngrams out) i les)

-- `".html"`.
abbrev pub html : Str
html = b'.' ∷ b'h' ∷ b't' ∷ b'm' ∷ b'l' ∷ []

-- What `load_documents` does of a document: it is sent at once, or its text is sent to the url that
-- normalizes texts first.
pub data Sending : Type 0 where
  pack_and_send : Simdoc → Sending
  send_normalize_request : Simdoc → Sending

module _ (out : Outside) (input_dir normalize_url : Str) (read : Str → Bool × Str) where
  -- One document in the first loop, with what an exception leaves out.
  unfoldable pub load_document : Parser → ℤ → Parser × List Sending
  load_document p id =
      let (fed, thrown) =
        feed_file out p (read (input_dir ++ lexical_cast (size_of_int id) ++ html)) in
      let text = string_tokens out fed (b' ' ∷ []) in
      let doc : Simdoc = record { id = id; text = text; ngrams = generate_ngrams out text [] } in
      elim thrown [
        | some e ↦ (fed, [])
        | none ↦ (
          record fed { m_tfidf = (update_tfidf out.loc fed.m_tfidf text empty_tf).0 },
          (if length normalize_url == 0 then pack_and_send doc else send_normalize_request doc)
              ∷ [],
        )
      ]

  -- The first loop, at the positions given.
  unfoldable pub visit_documents : List ℤ → List ℕ → Parser → Parser × List Sending
  unfolding load_document
  visit_documents ids [] p = (p, [])
  visit_documents ids (i ∷ is) p = elim (get_elem? ids i) [
    | none ↦ visit_documents ids is p
    | some id ↦
        let (after, sent) = load_document p id in
        let (last, more) = visit_documents ids is after in (last, sent ++ more)
  ]

-- The loop of `add_documents` over the threads that have ended.
unfoldable pub merge_threads : Outside → TfIdf → List Parser → TfIdf
unfolding merge_into
merge_threads out df [] = df
merge_threads out df (p ∷ ps) = merge_threads out (merge_into out p df) ps
