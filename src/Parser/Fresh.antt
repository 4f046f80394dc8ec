-- ===== src/Parser/Fresh.antt =====
-- The members of a parser that a file leaves to the next one.
use wookie.Base.{◌≡◌, refl, ap, ◌∙◌, Bool, true, false, ◌||◌, none, some, Str, arith}
use wookie.TfIdf.{TfIdf}
use wookie.Parser.{
  NodeData, TidyNode, null, node, Outside, Parser, parser, Ran, then_do, c_str, reset, push_url,
  push_text, traverse_tree, feed_text, feed_file, string_tokens, word_tokens,
}

-- The same parser with other word counts.
abbrev pub with : TfIdf → Parser → Parser
with t p = record p { m_tfidf = t }

abbrev pub ran_with : TfIdf → Ran → Ran
ran_with t (p, thrown) = (with t p, thrown)

then_do-with :
    (t : TfIdf) (ran : Ran) (next : Parser → Ran)
    → ((p : Parser) → next (with t p) ≡ ran_with t (next p))
    → then_do (ran_with t ran) next ≡ ran_with t (then_do ran next)
then_do-with t (p, none) next behind = behind p
then_do-with t (p, some e) next behind = refl

module _ (out : Outside) where
  push_url-with :
      (t : TfIdf) (n : NodeData) (p : Parser)
      → push_url out n (with t p) ≡ ran_with t (push_url out n p)
  unfolding push_url
  push_url-with t n p = ground arith

  push_text-with :
      (t : TfIdf) (n : NodeData) (p : Parser)
      → push_text out n (with t p) ≡ ran_with t (push_text out n p)
  unfolding push_text
  push_text-with t n p = ground arith

  -- What `traverse_tree` does behind the link of a node.
  abbrev behind_url : NodeData → TidyNode → TidyNode → Bool → Parser → Ran
  behind_url n child next skipped q = elim skipped [
    | true ↦ traverse_tree out next q
    | false ↦
        then_do (push_text out n q)
          (λ q. then_do (traverse_tree out child q) (λ q. traverse_tree out next q))
  ]

  behind_url-with :
      (t : TfIdf) (n : NodeData) (child next : TidyNode)
      → ((q : Parser) → traverse_tree out child (with t q) ≡ ran_with t (traverse_tree out child q))
      → ((q : Parser) → traverse_tree out next (with t q) ≡ ran_with t (traverse_tree out next q))
      → (skipped : Bool) (q : Parser)
      → behind_url n child next skipped (with t q) ≡ ran_with t (behind_url n child next skipped q)
  behind_url-with t n child next of_child of_next true q = of_next q
  behind_url-with t n child next of_child of_next false q =
      let last = λ (q : Parser). traverse_tree out next q in
      let both = λ (q : Parser). then_do (traverse_tree out child q) last in
      ap (λ r. then_do r both) (push_text-with t n q)
      ∙ then_do-with t (push_text out n q) both (λ q.
        ap (λ r. then_do r last) (of_child q)
        ∙ then_do-with t (traverse_tree out child q) last of_next)

  traverse_tree-with :
      (t : TfIdf) (tree : TidyNode) (p : Parser)
      → traverse_tree out tree (with t p) ≡ ran_with t (traverse_tree out tree p)
  unfolding traverse_tree
  traverse_tree-with t null p = refl
  traverse_tree-with t (node n child next) p =
      let behind = behind_url n child next (n.is_script || n.is_style) in
      ap (λ r. then_do r behind) (push_url-with t n p)
      ∙ then_do-with t (push_url out n p) behind (
          behind_url-with t n child next (λ q. traverse_tree-with t child q)
            (λ q. traverse_tree-with t next q) (n.is_script || n.is_style))

  -- Only the word counts are kept from one file to the next.
  pub feed_file-fresh :
      (p : Parser) (file : Bool × Str)
      → feed_file out p file ≡ ran_with p.m_tfidf (feed_file out parser file)
  unfolding feed_file feed_text reset
  feed_file-fresh p (bad, text) =
      ground (arith, traverse_tree-with p.m_tfidf (out.tidy_parse (c_str text)).1 parser)

  pub string_tokens-with :
      (t : TfIdf) (p : Parser) (join : Str)
      → string_tokens out (with t p) join ≡ string_tokens out p join
  unfolding string_tokens word_tokens
  string_tokens-with t p join = refl
