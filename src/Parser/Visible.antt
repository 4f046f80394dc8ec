-- ===== src/Parser/Visible.antt =====
-- The nodes that `traverse_tree` sees, in document order.
use wookie.Base.{
  ◌≡◌, refl, sym, ap, ◌∙◌, Bool, true, false, ◌&&◌, ◌||◌, none, some, List, [], ◌∷◌, ◌++◌,
  if◌then◌else◌, Str,
}
use wookie.Parser.{
  NodeData, TidyNode, null, node, Outside, Parser, Ran, then_do, push_url, push_text, traverse_tree,
}

-- The nodes of a tree in document order, without those below a script or a style.
unfoldable pub visible : TidyNode → List NodeData
visible null = []
visible (node n child next) =
    n ∷ (if n.is_script || n.is_style then visible next else visible child ++ visible next)

-- The link of a node, and its text.
unfoldable pub hrefs_of : NodeData → List Str
hrefs_of n = if n.is_a then elim n.href [ none ↦ [] | some value ↦ value ∷ [] ] else []

unfoldable pub texts_of : NodeData → List Str
texts_of n =
    if n.is_script || n.is_style
    then []
    else if n.is_text_node && n.has_text
    then n.text ∷ []
    else []

unfoldable pub hrefs : List NodeData → List Str
hrefs [] = []
hrefs (n ∷ ns) = hrefs_of n ++ hrefs ns

unfoldable pub texts : List NodeData → List Str
texts [] = []
texts (n ∷ ns) = texts_of n ++ texts ns

module _ (out : Outside) where
  -- What `traverse_tree` does with one node, and with one after the other.
  unfoldable pub see : NodeData → Parser → Ran
  see n p =
      then_do (push_url out n p)
        (λ p. elim (n.is_script || n.is_style) [ true ↦ (p, none) | false ↦ push_text out n p ])

  unfoldable pub see_all : List NodeData → Parser → Ran
  see_all [] p = (p, none)
  see_all (n ∷ ns) p = then_do (see n p) (λ p. see_all ns p)

  then_do_assoc :
      (r : Ran) (f g : Parser → Ran) → then_do (then_do r f) g ≡ then_do r (λ p. then_do (f p) g)
  then_do_assoc (p, none) f g = refl
  then_do_assoc (p, some e) f g = refl

  then_do_ext :
      (r : Ran) (f g : Parser → Ran) → ((p : Parser) → f p ≡ g p) → then_do r f ≡ then_do r g
  then_do_ext (p, none) f g h = h p
  then_do_ext (p, some e) f g h = refl

  see_all-append :
      (ns ms : List NodeData) (p : Parser)
      → see_all (ns ++ ms) p ≡ then_do (see_all ns p) (see_all ms)
  unfolding see_all
  see_all-append [] ms p = refl
  see_all-append (n ∷ ns) ms p =
      then_do_ext (see n p) (see_all (ns ++ ms)) (λ p. then_do (see_all ns p) (see_all ms))
        (see_all-append ns ms)
      ∙ sym (then_do_assoc (see n p) (see_all ns) (see_all ms))

  -- The statements behind the link of a node, when it is a script or a style and when not.
  behind_url :
      (skipped : Bool) (n : NodeData) (child next : TidyNode)
      → ((p : Parser) → traverse_tree out child p ≡ see_all (visible child) p)
      → ((p : Parser) → traverse_tree out next p ≡ see_all (visible next) p)
      → (p : Parser)
      → elim skipped [
        | true ↦ traverse_tree out next p
        | false ↦
            then_do
              (push_text out n p)
              (λ p. then_do (traverse_tree out child p) (traverse_tree out next))
      ]
        ≡ then_do
            (elim skipped [ true ↦ (p, none) | false ↦ push_text out n p ])
            (λ p. see_all (if skipped then visible next else visible child ++ visible next) p)
  behind_url true n child next in_child in_next p = in_next p
  behind_url false n child next in_child in_next p =
      then_do_ext (push_text out n p)
        (λ p. then_do (traverse_tree out child p) (traverse_tree out next))
        (see_all (visible child ++ visible next))
        (λ p.
          ap (λ r. then_do r (traverse_tree out next)) (in_child p)
          ∙ then_do_ext (see_all (visible child) p) (traverse_tree out next)
              (see_all (visible next)) in_next
          ∙ sym (see_all-append (visible child) (visible next) p))

  pub traverse_tree-visible :
      (t : TidyNode) (p : Parser) → traverse_tree out t p ≡ see_all (visible t) p
  unfolding traverse_tree visible see see_all
  traverse_tree-visible null p = refl
  traverse_tree-visible (node n child next) p =
      then_do_ext (push_url out n p) _ _ (
        behind_url (n.is_script || n.is_style) n child next (traverse_tree-visible child)
          (traverse_tree-visible next))
      ∙ sym (then_do_assoc (push_url out n p) _ _)
