-- ===== src/Similarity/Reads.antt =====
-- The vectors that `check` reads.
use wookie.Base.{
  ℕ, zero, suc, ◌+◌, ◌%◌, ◌<◌, ◌≡◌, inl, inr, refl, ap, ◌∙◌, Bool, true, false, some, List, [], ◌∷◌,
  Map, find, insert, assign, find-insert, find-assign, set_intersection, length, All, arith,
  Option-cases, if◌then◌else◌, get_elem?, update_at, All-get_elem?, All-update_at, length-update_at,
  str_ord, nat_ord, ℤ, pos, negsuc,
}
use native.Mathlib.Nat.{mod-lt}
use wookie.Documents.{Simdoc}
use wookie.Score.{score}
use wookie.Parser.Ngrams.{int_ord}
use wookie.Similarity.{LearnElement, generate_features}
use wookie.Similarity.Features.{intersect-set_intersection}
use wookie.Similarity.Loader.{
  make_element, Checking, count_element, check_pick, check_loop, check, turns, positions_from,
  position,
}

-- Two documents, as they are stored.
abbrev pub Paired : LearnElement → Type 0
Paired le = length le.doc_ids ≡ 2

-- Every position is one of a document.
abbrev pub Placed : List Simdoc → Map ℤ ℕ → Type 0
Placed docs positions = (id : ℤ) (i : ℕ) → find id positions ≡ some i → i < length docs

read_at : {A : Type 0} (xs : List A) (i : ℕ) → i < length xs → (x : A) × (get_elem? xs i ≡ some x)
read_at [] i small = absurd (omega arith)
read_at (x ∷ xs) zero small = (x, refl)
read_at (x ∷ xs) (suc i) small = read_at xs i (omega arith)

insert-Placed :
    (docs : List Simdoc) (id : ℤ) (positions : Map ℤ ℕ)
    → 0 < length docs
    → Placed docs positions
    → Placed docs (insert id 0 positions)
insert-Placed docs id positions some_doc placed k i found = ground (
  arith,
  find-insert k id 0 positions,
  found,
  some_doc,
  placed k i,
  Option-cases (find k positions),
)

position-lt :
    (docs : List Simdoc) (id : ℤ) (positions : Map ℤ ℕ)
    → 0 < length docs
    → Placed docs positions
    → position id positions < length docs
position-lt docs id positions some_doc placed = elim (Option-cases (find id positions)) [
  | inl h ↦ ground (arith, h, some_doc)
  | inr (i, h) ↦ ground (arith, h, placed id i h)
]

generate_features-some :
    (le : LearnElement) (d1 d2 : Simdoc)
    → (made : Bool) × (after : LearnElement) × (generate_features le d1 d2 ≡ some (made, after))
      × (after.doc_ids ≡ le.doc_ids)
unfolding generate_features
generate_features-some le d1 d2 =
    let inter = set_intersection d1.ngrams d2.ngrams in
    let first = intersect-set_intersection d1.ngrams d2.ngrams in
    let second = intersect-set_intersection inter le.req_ngrams in
    elim (Option-cases (generate_features le d1 d2)) [
      | inl h ↦ absurd (ground (arith, h, first, second))
      | inr ((made, after), h) ↦ (made, after, h, ground (arith, h, first, second))
    ]

make_element-some :
    (docs : List Simdoc) (positions : Map ℤ ℕ) (le : LearnElement)
    → 0 < length docs
    → Placed docs positions
    → Paired le
    → (made : Bool) × (after : LearnElement) × (later : Map ℤ ℕ) × (make_element docs positions le
        ≡ some (made, after, later))
      × Paired after
      × Placed docs later
unfolding make_element
make_element-some docs positions le some_doc placed paired =
    let (id1, e1) = read_at le.doc_ids 0 (omega (arith, paired)) in
    let (id2, e2) = read_at le.doc_ids 1 (omega (arith, paired)) in
    let first = insert id1 0 positions in
    let both = insert id2 0 first in
    let placed1 = insert-Placed docs id1 positions some_doc placed in
    let placed2 = insert-Placed docs id2 first some_doc placed1 in
    let (d1, e3) =
      read_at docs (position id1 first) (position-lt docs id1 first some_doc placed1) in
    let (d2, e4) = read_at docs (position id2 both) (position-lt docs id2 both some_doc placed2) in
    let (made, after, e5, kept) = generate_features-some le d1 d2 in
    (made, after, both, ground (arith, e1, e2, e3, e4, e5), ap length kept ∙ paired, placed2)

positions_from-Placed :
    (docs rest : List Simdoc) (i : ℕ) (positions : Map ℤ ℕ)
    → i + length rest ≡ length docs
    → Placed docs positions
    → Placed docs (positions_from i rest positions)
unfolding positions_from
positions_from-Placed docs [] i positions all placed = placed
positions_from-Placed docs (doc ∷ rest) i positions all placed =
    positions_from-Placed docs rest (suc i) (assign doc.id i positions) (omega (arith, all))
      (λ k j found. ground (arith, find-assign k doc.id i positions, found, all, placed k j))

module _ (docs : List Simdoc) (is_half : List ℤ → Bool) where
  -- What the loop relies on.
  record IsReadable (s : Checking) : Type 0 where
    pub some_element : 0 < length s.elements
    pub placed : Placed docs s.id_position
    pub paired : All Paired s.elements

  counted_or_not :
      (s : Checking) (le : LearnElement) (made : Bool)
      → IsReadable s
      → IsReadable (if made then count_element docs is_half s le (is_half le.features) else s)
  unfolding count_element
  counted_or_not s le true readable = record {
    some_element = readable.some_element;
    placed = readable.placed;
    paired = readable.paired;
  }
  counted_or_not s le false readable = readable

  check_pick-some :
      (s : Checking) (rand : ℕ)
      → 0 < length docs
      → IsReadable s
      → (t : Checking) × (check_pick docs is_half s rand ≡ some t) × IsReadable t
  unfolding check_pick
  check_pick-some s rand some_doc readable =
      let size = length s.elements in
      let lepos = rand % size in
      let (le, e1) = read_at s.elements lepos (mod-lt rand readable.some_element) in
      let paired = All-get_elem? Paired s.elements lepos readable.paired e1 in
      let (made, after, later, e2, paired_after, placed) =
        make_element-some docs s.id_position le some_doc readable.placed paired in
      let kept : Checking = record s {
        elements = update_at (λ old. after) lepos s.elements;
        id_position = later;
      } in
      (
        (if made then count_element docs is_half kept after (is_half after.features) else kept),
        ground (arith, e1, e2),
        counted_or_not kept after made (record {
          some_element = omega (
            arith,
            readable.some_element,
            length-update_at (λ (old : LearnElement). after) lepos s.elements,
          );
          placed = placed;
          paired = All-update_at Paired after lepos s.elements readable.paired paired_after;
        }),
      )

  check_loop-some :
      (s : Checking) (rands : List ℕ)
      → 0 < length docs
      → IsReadable s
      → (t : Checking) × (check_loop docs is_half s rands ≡ some t)
  unfolding check_loop
  check_loop-some s [] some_doc readable = (s, refl)
  check_loop-some s (rand ∷ rands) some_doc readable =
      let (t, e, later) = check_pick-some s rand some_doc readable in
      let (last, run) = check_loop-some t rands some_doc later in (last, ground (arith, e, run))

-- Every loop ends.
pub check-some :
    (docs : List Simdoc) (is_half : List ℤ → Bool) (les : List LearnElement) (num : ℤ)
    (rand : ℕ → List ℕ)
    → 0 < length docs
    → All Paired les
    → ((n : ℕ) → length (rand n) ≡ n)
    → (t : Checking) × (check docs is_half les num rand ≡ some t)
unfolding check check_loop
check-some docs is_half [] num rand some_doc paired drawn = (
  record {
    elements = [];
    id_position = positions_from 0 docs [];
    total = 0;
    success = 0;
    positive = 0;
    score = score;
  },
  no_turn (rand (turns num 0)) (drawn (turns num 0) ∙ no_turns num),
)
  where
    no_turns : (n : ℤ) → turns n 0 ≡ 0
    no_turns (pos n) = omega arith
    no_turns (negsuc n) = refl

    no_turn :
        {s : Checking} (rands : List ℕ)
        → length rands ≡ 0
        → check_loop docs is_half s rands ≡ some s
    no_turn [] none_left = refl
    no_turn (r ∷ rands) none_left = absurd (omega (arith, none_left))
check-some docs is_half (le ∷ les) num rand some_doc paired drawn =
    check_loop-some docs is_half
      (record {
        elements = le ∷ les;
        id_position = positions_from 0 docs [];
        total = 0;
        success = 0;
        positive = 0;
        score = score;
      })
      (rand (turns num (length (le ∷ les)))) some_doc
      (record {
        some_element = omega arith;
        placed = positions_from-Placed docs docs 0 [] (omega arith) (λ k i found. absurd (cc));
        paired = paired;
      })
