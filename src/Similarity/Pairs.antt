-- ===== src/Similarity/Pairs.antt =====
-- The file of pairs that `loader::load` of test/similarity/elliptics_parse_docs.cpp reads. A number
-- in it fits an `int`, as `sscanf` requires.
use wookie.Base.{
  ℕ, zero, suc, ◌+◌, ◌-◌, ◌*◌, ◌==◌, ◌≡◌, ◌⊎◌, inl, inr, refl, sym, ap, subst, ◌∙◌, Bool, true,
  false, ◌||◌, Option, none, some, List, [], ◌∷◌, ◌++◌, length, append_assoc, contains-append,
  if◌then◌else◌, Str, nat_ord, str_ord, same, same_iff, contains, Distinct, insert_sorted,
  insert_sorted-Distinct, contains-insert_sorted, All, All-append, Bool-cases, arith, ℤ, pos,
  negsuc,
}
use wookie.Decimal.{is_digit, is_space, negative}
use wookie.Parser.{c_str}
use wookie.Parser.Ngrams.{int_ord}
use wookie.Similarity.{LearnElement, learn_element}
use wookie.Similarity.Reads.{Paired}
use wookie.Similarity.Checks.{Labelled}

-- The digits at the front, if there is one, and what is behind them.
abbrev scan_digits : Bool → ℕ → Str → Option (ℕ × Str)
scan_digits some_digit n [] = if some_digit then some (n, []) else none
scan_digits some_digit n (c ∷ cs) = elim (is_digit c) [
  | true ↦ scan_digits true (n * 10 + (c - b'0')) cs
  | false ↦ if some_digit then some (n, c ∷ cs) else none
]

abbrev signed_by : (ℕ → ℤ) → Option (ℕ × Str) → Option (ℤ × Str)
signed_by sign none = none
signed_by sign (some (n, rest)) = some (sign n, rest)

-- `%d`.
abbrev scan_int : Str → Option (ℤ × Str)
scan_int [] = none
scan_int (c ∷ cs) = elim (is_space c) [
  | true ↦ scan_int cs
  | false ↦
      if c == b'-'
      then signed_by negative (scan_digits false 0 cs)
      else if c == b'+'
      then signed_by pos (scan_digits false 0 cs)
      else signed_by pos (scan_digits false 0 (c ∷ cs))
]

-- The numbers that `sscanf` stores for as many `%d`; the white space behind one is skipped by the
-- next.
abbrev scan_ints : ℕ → Str → List ℤ
scan_ints zero text = []
scan_ints (suc n) text = elim (scan_int text) [ none ↦ [] | some (z, rest) ↦ z ∷ scan_ints n rest ]

-- What is behind the last tab.
abbrev behind_tab : Str → Option Str
behind_tab [] = none
behind_tab (c ∷ cs) = elim (behind_tab cs) [
  | some rest ↦ some rest
  | none ↦ if c == 9 then some cs else none
]

-- What a line comes to: the loop ends, nothing, or an element.
pub data Line : Type 0 where
  broken skipped : Line
  loaded : (first second : ℤ) → LearnElement → Line

abbrev element_of : ℤ → ℤ → ℤ → Str → LearnElement
element_of first second label request = record learn_element {
  doc_ids = first ∷ second ∷ [];
  request = request;
  label = if same label (pos 0) then negsuc 0 else pos 1;
}

abbrev with_request : ℤ → ℤ → ℤ → Option Str → Line
with_request first second label none = broken
with_request first second label (some []) = skipped
with_request first second label (some (c ∷ cs)) =
    loaded first second (element_of first second label (c ∷ cs))

abbrev with_numbers : List ℤ → Option Str → Line
with_numbers [] request = broken
with_numbers (first ∷ []) request = broken
with_numbers (first ∷ second ∷ []) request = broken
with_numbers (first ∷ second ∷ label ∷ more) request = with_request first second label request

-- A line of the file.
unfoldable pub load_line : Str → Line
load_line line = with_numbers (scan_ints 3 (c_str line)) (behind_tab (c_str line))

-- The elements and the set `ids`.
pub record Pairs : Type 0 where
  pub m_elements : List LearnElement
  pub ids : List ℤ

-- `ids.insert`.
abbrev insert_id : ℤ → List ℤ → List ℤ
insert_id id ids = if contains id ids then ids else insert_sorted id ids

unfoldable pub add_line : Pairs → Line → Pairs
add_line p broken = p
add_line p skipped = p
add_line p (loaded first second le) = record {
  m_elements = p.m_elements ++ le ∷ [];
  ids = insert_id second (insert_id first p.ids);
}

-- The loop, for at most `max_line_num` lines.
unfoldable pub load_lines : ℕ → List Str → Pairs → Pairs
unfolding load_line add_line
load_lines zero lines p = p
load_lines (suc n) [] p = p
load_lines (suc n) (line ∷ lines) p = elim (load_line line) [
  | broken ↦ p
  | skipped ↦ load_lines n lines p
  | loaded first second le ↦ load_lines n lines (add_line p (loaded first second le))
]

-- The lines that `getline` returns while the stream stays good: those that a newline ends.
abbrev complete_lines : Str → Str → List Str
complete_lines line [] = []
complete_lines line (c ∷ cs) = elim (c == 10) [
  | true ↦ line ∷ complete_lines [] cs
  | false ↦ complete_lines (line ++ c ∷ []) cs
]

-- The part of `load` that reads the file; `max_line_num` may be negative.
unfoldable pub load_pairs : ℤ → Str → Pairs
unfolding load_lines
load_pairs (pos max_line_num) text =
    load_lines max_line_num (complete_lines [] text) (record { m_elements = []; ids = [] })
load_pairs (negsuc n) text = record { m_elements = []; ids = [] }

-- The documents of the elements.
abbrev pub ids_of : List LearnElement → List ℤ
ids_of [] = []
ids_of (le ∷ les) = le.doc_ids ++ ids_of les

pub record IsLoaded (p : Pairs) : Type 0 where
  pub made : All (λ le. Paired le × Labelled le) p.m_elements
  pub exact : (id : ℤ) → contains id p.ids ≡ contains id (ids_of p.m_elements)
  pub distinct : Distinct p.ids

ids_of-append : (xs ys : List LearnElement) → ids_of (xs ++ ys) ≡ ids_of xs ++ ids_of ys
ids_of-append [] ys = refl
ids_of-append (x ∷ xs) ys =
    ap (λ l. x.doc_ids ++ l) (ids_of-append xs ys)
    ∙ sym (append_assoc x.doc_ids (ids_of xs) (ids_of ys))

contains-insert_id :
    (k id : ℤ) (ids : List ℤ) → contains k (insert_id id ids) ≡ (same k id || contains k ids)
contains-insert_id k id ids = ground (arith, contains-insert_sorted k id ids, same_iff k id)

insert_id-Distinct : (id : ℤ) (ids : List ℤ) → Distinct ids → Distinct (insert_id id ids)
insert_id-Distinct id ids d = elim (Bool-cases (contains id ids)) [
  | inl old ↦ rw old d
  | inr new ↦ rw new (insert_sorted-Distinct id ids new d)
]

label_of :
    (label : ℤ) (negative : Bool)
    → label ≡ (if negative then negsuc 0 else pos 1)
    → (label ≡ pos 1) ⊎ (label ≡ negsuc 0)
label_of label true h = inr h
label_of label false h = inl h

with_request-element :
    (first second label : ℤ) (request : Option Str) {f s : ℤ} {le : LearnElement}
    → with_request first second label request ≡ loaded f s le
    → (le.doc_ids ≡ f ∷ s ∷ []) × Labelled le
with_request-element first second label none h = cc
with_request-element first second label (some []) h = cc
with_request-element first second label (some (c ∷ cs)) {f} {s} {le} h =
    let made = element_of first second label (c ∷ cs) in
    let kept : made.label ≡ le.label = ground (arith, h) in
    (
      ground (arith, h),
      subst (λ z. (z ≡ pos 1) ⊎ (z ≡ negsuc 0)) kept
          (label_of made.label (same label (pos 0)) refl),
    )

add_line-IsLoaded :
    (p : Pairs) (first second : ℤ) (le : LearnElement)
    → le.doc_ids ≡ first ∷ second ∷ []
    → Labelled le
    → IsLoaded p
    → IsLoaded (add_line p (loaded first second le))
unfolding add_line
add_line-IsLoaded p first second le ids label v = record {
  made =
      All-append (λ le. Paired le × Labelled le) p.m_elements (le ∷ []) v.made
        ((ap length ids, label), tt);
  exact = λ id. ground (
    arith,
    contains-insert_id id second (insert_id first p.ids),
    contains-insert_id id first p.ids,
    v.exact id,
    ids_of-append p.m_elements (le ∷ []),
    contains-append id (ids_of p.m_elements) (le.doc_ids ++ []),
    ids,
  );
  distinct =
      insert_id-Distinct second (insert_id first p.ids) (insert_id-Distinct first p.ids v.distinct);
}

load_line-element :
    (line : Str) {f s : ℤ} {le : LearnElement}
    → load_line line ≡ loaded f s le
    → (le.doc_ids ≡ f ∷ s ∷ []) × Labelled le
unfolding load_line
load_line-element line {f} {s} {le} h =
    by_numbers (scan_ints 3 (c_str line)) (behind_tab (c_str line)) h
  where
    by_numbers :
        (numbers : List ℤ) (request : Option Str)
        → with_numbers numbers request ≡ loaded f s le
        → (le.doc_ids ≡ f ∷ s ∷ []) × Labelled le
    by_numbers [] request h = cc
    by_numbers (x ∷ []) request h = cc
    by_numbers (x ∷ y ∷ []) request h = cc
    by_numbers (x ∷ y ∷ z ∷ more) request h = with_request-element x y z request h

load_lines-IsLoaded :
    (n : ℕ) (lines : List Str) (p : Pairs) → IsLoaded p → IsLoaded (load_lines n lines p)
unfolding load_lines
load_lines-IsLoaded zero lines p v = v
load_lines-IsLoaded (suc n) [] p v = v
load_lines-IsLoaded (suc n) (line ∷ lines) p v =
    by_line (load_line line) refl (λ q w. load_lines-IsLoaded n lines q w)
  where
    by_line :
        (l : Line)
        → load_line line ≡ l
        → ((q : Pairs) → IsLoaded q → IsLoaded (load_lines n lines q))
        → IsLoaded (elim l [
          | broken ↦ p
          | skipped ↦ load_lines n lines p
          | loaded first second le ↦ load_lines n lines (add_line p (loaded first second le))
        ])
    by_line broken e rest = v
    by_line skipped e rest = rest p v
    by_line (loaded first second le) e rest =
        let (ids, label) = load_line-element line e in
        rest (add_line p (loaded first second le)) (add_line-IsLoaded p first second le ids label v)

-- For every file and every bound on the lines: each element that is read has two documents and the
-- label 1 or -1, and the set of the documents to load holds exactly the documents of the elements,
-- each once.
pub load_pairs-IsLoaded : (max_line_num : ℤ) (text : Str) → IsLoaded (load_pairs max_line_num text)
unfolding load_pairs
load_pairs-IsLoaded (pos n) text =
    load_lines-IsLoaded n (complete_lines [] text) (record { m_elements = []; ids = [] })
      (record { made = tt; exact = λ id. refl; distinct = tt })
load_pairs-IsLoaded (negsuc n) text = record { made = tt; exact = λ id. refl; distinct = tt }
