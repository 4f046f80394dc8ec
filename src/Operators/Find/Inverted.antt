-- ===== src/Operators/Find/Inverted.antt =====
-- The map from position to token id that `on_result_ready` makes of a document's index data.
use wookie.Base.{
  ℕ, zero, suc, ◌+◌, ◌<◌, ◌≤◌, ◌≡◌, refl, sym, ap, subst, ◌⊎◌, ◌∙◌, false, Option, none, some, List,
  [], ◌∷◌, arith, if◌then◌else◌, length, get_elem?, Str, nat_ord, str_ord, str_eq, same_iff,
  str_eq_iff, Map, find, insert, Ascending, find-insert, insert-Ascending, contains, All, ok,
  Option-cases, inl, inr, ◌^◌,
}
use wookie.MsgPack.{Codec, RoundTrips}
use wookie.Documents.{Time, IndexData, pack_index_data}
use wookie.Documents.RoundTrip.{FitsTime, unpack_index_data-pack_index_data}
use wookie.Split.Positions.{positions_from, nonempty}
use wookie.Splitter.{convert}
use wookie.Storage.{RawId}
use wookie.Operators.Find.{insert_positions, insert_indexes}

-- What a position shows: the id of its word, if the word is one of `ts`.
abbrev pub shown : (Str → RawId) → List Str → Option Str → Option RawId
shown id ts none = none
shown id ts (some w) = if contains w ts then some (id w) else none

-- The first of two values.
abbrev pub or : Option RawId → Option RawId → Option RawId
or none o = o
or (some x) o = some x

positions_from_later :
    (n k : ℕ) (t : Str) (ws : List Str) → k < n → contains k (positions_from n t ws) ≡ false
positions_from_later n k t [] h = refl
positions_from_later n k t (w ∷ ws) h =
    ground (arith, positions_from_later (n + 1) k t ws (omega arith), same_iff k n)

contains-positions_from :
    (n i : ℕ) (t : Str) (ws : List Str)
    → contains (n + i) (positions_from n t ws)
      ≡ elim (get_elem? ws i) [ none ↦ false | some w ↦ str_eq t w ]
contains-positions_from n i t [] = refl
contains-positions_from n zero t (w ∷ ws) =
    ground (arith, positions_from_later (n + 1) n t ws (omega arith), same_iff n n)
contains-positions_from n (suc i) t (w ∷ ws) =
    ground (arith, contains-positions_from (n + 1) i t ws, same_iff (n + suc i) n)

positions_below :
    (n : ℕ) (t : Str) (ws : List Str)
    → n + length ws ≤ 2 ^ 31
    → All (λ p. p < 2 ^ 31) (positions_from n t ws)
positions_below n t [] h = tt
positions_below n t (w ∷ ws) h = ground (arith, positions_below (n + 1) t ws (omega arith))

nonempty-cases : (ps : List ℕ) → ((ps ≡ []) × (nonempty ps ≡ none)) ⊎ (nonempty ps ≡ some ps)
nonempty-cases [] = inl (refl, refl)
nonempty-cases (p ∷ ps) = inr refl

module _ (c : Codec) where
  find-insert_positions :
      (p : ℕ) (id : RawId) (ps : List ℕ) (pos : Map ℕ RawId)
      → find p (insert_positions c id ps pos)
        ≡ or (find p pos) (if contains p ps then some id else none)
  find-insert_positions p id [] pos = ground arith
  find-insert_positions p id (q ∷ ps) pos =
      ground (arith, find-insert_positions p id ps (insert q id pos), find-insert p q id pos)

  insert_positions-Ascending :
      (id : RawId) (ps : List ℕ) (pos : Map ℕ RawId)
      → Ascending pos
      → Ascending (insert_positions c id ps pos)
  insert_positions-Ascending id [] pos a = a
  insert_positions-Ascending id (p ∷ ps) pos a =
      insert_positions-Ascending id ps (insert p id pos) (insert-Ascending p id pos a)

  module _ (id : Str → RawId) (ts : Time) (words : List Str) where
    -- What the store returns of a document for the tokens: the data under each that it has.
    abbrev pub entry_indexes : List Str → List (RawId × c.Data)
    entry_indexes [] = []
    entry_indexes (t ∷ tokens) = elim (nonempty (positions_from 0 t words)) [
      | none ↦ entry_indexes tokens
      | some ps ↦
          (id t, convert c (record { ts = ts; key = t; positions = ps })) ∷ entry_indexes tokens
    ]

    -- `pos` shows the words of the text that are among `tokens`, behind what `old` holds.
    pub record Shows (tokens : List Str) (old pos : Map ℕ RawId) : Type 0 where
      pub found : (p : ℕ) → find p pos ≡ or (find p old) (shown id tokens (get_elem? words p))
      pub ordered : Ascending old → Ascending pos

    shown_more :
        (t : Str) (tokens : List Str) (p : ℕ) (old : Option RawId)
        → or
            (or old (if contains p (positions_from 0 t words) then some (id t) else none))
            (shown id tokens (get_elem? words p))
          ≡ or old (shown id (t ∷ tokens) (get_elem? words p))
    shown_more t tokens p old =
        subst
          (λ b.
            or (or old (if b then some (id t) else none)) (shown id tokens (get_elem? words p))
            ≡ or old (shown id (t ∷ tokens) (get_elem? words p)))
          (sym (ground (arith, contains-positions_from 0 p t words)))
          (first_shown old (get_elem? words p))
      where
        first_shown :
            (o : Option RawId) (word : Option Str)
            → or
                (or o
                  (if elim word [ none ↦ false | some w ↦ str_eq t w ] then some (id t) else none))
                (shown id tokens word)
              ≡ or o (shown id (t ∷ tokens) word)
        first_shown (some x) word = refl
        first_shown none none = refl
        first_shown none (some w) = ground (arith, str_eq_iff t w, same_iff w t)

    entry_absent :
        (t : Str) (tokens : List Str)
        → nonempty (positions_from 0 t words) ≡ none
        → entry_indexes (t ∷ tokens) ≡ entry_indexes tokens
    entry_absent t tokens missing = ground (arith, missing)

    entry_present :
        (t : Str) (tokens : List Str) {ps : List ℕ}
        → nonempty (positions_from 0 t words) ≡ some ps
        → entry_indexes (t ∷ tokens)
          ≡ (id t, convert c (record { ts = ts; key = t; positions = ps })) ∷ entry_indexes tokens
    entry_present t tokens held = ground (arith, held)

    module _ (r : RoundTrips c) (time : FitsTime ts) (short : length words ≤ 2 ^ 31) where
      insert_one :
          (t : Str) (ps : List ℕ) (indexes : List (RawId × c.Data)) (old : Map ℕ RawId)
          → All (λ p. p < 2 ^ 31) ps
          → insert_indexes c
              ((id t, convert c (record { ts = ts; key = t; positions = ps })) ∷ indexes)
              old
            ≡ insert_indexes c indexes (insert_positions c (id t) ps old)
      insert_one t ps indexes old fits =
          let d : IndexData = record { ts = ts; key = t; positions = ps } in
          rw (r (pack_index_data d), unpack_index_data-pack_index_data d time fits) refl

      pub insert_indexes-Shows :
          (tokens : List Str) (old : Map ℕ RawId)
          → (pos : Map ℕ RawId) × (insert_indexes c (entry_indexes tokens) old ≡ ok pos)
            × Shows tokens old pos
      insert_indexes-Shows [] old = (
        old,
        refl,
        record {
          found = λ p. ground (arith, Option-cases (find p old), Option-cases (get_elem? words p));
          ordered = λ a. a;
        },
      )
      insert_indexes-Shows (t ∷ tokens) old = elim (nonempty-cases (positions_from 0 t words)) [
        | inl (absent, missing) ↦
            let (pos, h, s) = insert_indexes-Shows tokens old in
            (
              pos,
              ap (λ x. insert_indexes c x old) (entry_absent t tokens missing) ∙ h,
              record {
                found = λ p.
                    s.found p
                    ∙ ground (
                      arith,
                      shown_more t tokens p (find p old),
                      absent,
                      Option-cases (find p old),
                    );
                ordered = s.ordered;
              },
            )
        | inr held ↦
            let ps = positions_from 0 t words in
            let (pos, h, s) = insert_indexes-Shows tokens (insert_positions c (id t) ps old) in
            (
              pos,
              ap (λ x. insert_indexes c x old) (entry_present t tokens held)
                  ∙ (insert_one t ps (entry_indexes tokens) old
                        (positions_below 0 t words (omega arith))
                      ∙ h),
              record {
                found = λ p.
                    s.found p
                    ∙ ap (λ o. or o (shown id tokens (get_elem? words p)))
                        (find-insert_positions p (id t) ps old)
                    ∙ shown_more t tokens p (find p old);
                ordered = λ a. s.ordered (insert_positions-Ascending (id t) ps old a);
              },
            )
      ]
