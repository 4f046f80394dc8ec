-- ===== src/Operators/Match.antt =====
-- The phrase test of `find_result::on_result_ready`: does a document hold the tokens of a quote at
-- consecutive positions?
pub mod Occurs
pub mod Phrase
use wookie.Base.{
  ℕ, ◌+◌, Bool, true, false, Option, none, some, List, [], ◌∷◌, Str, ◌==◌, str_eq, ltb,
  if◌then◌else◌, length, get_elem?, Map, ◌&&◌,
}

-- `dnet_raw_id`: the bytes of a key, compared by `memcmp`.
abbrev pub RawId : Type 0
RawId = Str

-- `find_result::quote`.
pub record Quote : Type 0 where
  pub text : Str
  pub tokens : List Str
  pub indexes : List RawId

-- `!memcmp(id, &indexes[i], sizeof(dnet_raw_id))`. An index out of bounds, undefined in the code,
-- counts as different; the loop asks for `i` below the number of tokens alone.
pub matches_at : List RawId → ℕ → RawId → Bool
matches_at indexes i id = elim (get_elem? indexes i) [ none ↦ false | some x ↦ str_eq id x ]

-- The variables `state` and `prev_pos` of the loop; -1 is `none`.
pub record Progress : Type 0 where
  pub state : ℕ
  pub prev_pos : Option ℕ

abbrev pub start : Progress
start = record { state = 0; prev_pos = none }

-- The first `if` of the loop's body, for the token `id` at position `p`.
pub advance : Quote → Progress → ℕ → RawId → Progress
unfolding matches_at
advance q s p id =
    if ltb s.state (length q.tokens)
    then if matches_at q.indexes s.state id
      then elim s.prev_pos [
        | none ↦ record { state = s.state + 1; prev_pos = some p }
        | some prev ↦
            if p == prev + 1
            then record { state = s.state + 1; prev_pos = some (prev + 1) }
            else start
      ]
      else if matches_at q.indexes 0 id
      then record { state = 1; prev_pos = some p }
      else start
    else s

-- The loop over the position map: `quote_ok` at its end.
pub quote_loop : Quote → Progress → Map ℕ RawId → Bool
quote_loop q s [] = false
quote_loop q s ((p, id) ∷ pos) =
    let s' = advance q s p id in
    let rest = quote_loop q s' pos in if s'.state == length q.tokens then true else rest

pub quote_ok : Quote → Map ℕ RawId → Bool
quote_ok q pos = quote_loop q start pos

-- `all_quotes_ok`.
unfoldable pub all_quotes_ok : List Quote → Map ℕ RawId → Bool
all_quotes_ok [] pos = true
all_quotes_ok (q ∷ qs) pos = quote_ok q pos && all_quotes_ok qs pos
