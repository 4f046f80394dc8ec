-- ===== src/Operators/Scan.antt =====
-- `find_result::operators_found` and `find_result::prepare`: quoted parts of a request.
pub mod Quotes
pub mod Rest
use wookie.Base.{
  ℕ, ◌+◌, ◌-◌, Option, none, some, List, [], ◌∷◌, ◌++◌, Str, ◌==◌, leb, if◌then◌else◌, length, take,
  drop,
}

-- The fields of `operators_found`. The value -1 of `q1` is `none`; `pos`, which starts at -1 and is
-- incremented before each character, is the index of the next character here, `next`. `q2` is set
-- and reset within one call, and is not kept.
pub record OperatorsFound : Type 0 where
  pub q1 : Option ℕ
  pub next : ℕ
  pub quotes : List (ℕ × ℕ)
  pub negative : List ℕ

abbrev pub operators_found : OperatorsFound
operators_found = record { q1 = none; next = 0; quotes = []; negative = [] }

-- `operators_found::operator()`.
pub see : OperatorsFound → ℕ → OperatorsFound
see s ch =
    if ch == b'"'
    then elim s.q1 [
      | none ↦ record s { q1 = some (s.next + 1); next = s.next + 1 }
      | some q1 ↦ record s { q1 = none; next = s.next + 1; quotes = s.quotes ++ (q1, s.next) ∷ [] }
    ]
    else if ch == b'-'
    then record s { next = s.next + 1; negative = s.negative ++ s.next ∷ [] }
    else record s { next = s.next + 1 }

-- `std::for_each` over the request.
pub scan : OperatorsFound → Str → OperatorsFound
scan s [] = s
scan s (ch ∷ text) = scan (see s ch) text

-- `std::string::substr` and `std::string::replace(pos, len, "")`: both throw `std::out_of_range`,
-- `none` here, if `pos` is past the end.
pub substr : Str → ℕ → ℕ → Option Str
substr s pos len = if leb pos (length s) then some (take len (drop pos s)) else none

pub remove : Str → ℕ → ℕ → Option Str
remove s pos len = if leb pos (length s) then some (take pos s ++ drop (pos + len) s) else none

-- `find_request`, as `prepare` returns it: the texts of the quotes, and the rest of the request.
pub record FindRequest : Type 0 where
  pub quotes : List Str
  pub text : Str

infixl 5 ◌>>=◌
abbrev ◌>>=◌ : {A B : Type 0} → Option A → (A → Option B) → Option B
none >>= f = none
some a >>= f = f a

-- The loop of `prepare` over `scope.quotes`.
pub prepare_quotes : Str → FindRequest → List (ℕ × ℕ) → Option FindRequest
prepare_quotes text res [] = some res
prepare_quotes text res ((first, second) ∷ ops) = do
  quote ← substr text first (second - first)
  rest ← remove res.text first (second - first)
  prepare_quotes text (record { quotes = res.quotes ++ quote ∷ []; text = rest }) ops

-- `find_result::prepare`.
pub prepare : Str → Option FindRequest
unfolding substr remove prepare_quotes scan see
prepare text =
    prepare_quotes text (record { quotes = []; text = text }) (scan operators_found text).quotes
