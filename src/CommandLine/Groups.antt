-- ===== src/CommandLine/Groups.antt =====
-- The groups of the storage are those of the command line.
use wookie.Base.{
  ℕ, ◌==◌, ◌^◌, ◌≡◌, ◌<◌, refl, ap, ap₂, ◌∙◌, Bool, true, false, some, List, [], ◌∷◌, ◌++◌, map,
  length, length-append, Str, ok, All, pos, arith,
}
use wookie.Storage.{Elliptics, set_groups}
use wookie.Decimal.{is_digit, atoi, lexical_cast}
use wookie.Decimal.Digits.{atoi-lexical_cast, lexical_cast-All, length-lexical_cast}
use wookie.Parser.{c_str}
use wookie.CommandLine.{Options, Setup, digitizer, parse_groups, configured, parse_command_line}

abbrev pub colon : ℕ
colon = b':'

-- Pieces with colons between them, at least one.
unfoldable pub colon_joined : Str → List Str → Str
colon_joined piece [] = piece
colon_joined piece (next ∷ pieces) = piece ++ colon ∷ colon_joined next pieces

-- What boost documents of a split at every colon: the pieces between the colons.
pub record IsSplit (split : Str → List Str) : Type 0 where
  pub pieces_between :
      (piece : Str) (pieces : List Str)
      → All (All (λ c. (c == colon) ≡ false)) (piece ∷ pieces)
      → split (colon_joined piece pieces) ≡ piece ∷ pieces

-- Groups as they are written on the command line, at least one.
unfoldable pub written : ℕ → List ℕ → Str
unfolding colon_joined
written group groups = colon_joined (lexical_cast group) (map lexical_cast groups)

Digits : Str → Type 0
Digits text = All (λ c. is_digit c ≡ true) text

no_colon : (text : Str) → Digits text → All (λ c. (c == colon) ≡ false) text
unfolding Digits
no_colon [] h = tt
no_colon (c ∷ cs) h = (ground (arith, h.0), no_colon cs h.1)

no_colons : (groups : List ℕ) → All (All (λ c. (c == colon) ≡ false)) (map lexical_cast groups)
unfolding Digits
no_colons [] = tt
no_colons (group ∷ groups) =
    (no_colon (lexical_cast group) (lexical_cast-All group), no_colons groups)

c_str-Digits : (text : Str) → Digits text → c_str text ≡ text
unfolding Digits
c_str-Digits [] h = refl
c_str-Digits (c ∷ cs) h = ground (arith, h.0, c_str-Digits cs h.1)

read_pieces :
    (groups : List ℕ)
    → All (λ group. group < 2 ^ 31) groups
    → map digitizer (map lexical_cast groups) ≡ map pos groups
unfolding Digits digitizer
read_pieces [] small = refl
read_pieces (group ∷ groups) small =
    ap₂ ◌∷◌
      (ap atoi (c_str-Digits (lexical_cast group) (lexical_cast-All group))
        ∙ atoi-lexical_cast group (omega (arith, small.0)))
      (read_pieces groups small.1)

length-colon_joined :
    (piece : Str) (pieces : List Str)
    → 0 < length piece
    → (length (colon_joined piece pieces) == 0) ≡ false
unfolding colon_joined
length-colon_joined piece [] some_char = ground arith
length-colon_joined piece (next ∷ pieces) some_char =
    ground (arith, length-append piece (colon ∷ colon_joined next pieces))

parse_groups-written :
    (split : Str → List Str)
    → IsSplit split
    → (group : ℕ) (groups : List ℕ) → All (λ group. group < 2 ^ 31) (group ∷ groups)
    → parse_groups split (written group groups) ≡ map pos (group ∷ groups)
unfolding parse_groups written
parse_groups-written split splits group groups small =
    rw
      (length-colon_joined (lexical_cast group) (map lexical_cast groups)
        (length-lexical_cast group))
      (ap (map digitizer) (
          splits.pieces_between (lexical_cast group) (map lexical_cast groups)
            (no_colons (group ∷ groups)))
        ∙ read_pieces (group ∷ groups) small)

-- When the options name a remote node, which takes the connection, and not `help`, and their groups
-- are numbers of an `int` in decimal with colons between them, where boost splits them, then `parse_command_line` returns 0,
-- and the engine has as many downloaders as the options say and a storage for these groups, with
-- the namespace of the options if it is not empty.
pub parse_command_line-written :
    {Data : Type 0} (e : Elliptics Data) (split : Str → List Str) (s : Setup) (vm : Options)
    (connected : Str → Bool) (remote : Str) (group : ℕ) (groups : List ℕ)
    → IsSplit split
    → vm.remote ≡ some remote
    → vm.help ≡ false
    → connected (c_str remote) ≡ true
    → vm.group_string ≡ written group groups
    → All (λ group. group < 2 ^ 31) (group ∷ groups)
    → parse_command_line e split s (ok vm) connected
      ≡ ok (
        record {
          storage = some (set_groups (configured e vm) (map pos (group ∷ groups)));
          downloader = some vm.url_threads_count;
        },
        pos 0,
      )
unfolding parse_command_line
parse_command_line-written e split s vm connected remote group groups splits named quiet answers
      text small =
    rw named (
      rw quiet (
        rw answers (
          ap
            (λ g. ok (
              record {
                storage = some (set_groups (configured e vm) g);
                downloader = some vm.url_threads_count;
              },
              pos 0,
            ))
            (ap (parse_groups split) text ∙ parse_groups-written split splits group groups small))))
