-- ===== src/CommandLine/Tests.antt =====
-- An engine that is set up for two groups.
use wookie.Base.{
  ℕ, List, Str, ◌++◌, ◌==◌, ◌∙◌, ap, All, if◌then◌else◌, ◌≡◌, refl, true, false, none, some, [],
  ◌∷◌, ok, err, out_of_range, pos, arith,
}
use wookie.Storage.{Elliptics, set_groups}
use wookie.CommandLine.{Options, Setup, configured, parse_command_line}
use wookie.CommandLine.Groups.{colon, colon_joined, IsSplit, written, parse_command_line-written}

abbrev extend : ℕ → List Str → List Str
extend c [] = (c ∷ []) ∷ []
extend c (piece ∷ pieces) = (c ∷ piece) ∷ pieces

-- A split at every colon.
abbrev split_colons : Str → List Str
split_colons [] = [] ∷ []
split_colons (c ∷ cs) =
    let pieces = split_colons cs in if c == colon then [] ∷ pieces else extend c pieces

split_one : (text : Str) → All (λ c. (c == colon) ≡ false) text → split_colons text ≡ text ∷ []
split_one [] h = refl
split_one (c ∷ cs) h = ground (arith, h.0, split_one cs h.1)

split_first :
    (text behind : Str)
    → All (λ c. (c == colon) ≡ false) text
    → split_colons (text ++ colon ∷ behind) ≡ text ∷ split_colons behind
split_first [] behind h = refl
split_first (c ∷ cs) behind h = ground (arith, h.0, split_first cs behind h.1)

pieces_between :
    (piece : Str) (pieces : List Str)
    → All (All (λ c. (c == colon) ≡ false)) (piece ∷ pieces)
    → split_colons (colon_joined piece pieces) ≡ piece ∷ pieces
unfolding colon_joined
pieces_between piece [] h = split_one piece h.0
pieces_between piece (next ∷ pieces) h =
    split_first piece (colon_joined next pieces) h.0
    ∙ ap (◌∷◌ piece) (pieces_between next pieces h.1)

splits : IsSplit split_colons
splits = record { pieces_between = pieces_between }

abbrev no_store : Elliptics ℕ
no_store = record {
  World = Unit;
  new_session = record { groups = []; namespace = []; throws = true; cached = false; timeout = 5 };
  transform = λ s name. name;
  write_data = λ s key bytes w. (w, none);
  read_data = λ s key w. err out_of_range;
  find_all_indexes = λ s indexes w. ok [];
}

abbrev stopped : Setup
stopped = record { storage = none; downloader = none }

abbrev vm : Options
vm = record {
  help = false;
  remote = some (b'r' ∷ []);
  group_string = written 12 (3 ∷ []);
  ns = b'n' ∷ [];
  url_threads_count = pos 3;
}

parse_command_line-written_example :
    parse_command_line no_store split_colons stopped (ok vm) (λ remote. true)
    ≡ ok (
      record {
        storage = some (set_groups (configured no_store vm) (pos 12 ∷ pos 3 ∷ []));
        downloader = some (pos 3);
      },
      pos 0,
    )
parse_command_line-written_example =
    parse_command_line-written no_store split_colons stopped vm (λ remote. true) (b'r' ∷ []) 12
      (3 ∷ []) splits refl refl refl refl (omega arith, (omega arith, tt))
