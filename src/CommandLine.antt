-- ===== src/CommandLine.antt =====
-- `engine::parse_command_line` and `engine::run` of lib/engine.cpp: how the engine is set up. What
-- boost::program_options makes of the arguments, boost::split, and whether the remote node answers, are arguments.
pub mod Groups
mod Tests
use wookie.Storage.{Session, Elliptics, storage, set_groups, set_namespace}
use wookie.Decimal.{atoi}
use wookie.Parser.{c_str}
use wookie.Base.{
  ◌==◌, Bool, Option, none, some, List, [], ◌∷◌, map, length, if◌then◌else◌, Str, Result, ok, err,
  ℤ, pos, negsuc,
}

-- The values that `notify` stores, and which of `help` and `remote` were given.
pub record Options : Type 0 where
  pub help : Bool
  pub remote : Option Str
  pub group_string : Str
  pub ns : Str
  pub url_threads_count : ℤ

-- The members of `engine_data` that are set: the storage, which is known by its session, and the
-- number of downloaders.
pub record Setup : Type 0 where
  pub storage : Option Session
  pub downloader : Option ℤ

abbrev pub default_groups : List ℤ
default_groups = pos 1 ∷ pos 2 ∷ pos 3 ∷ []

-- `digitizer`.
pub digitizer : Str → ℤ
digitizer str = atoi (c_str str)

-- The groups, and `boost::split` at colons is an argument.
pub parse_groups : (Str → List Str) → Str → List ℤ
unfolding digitizer
parse_groups split group_string =
    if length group_string == 0 then default_groups else map digitizer (split group_string)

-- The storage with the namespace of the options, before its groups are set.
abbrev pub configured : {Data : Type 0} → Elliptics Data → Options → Session
configured e vm = if length vm.ns == 0 then storage e else set_namespace (storage e) vm.ns

module _ {Data : Type 0} (e : Elliptics Data) (split : Str → List Str) where
  -- `parse_command_line`: the engine and the value returned, or what the parse threw. `connected`
  -- says whether `add_remote` takes the address.
  pub parse_command_line : Setup → Result Options → (Str → Bool) → Result (Setup × ℤ)
  unfolding parse_groups
  parse_command_line s (err thrown) connected = err thrown
  parse_command_line s (ok vm) connected = elim vm.remote [
    | none ↦ ok (s, negsuc 0)
    | some remote ↦
        if vm.help
        then ok (s, negsuc 0)
        else if connected (c_str remote)
        then ok (
          record {
            storage = some (set_groups (configured e vm) (parse_groups split vm.group_string));
            downloader = some vm.url_threads_count;
          },
          pos 0,
        )
        else ok (record s { storage = some (configured e vm) }, negsuc 0)
  ]

-- `engine::run` dereferences the downloader, so it must not be called before a parse that returned
-- 0; it returns when the loop of the downloaders ends.
pub run_engine : Setup → Option ℤ
run_engine s = elim s.downloader [ none ↦ none | some threads ↦ some (pos 0) ]
