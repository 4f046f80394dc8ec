-- ===== src/TfIdf/Tests.antt =====
-- Counts of a few words.
use wookie.Base.{◌+◌, ◌%◌, ◌^◌, ◌≤◌, ◌<◌, ◌≡◌, [], ◌∷◌, arith, Str, nat_ord, str_ord}
use wookie.TfIdf.{count, TfIdf, merge, add_size, size_mod, size_of_int, int_of_size}
use wookie.TfIdf.Counts.{IsCounted, merge_lem}

abbrev a : Str
a = b'a' ∷ []

abbrev some_words : TfIdf
some_words = record { df = record { words = (a, 3) ∷ []; total_words = 3 }; unique_words = [] }

some_words-IsCounted : IsCounted some_words.df
some_words-IsCounted = record { ordered = (tt, tt); fits = (omega arith, tt); total = omega arith }

merge_lem_example :
    IsCounted (merge some_words some_words).df
    × ((word : Str)
        → count (merge some_words some_words).df word
          ≡ add_size
              (count some_words.df word)
              (size_of_int (int_of_size (count some_words.df word))))
    × ((word : Str)
        → count some_words.df word < 2 ^ 31
        → count (merge some_words some_words).df word
          ≡ add_size (count some_words.df word) (count some_words.df word))
    × ((word : Str)
        → 2 ^ 31 ≤ count some_words.df word
        → count some_words.df word < 2 ^ 32
        → (count (merge some_words some_words).df word + 2 ^ 32) % size_mod
          ≡ (count some_words.df word + count some_words.df word) % size_mod)
merge_lem_example = merge_lem some_words some_words some_words-IsCounted some_words-IsCounted
