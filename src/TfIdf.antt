-- ===== src/TfIdf.antt =====
-- include/wookie/tfidf.hpp: counts of words, and in how many documents a word occurs. A `size_t` is
-- a number below 2^64, and its arithmetic wraps; `double` is a parameter.
pub mod Counts
pub mod Frequency
mod Tests
use wookie.Split.{Locale}
use wookie.Base.{
  ℕ, ◌+◌, ◌-◌, ◌%◌, ◌^◌, min, Bool, none, some, List, [], ◌∷◌, map, ltb, if◌then◌else◌, length,
  take, Str, nat_ord, str_ord, Map, find, modify, assign, contains, insert_sorted, ℤ, pos, negsuc,
}

abbrev pub size_mod : ℕ
size_mod = 2 ^ 64

-- `int` to `size_t`, and `size_t` to `int` by its low 32 bits.
abbrev pub size_of_int : ℤ → ℕ
size_of_int (pos n) = n
size_of_int (negsuc n) = size_mod - (n + 1)

abbrev pub int_of_size : ℕ → ℤ
int_of_size n =
    let low = n % 2 ^ 32 in if ltb low (2 ^ 31) then pos low else negsuc (2 ^ 32 - low - 1)

abbrev pub add_size : ℕ → ℕ → ℕ
add_size a b = (a + b) % size_mod

-- `tf`.
pub record Tf : Type 0 where
  pub words : Map Str ℕ
  pub total_words : ℕ

abbrev pub empty_tf : Tf
empty_tf = record { words = []; total_words = 0 }

-- `tf::feed_word`.
pub feed_word : Tf → Str → ℤ → Tf
feed_word t word num = elim (find word t.words) [
  | none ↦ record {
    words = assign word (size_of_int num) t.words;
    total_words = add_size t.total_words (size_of_int num);
  }
  | some n ↦ record {
    words = modify word (λ m. add_size m (size_of_int num)) t.words;
    total_words = add_size t.total_words (size_of_int num);
  }
]

-- `tf::count` and `tf::word_count`.
pub count : Tf → Str → ℕ
count t word = elim (find word t.words) [ none ↦ 0 | some n ↦ n ]

pub word_count : Tf → ℕ
word_count t = length t.words

-- `tfidf`: the set of words of the present document is an ascending list.
pub record TfIdf : Type 0 where
  pub df : Tf
  pub unique_words : List Str

abbrev pub empty_tfidf : TfIdf
empty_tfidf = record { df = empty_tf; unique_words = [] }

pub merge_words : Tf → List (Str × ℕ) → Tf
merge_words t [] = t
merge_words t ((word, n) ∷ ws) = merge_words (feed_word t word (int_of_size n)) ws

-- `tfidf::merge`: a count is passed as an `int`.
pub merge : TfIdf → TfIdf → TfIdf
unfolding merge_words
merge t other = record t { df = merge_words t.df other.df.words }

-- `tfidf::feed_word_for_one_file`: `std::set::insert`.
pub feed_word_for_one_file : TfIdf → Str → TfIdf
feed_word_for_one_file t word =
    if contains word t.unique_words
    then t
    else record t { unique_words = insert_sorted word t.unique_words }

pub collect : Tf → List Str → Tf
collect t [] = t
collect t (word ∷ ws) = collect (feed_word t word (pos 1)) ws

-- `tfidf::update_collected_df`.
pub update_collected_df : TfIdf → TfIdf
unfolding collect
update_collected_df t = record { df = collect t.df t.unique_words; unique_words = [] }

-- `parser::update_tfidf` of include/wookie/parser.hpp: the lower-case words of a document are fed to
-- `m_tfidf` as one document, and to `tf`.
pub feed_tokens : TfIdf → Tf → List Str → TfIdf × Tf
feed_tokens t tf [] = (t, tf)
feed_tokens t tf (token ∷ tokens) =
    feed_tokens (feed_word_for_one_file t token) (feed_word tf token (pos 1)) tokens

pub update_tfidf : Locale → TfIdf → Str → Tf → TfIdf × Tf
unfolding feed_tokens
update_tfidf loc m_tfidf text tf =
    let (t, tf') = feed_tokens m_tfidf tf (map loc.to_lower (loc.words text)) in
    (update_collected_df t, tf')

-- `double`, with what the code does to it.
pub record Double : Type 1 where
  pub D : Type 0
  pub of_size : ℕ → D
  pub add : D → D → D
  pub mul : D → D → D
  pub div : D → D → D
  pub ge : D → D → Bool

module _ (d : Double) where
  open d use {D, of_size, add, div, ge}

  -- `tf::freq`.
  pub freq : Tf → Str → Bool → D
  unfolding count word_count
  freq t word lsmooth =
      let up = of_size (count t word) in
      let down = of_size t.total_words in
      if lsmooth then div (add up (of_size 1)) (add down (of_size (word_count t))) else div up down

  pub record WordInfo : Type 0 where
    pub word : Str
    pub frequency : D

  -- `word_info::operator()`.
  pub before : WordInfo → WordInfo → Bool
  before f s = ge f.frequency s.frequency

  pub word_infos : Tf → List (Str × ℕ) → List WordInfo
  unfolding count
  word_infos df [] = []
  word_infos df ((word, n) ∷ ws) =
      record { word = word; frequency = div (of_size n) (of_size (count df word)) }
      ∷ word_infos df ws

  -- `tfidf::top`. `std::sort` is an argument: `before` is reflexive, so it is no strict weak order,
  -- and the standard says nothing of what `std::sort` then does.
  pub top :
      ((WordInfo → WordInfo → Bool) → List WordInfo → List WordInfo)
      → TfIdf
      → Tf
      → ℕ
      → List WordInfo
  unfolding word_infos before
  top sort_by t tf num =
      let wis = sort_by before (word_infos t.df tf.words) in take (min num (length wis)) wis
