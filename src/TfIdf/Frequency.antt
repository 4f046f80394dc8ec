-- ===== src/TfIdf/Frequency.antt =====
-- The document frequency of a word.
use wookie.Base.{
  ◌+◌, ◌<◌, ◌≡◌, refl, sym, subst, ◌∙◌, inl, inr, ◌||◌, List, [], ◌∷◌, map, arith, if◌then◌else◌,
  Bool-cases, length, count_if, Str, nat_ord, str_ord, same_iff, contains, Distinct, pos,
  contains-insert_sorted, insert_sorted-Distinct,
}
use wookie.Split.{Locale}
use wookie.TfIdf.{
  size_mod, add_size, Tf, empty_tf, feed_word, count, TfIdf, empty_tfidf, feed_word_for_one_file,
  collect, update_collected_df, feed_tokens, update_tfidf,
}
use wookie.TfIdf.Counts.{IsCounted, empty-IsCounted, feed_word-IsCounted, count-feed_word}

-- The lower-case words of a text.
abbrev pub lower_words : Locale → Str → List Str
lower_words loc text = map loc.to_lower (loc.words text)

-- The texts are processed one after another, each with a `tf` of its own.
pub process_texts : Locale → TfIdf → List Str → TfIdf
process_texts loc t [] = t
process_texts loc t (text ∷ texts) = process_texts loc (update_tfidf loc t text empty_tf).0 texts

count-collect :
    (t : Tf) (ws : List Str) (word : Str)
    → Distinct ws
    → count (collect t ws) word
      ≡ (if contains word ws then add_size (count t word) 1 else count t word)
unfolding collect
count-collect t [] word d = refl
count-collect t (w ∷ ws) word d = ground (
  arith,
  count-collect (feed_word t w (pos 1)) ws word d.1,
  count-feed_word t w word (pos 1) (omega arith),
  same_iff word w,
  d.0,
)

-- What the words fed for one document leave.
record Collected (t t' : TfIdf) (ws : List Str) : Type 0 where
  df_kept : t'.df ≡ t.df
  distinct : Distinct t'.unique_words
  held :
      (word : Str)
      → contains word t'.unique_words ≡ (contains word t.unique_words || contains word ws)

feed_one :
    (t : TfIdf) (w : Str)
    → Distinct t.unique_words
    → Collected t (feed_word_for_one_file t w) (w ∷ [])
unfolding feed_word_for_one_file
feed_one t w d = elim (Bool-cases (contains w t.unique_words)) [
  | inl old ↦
      rw (old, feed_word_for_one_file)
        (record {
          df_kept = refl;
          distinct = d;
          held = λ word. ground (arith, old, same_iff word w);
        })
  | inr new ↦
      rw (new, feed_word_for_one_file)
        (record {
          df_kept = refl;
          distinct = insert_sorted-Distinct w t.unique_words new d;
          held = λ word. ground (arith, contains-insert_sorted word w t.unique_words);
        })
]

feed_tokens-Collected :
    (t : TfIdf) (tf : Tf) (ws : List Str)
    → Distinct t.unique_words
    → Collected t (feed_tokens t tf ws).0 ws
unfolding feed_tokens
feed_tokens-Collected t tf [] d = record {
  df_kept = refl;
  distinct = d;
  held = λ word. ground arith;
}
feed_tokens-Collected t tf (w ∷ ws) d =
    let f = feed_one t w d in
    let g =
      feed_tokens-Collected (feed_word_for_one_file t w) (feed_word tf w (pos 1)) ws f.distinct in
    record {
      df_kept = g.df_kept ∙ f.df_kept;
      distinct = g.distinct;
      held = λ word. ground (arith, g.held word, f.held word);
    }

-- One text adds one to the count of each word that occurs in it, however often, and nothing else.
count-update_tfidf :
    (loc : Locale) (t : TfIdf) (text : Str) (tf : Tf) (word : Str)
    → t.unique_words ≡ []
    → (let t' = (update_tfidf loc t text tf).0 in
        (t'.unique_words ≡ [])
        × (count t'.df word ≡ (
            if contains word (lower_words loc text)
            then add_size (count t.df word) 1
            else count t.df word)))
unfolding update_tfidf update_collected_df
count-update_tfidf loc t text tf word e =
    let ws = lower_words loc text in
    let f = feed_tokens-Collected t tf ws (subst Distinct (sym e) tt) in
    let fed = (feed_tokens t tf ws).0 in
    (
      refl,
      ground
          (arith, count-collect fed.df fed.unique_words word f.distinct, f.held word, f.df_kept, e),
    )

count-process_texts_from :
    (loc : Locale) (t : TfIdf) (texts : List Str) (word : Str)
    → t.unique_words ≡ []
    → count t.df word + length texts < size_mod
    → count (process_texts loc t texts).df word
      ≡ count t.df word + count_if (λ text. contains word (lower_words loc text)) texts
unfolding process_texts
count-process_texts_from loc t [] word e h = omega arith
count-process_texts_from loc t (text ∷ texts) word e h =
    let (e', c) = count-update_tfidf loc t text empty_tf word e in
    let rest = count-process_texts_from loc (update_tfidf loc t text empty_tf).0 texts word e' in
    elim (Bool-cases (contains word (lower_words loc text))) [
      | inl here ↦ ground (arith, here, c, rest)
      | inr away ↦ ground (arith, away, c, rest)
    ]

-- From an empty collection, after any number of texts below 2^64, the count of every word is the
-- number of the texts that contain it in lower case.
pub count-process_texts :
    (loc : Locale) (texts : List Str) (word : Str)
    → length texts < size_mod
    → count (process_texts loc empty_tfidf texts).df word
      ≡ count_if (λ text. contains word (lower_words loc text)) texts
unfolding count
count-process_texts loc texts word h =
    ground (arith, count-process_texts_from loc empty_tfidf texts word refl)

collect-IsCounted : (t : Tf) (ws : List Str) → IsCounted t → IsCounted (collect t ws)
unfolding collect
collect-IsCounted t [] v = v
collect-IsCounted t (w ∷ ws) v =
    collect-IsCounted (feed_word t w (pos 1)) ws (feed_word-IsCounted t w (pos 1) (omega arith) v)

update_tfidf-IsCounted :
    (loc : Locale) (t : TfIdf) (text : Str) (tf : Tf)
    → t.unique_words ≡ []
    → IsCounted t.df
    → IsCounted (update_tfidf loc t text tf).0.df
unfolding update_tfidf update_collected_df
update_tfidf-IsCounted loc t text tf e v =
    let ws = lower_words loc text in
    let f = feed_tokens-Collected t tf ws (subst Distinct (sym e) tt) in
    let fed = (feed_tokens t tf ws).0 in
    collect-IsCounted fed.df fed.unique_words (subst IsCounted (sym f.df_kept) v)

process_texts-IsCounted_from :
    (loc : Locale) (t : TfIdf) (texts : List Str)
    → t.unique_words ≡ []
    → IsCounted t.df
    → IsCounted (process_texts loc t texts).df
unfolding process_texts
process_texts-IsCounted_from loc t [] e v = v
process_texts-IsCounted_from loc t (text ∷ texts) e v =
    process_texts-IsCounted_from loc (update_tfidf loc t text empty_tf).0 texts
      (count-update_tfidf loc t text empty_tf text e).0
      (update_tfidf-IsCounted loc t text empty_tf e v)

-- The counts of a collection agree with its total.
pub process_texts-IsCounted :
    (loc : Locale) (texts : List Str) → IsCounted (process_texts loc empty_tfidf texts).df
process_texts-IsCounted loc texts =
    process_texts-IsCounted_from loc empty_tfidf texts refl empty-IsCounted

pub count-empty_tf : (word : Str) → count empty_tf word ≡ 0
unfolding count
count-empty_tf word = refl
