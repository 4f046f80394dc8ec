-- ===== src/Index/Memory.antt =====
-- A store for tests, which holds the indexes of its objects as they are.
use wookie.Base.{
  ◌≡◌, refl, ap, ap₂, ◌∙◌, true, false, inl, inr, Bool-cases, Option, none, some, Option-cases,
  List, [], ◌∷◌, map, Str, str_ord, Map, find, assign, find-assign, same, same_iff, All, contains,
  if◌then◌else◌, arith, ok, err, elliptics_error, enoent,
}
use wookie.MsgPack.{Object, Codec}
use wookie.Storage.{Session, Entry, Elliptics, transform_tokens}
use wookie.Index.{IndexStore}
use wookie.Index.History.{has_all, under, stored_entry, keys, IsAnswer, IsIndexing}

abbrev pub plain : Codec
plain = record { Data = Object; pack = λ o. o; unpack = λ o. ok o }

abbrev pub blank : Session
blank = record { groups = []; namespace = []; throws = true; cached = false; timeout = 5 }

abbrev pub Objects : Type 0
Objects = Map Str (List (Str × Object))

-- Data under some names, names, and the objects that have an index for each.
abbrev pub data_under : List Str → List (Str × Object) → List (Str × Object)
data_under [] indexes = []
data_under (t ∷ names) indexes = elim (find t indexes) [
  | none ↦ data_under names indexes
  | some bytes ↦ (t, bytes) ∷ data_under names indexes
]

abbrev pub names : Objects → List Str
names [] = []
names ((key, indexes) ∷ w) = key ∷ names w

abbrev pub pick : List Str → Str → Option (List (Str × Object)) → Objects → Objects
pick ids key none rest = rest
pick ids key (some indexes) rest = if has_all ids indexes then (key, indexes) ∷ rest else rest

abbrev pub select : List Str → Objects → List Str → Objects
select ids w [] = []
select ids w (key ∷ ks) = pick ids key (find key w) (select ids w ks)

abbrev pub returned : List Str → Str × List (Str × Object) → Entry Object
returned ids (key, indexes) = record { id = key; indexes = data_under ids indexes }

abbrev pub memory : Elliptics Object
memory = record {
  World = Objects;
  new_session = blank;
  transform = λ s t. t;
  write_data = λ s key bytes w. (w, none);
  read_data = λ s key w. err (elliptics_error enoent);
  find_all_indexes = λ s ids w. ok (map (returned ids) (select ids w (names w)));
}

abbrev pub store : IndexStore memory
store = record {
  set_indexes = λ s key indexes w. (assign key indexes w, none);
  held = λ w key. find key w;
}

transformed : (tokens : List Str) → transform_tokens plain memory blank tokens ≡ tokens
unfolding transform_tokens
transformed [] = refl
transformed (t ∷ tokens) = ap (◌∷◌ t) (transformed tokens)

same_data :
    (tokens : List Str) (indexes : List (Str × Object))
    → data_under tokens indexes ≡ under plain memory store blank tokens indexes
same_data [] indexes = refl
same_data (t ∷ tokens) indexes =
    ground (arith, same_data tokens indexes, Option-cases (find t indexes))

same_entries :
    (tokens : List Str) (objects : Objects)
    → map (returned tokens) objects ≡ map (stored_entry plain memory store blank tokens) objects
same_entries tokens [] = refl
same_entries tokens ((key, indexes) ∷ objects) =
    ap₂ ◌∷◌ (ap (λ d. record { id = key; indexes = d }) (same_data tokens indexes))
      (same_entries tokens objects)

abbrev Sound : List Str → Objects → Objects → Type 0
Sound ids w objects =
    All (λ (key, indexes). (find key w ≡ some indexes) × (has_all ids indexes ≡ true)) objects

pick-Sound :
    (ids : List Str) (w : Objects) (key : Str) (o : Option (List (Str × Object))) (rest : Objects)
    → find key w ≡ o
    → Sound ids w rest
    → Sound ids w (pick ids key o rest)
pick-Sound ids w key none rest h sound = sound
pick-Sound ids w key (some indexes) rest h sound = elim (Bool-cases (has_all ids indexes)) [
  | inl all ↦ rw all ((h, all), sound)
  | inr lacks ↦ rw lacks sound
]

select-Sound : (ids : List Str) (w : Objects) (ks : List Str) → Sound ids w (select ids w ks)
select-Sound ids w [] = tt
select-Sound ids w (key ∷ ks) =
    pick-Sound ids w key (find key w) (select ids w ks) refl (select-Sound ids w ks)

contains-names :
    (key : Str) {indexes : List (Str × Object)} (w : Objects)
    → find key w ≡ some indexes
    → contains key (names w) ≡ true
contains-names key [] h = cc
contains-names key {indexes = held} ((k, indexes) ∷ w) h =
    ground (arith, h, contains-names key {indexes = held} w)

contains-pick :
    (ids : List Str) (key k : Str) (o : Option (List (Str × Object))) (rest : Objects)
    {indexes : List (Str × Object)}
    → has_all ids indexes ≡ true
    → (same key k ≡ true → o ≡ some indexes)
    → (same key k ≡ false → contains key (keys plain memory store blank rest) ≡ true)
    → contains key (keys plain memory store blank (pick ids k o rest)) ≡ true
contains-pick ids key k none rest all here later =
    ground (arith, here, later, Bool-cases (same key k))
contains-pick ids key k (some is) rest all here later = elim (Bool-cases (same key k)) [
  | inl this ↦ ground (arith, all, here this, this)
  | inr other ↦ ground (arith, later other, other, Bool-cases (has_all ids is))
]

contains-select :
    (ids : List Str) (w : Objects) (key : Str) (ks : List Str) {indexes : List (Str × Object)}
    → find key w ≡ some indexes
    → has_all ids indexes ≡ true
    → contains key ks ≡ true
    → contains key (keys plain memory store blank (select ids w ks)) ≡ true
contains-select ids w key [] h all there = cc
contains-select ids w key (k ∷ ks) h all there =
    contains-pick ids key k (find k w) (select ids w ks) all
      (λ this. ground (arith, h, (same_iff key k).0 this))
      (λ other. contains-select ids w key ks h all (ground (arith, there, other)))

answers : (tokens : List Str) (w : Objects) → IsAnswer plain memory store blank tokens w
answers tokens w = record {
  objects = select tokens w (names w);
  sound = select-Sound tokens w (names w);
  complete =
      λ key indexes h all. contains-select tokens w key (names w) h all (contains-names key w h);
  answer =
      ap (λ ids. ok (map (returned ids) (select ids w (names w)))) (transformed tokens)
      ∙ ap ok (same_entries tokens (select tokens w (names w)));
}

pub indexing : IsIndexing plain memory store blank blank
indexing = record {
  held-write = λ key bytes w w' h k. ground (arith, h);
  held-set = λ key indexes w w' h k. ground (arith, h, find-assign k key indexes w);
  found = λ tokens w some_token. answers tokens w;
}
