-- ===== src/Directories.antt =====
-- `iterate_directory` of include/wookie/dir.hpp. What `readdir64` lists is an argument.
use wookie.Base.{
  ◌==◌, ◌≡◌, refl, Bool, ◌||◌, Bool-cases, inl, inr, Option, none, some, List, [], ◌∷◌, ◌++◌,
  length, if◌then◌else◌, Str, str_ord, str_eq, Error, runtime_error,
}

-- `dirent64`: a name, and whether the type is `DT_DIR`.
pub record Dirent : Type 0 where
  pub d_name : Str
  pub is_dir : Bool

-- What a callback does: it asks for the next entry or for none, or throws.
pub data Answer : Type 0 where
  go_on stop : Answer
  throws : Error → Answer

-- `"."` and `".."`.
abbrev pub is_dots : Str → Bool
is_dots name = str_eq name (b'.' ∷ []) || str_eq name (b'.' ∷ b'.' ∷ [])

module _ {S : Type 0} (base : Str) (fn : Str → Str → S → S × Answer) where
  -- The loop, with the state that the callback changes.
  unfoldable pub read_loop : List Dirent → S → S × Option Error
  read_loop [] s = (s, none)
  read_loop (d ∷ ds) s =
      if is_dots d.d_name
      then read_loop ds s
      else if d.is_dir
      then read_loop ds s
      else let (s', answer) = fn (base ++ b'/' ∷ d.d_name) d.d_name s in
        elim answer [ go_on ↦ read_loop ds s' | stop ↦ (s', none) | throws e ↦ (s', some e) ]

  -- `iterate_directory`; `opened` is none if the directory cannot be opened.
  pub iterate_directory : Option (List Dirent) → S → S × Option Error
  unfolding read_loop
  iterate_directory opened s =
      if length base == 0
      then (s, none)
      else elim opened [ none ↦ (s, some runtime_error) | some entries ↦ read_loop entries s ]

  -- The names that the callback is called with, as long as it goes on.
  regular : List Dirent → List Str
  regular [] = []
  regular (d ∷ ds) = if is_dots d.d_name || d.is_dir then regular ds else d.d_name ∷ regular ds

  call_all : List Str → S → S × Option Error
  call_all [] s = (s, none)
  call_all (name ∷ names) s =
      let (s', answer) = fn (base ++ b'/' ∷ name) name s in
      elim answer [ go_on ↦ call_all names s' | stop ↦ (s', none) | throws e ↦ (s', some e) ]

  after_call :
      (r : S × Answer) (f g : S → S × Option Error)
      → ((s : S) → f s ≡ g s)
      → elim r.1 [ go_on ↦ f r.0 | stop ↦ (r.0, none) | throws e ↦ (r.0, some e) ]
        ≡ elim r.1 [ go_on ↦ g r.0 | stop ↦ (r.0, none) | throws e ↦ (r.0, some e) ]
  after_call (s, go_on) f g h = h s
  after_call (s, stop) f g h = refl
  after_call (s, throws e) f g h = refl

  -- The callback is called for the entries that are no directories, in order.
  read_loop-regular : (ds : List Dirent) (s : S) → read_loop ds s ≡ call_all (regular ds) s
  unfolding read_loop regular call_all
  read_loop-regular [] s = refl
  read_loop-regular (d ∷ ds) s = elim (Bool-cases (is_dots d.d_name)) [
    | inl dots ↦ rw dots (read_loop-regular ds s)
    | inr named ↦ elim (Bool-cases d.is_dir) [
      | inl dir ↦ rw (named, dir) (read_loop-regular ds s)
      | inr file ↦
          rw (named, file)
            (after_call (fn (base ++ b'/' ∷ d.d_name) d.d_name s) (read_loop ds)
              (call_all (regular ds)) (read_loop-regular ds))
    ]
  ]
