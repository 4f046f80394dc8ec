-- ===== src/Recovery.antt =====
-- processors/recovery.cpp: the handler that pushes every url of a list to a processor, over several
-- connections. The callbacks that are awaited are a list, and one of them at a time is run.
pub mod Sound
pub mod Progress
pub mod Stalled
pub mod Work
pub mod Finish
mod Tests
use wookie.Base.{
  ℕ, ◌≡◌, zero, suc, ◌==◌, ◌+◌, Bool, Option, none, some, List, [], ◌∷◌, ◌++◌, if◌then◌else◌, ltb,
  length, Str,
}

-- A callback that is awaited: of a connection, for a url, of the read or of the push.
pub data Phase : Type 0 where
  reading pushing : Phase

pub record Awaited : Type 0 where
  pub processor : ℕ
  pub url : Str
  pub phase : Phase

-- `recovery_handler`, and what it did to the response. A connection is known by a number. The
-- vector `urls` is kept with its back first.
pub record RecoveryHandler : Type 0 where
  pub processors : List ℕ
  pub urls : List Str
  pub awaited : List Awaited
  pub headers : Option (ℕ × ℕ)
  pub written : List ℕ
  pub closed : ℕ

abbrev pub erase_processor : ℕ → List ℕ → List ℕ
erase_processor p [] = []
erase_processor p (q ∷ qs) = if p == q then qs else q ∷ erase_processor p qs

-- `finish_processor`.
pub finish_processor : RecoveryHandler → ℕ → RecoveryHandler
finish_processor s p = elim (erase_processor p s.processors) [
  | [] ↦ record s { processors = []; closed = s.closed + 1 }
  | q ∷ qs ↦ record s { processors = q ∷ qs }
]

-- `process_next`.
pub process_next : RecoveryHandler → ℕ → RecoveryHandler
unfolding finish_processor
process_next s p = elim s.urls [
  | [] ↦ finish_processor s p
  | url ∷ urls ↦ record s {
    urls = urls;
    awaited = record { processor = p; url = url; phase = reading } ∷ s.awaited;
  }
]

-- The callback of the read, with the awaited callbacks before and behind it: the data is pushed, or
-- the error is logged.
pub on_read : RecoveryHandler → List Awaited → ℕ → Str → List Awaited → Bool → RecoveryHandler
on_read s before p url behind failed =
    if failed then record s { awaited = before ++ behind } else record s {
      awaited = before ++ record { processor = p; url = url; phase = pushing } ∷ behind;
    }

-- The callback of the push: a byte to the user, and the next url.
pub on_pushed : RecoveryHandler → List Awaited → ℕ → List Awaited → Bool → RecoveryHandler
unfolding process_next
on_pushed s before p behind failed =
    process_next
      (record s {
        awaited = before ++ behind;
        written = s.written ++ (if failed then b'f' else b's') ∷ [];
      })
      p

pub process_all : RecoveryHandler → List ℕ → RecoveryHandler
process_all s [] = s
process_all s (p ∷ ps) = process_all (process_next s p) ps

-- The connections, numbered.
abbrev pub connections : ℕ → List ℕ
connections zero = []
connections (suc n) = n ∷ connections n

abbrev pub handler : RecoveryHandler
handler = record {
  processors = [];
  urls = [];
  awaited = [];
  headers = none;
  written = [];
  closed = 0;
}

-- `on_request`, with the callback of `find`: the query's `processor` and `count`, whether all
-- connections were made, and the urls found, if there was no error. The loop at the end runs over
-- the vector from which `process_next` erases a connection when no url is left, which is undefined
-- in the code: it is modelled for at least as many urls as connections.
pub on_request : Option Str → Option ℕ → Bool → Option (List Str) → RecoveryHandler
unfolding process_all
on_request none count connected found = record handler { headers = some (400, 0); closed = 1 }
on_request (some name) count connected found =
    let n : ℕ = elim count [ none ↦ 1 | some k ↦ k ] in
    if ltb n 1
    then record handler { headers = some (400, 0); closed = 1 }
    else if connected
    then elim found [
      | none ↦ record handler { processors = connections n }
      | some urls ↦
          process_all
            (record handler {
              processors = connections n;
              urls = urls;
              headers = some (200, length urls);
            })
            (connections n)
    ]
    else record handler { headers = some (500, 0); closed = 1 }

-- One callback is run.
pub data Step (s : RecoveryHandler) : RecoveryHandler → Type 0 where
  read :
      (before : List Awaited) (p : ℕ) (url : Str) (behind : List Awaited) (failed : Bool)
      → s.awaited ≡ before ++ record { processor = p; url = url; phase = reading } ∷ behind
      → Step s (on_read s before p url behind failed)
  pushed :
      (before : List Awaited) (p : ℕ) (url : Str) (behind : List Awaited) (failed : Bool)
      → s.awaited ≡ before ++ record { processor = p; url = url; phase = pushing } ∷ behind
      → Step s (on_pushed s before p behind failed)

pub data Reach (s : RecoveryHandler) : RecoveryHandler → Type 0 where
  here : Reach s s
  next : {t r : RecoveryHandler} → Reach s t → Step t r → Reach s r
