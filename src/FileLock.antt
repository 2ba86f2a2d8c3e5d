-- ===== src/FileLock.antt =====
-- src/file-lock.ts: `createMutex` on the microtasks of one process, and the write by a temporary file
-- and a rename.
pub mod Serial
pub mod Atomic
pub mod Progress
use xrplink.Dict
use xrplink.Dict.{Dict}
use xrplink.Store.{Outcome, returned, threw}
use xrplink.Prelude.{
  String, Bool, true, false, Option, none, some, List, [], ◌∷◌, if◌then◌else◌, concat,
}

-- What `fn` does to the shared state: parts that run without a pause, each followed by the rest, which
-- depends on the state it found. It ends by fulfilling its promise, or by rejecting it, or it hangs: a
-- promise that it waits for is never settled.
pub data Task {ℓ} (S : Type ℓ) : Type ℓ where
  done : Bool → Task S
  hang : Task S
  part : (S → S) → (S → Task S) → Task S

-- A call of `withLock`: `fn` has not started, runs, or its promise is settled.
pub data Call {ℓ} (S : Type ℓ) : Type ℓ where
  waiting : Task S → Call S
  running : Task S → Call S
  settled : Bool → Call S

module _ {ℓ} {S : Type ℓ} where
  abbrev pub is_settled : Call S → Bool
  is_settled (waiting t) = false
  is_settled (running t) = false
  is_settled (settled ok) = true

  abbrev pub is_running : Call S → Bool
  is_running (waiting t) = false
  is_running (running t) = true
  is_running (settled ok) = false

  -- `withLock`: the call comes to the end of the chain, of which `tail` is the last promise.
  unfoldable pub with_lock : Task S → List (Call S) → List (Call S)
  with_lock t calls = concat calls (waiting t ∷ [])

-- One turn of the event loop, on calls of which the oldest waits for a promise that is settled
-- (`free`) or not. `tail.then(fn, fn)` starts a call once the promise before it is settled, whichever
-- way.
pub data Turn {ℓ} {S : Type ℓ} : Bool → S → List (Call S) → S → List (Call S) → Type ℓ where
  starts :
      {s : S} {t : Task S} {calls : List (Call S)}
      → Turn true s (waiting t ∷ calls) s (running t ∷ calls)
  works :
      {free : Bool} {s : S} {f : S → S} {rest : S → Task S} {calls : List (Call S)}
      → Turn free s (running (part f rest) ∷ calls) (f s) (running (rest s) ∷ calls)
  settles :
      {free ok : Bool} {s : S} {calls : List (Call S)}
      → Turn free s (running (done ok) ∷ calls) s (settled ok ∷ calls)
  later :
      {free : Bool} {s s' : S} {c : Call S} {calls calls' : List (Call S)}
      → Turn (is_settled c) s calls s' calls'
      → Turn free s (c ∷ calls) s' (c ∷ calls')

-- The states that a mutex reaches from `init`, with the tasks it was called with, in order.
pub data Reached {ℓ} {S : Type ℓ} (init : S) : List (Task S) → S → List (Call S) → Type ℓ where
  created : Reached init [] init []
  called :
      {tasks : List (Task S)} {s : S} {calls : List (Call S)}
      → Reached init tasks s calls
      → (t : Task S) → Reached init (concat tasks (t ∷ [])) s (with_lock t calls)
  turned :
      {tasks : List (Task S)} {s s' : S} {calls calls' : List (Call S)}
      → Reached init tasks s calls
      → Turn true s calls s' calls'
      → Reached init tasks s' calls'

-- How the three system calls go: an error of the first leaves a part of the data in the file.
pub record SystemCalls : Type 0 where
  pub write_fails : Option (String × String)
  pub rename_fails : Option String
  pub unlink_fails : Bool

abbrev cleaned : Bool → String → Dict String → Dict String
cleaned unlink_fails temp files = if unlink_fails then files else Dict.remove files temp

-- `atomicWriteFileSync`, with `temp` the path of the temporary file.
unfoldable pub atomic_write :
    SystemCalls → String → String → String → Dict String → Outcome (Unit {0}) × Dict String
atomic_write how temp path data_ files = elim how.write_fails [
  | some (begun, m) ↦ (threw m, cleaned how.unlink_fails temp (Dict.set files temp begun))
  | none ↦ elim how.rename_fails [
    | some m ↦ (threw m, cleaned how.unlink_fails temp (Dict.set files temp data_))
    | none ↦ (returned tt, Dict.set (Dict.remove (Dict.set files temp data_) temp) path data_)
  ]
]
