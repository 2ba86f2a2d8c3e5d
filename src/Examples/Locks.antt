-- ===== src/Examples/Locks.antt =====
-- Runs of the mutex and of the file write of src/file-lock.ts.
use xrplink.Dict
use xrplink.Dict.{Dict}
use xrplink.FileLock.{
  Call, Task, done, part, waiting, running, settled, Turn, Reached, with_lock, SystemCalls,
  atomic_write,
}
use xrplink.FileLock.Atomic.{atomic_write-get}
use xrplink.FileLock.Serial.{one_by_one, settled-eq-one_by_one}
use xrplink.FileLock.Progress.{Turns, IsFinite, next, Reached-ends}
use xrplink.Prelude.{
  inr, inl, List, Bool-cases, String, ◌≢◌, ℕ, ◌+◌, ◌≡◌, refl, true, false, none, some, [], ◌∷◌,
  nat_eq, if◌then◌else◌,
}

-- Reads the number and, after a pause, throws or writes what it read plus one.
abbrev increment : Task ℕ
increment =
    part (λ s. s) (λ s. if nat_eq s 7 then done false else part (λ t. s + 1) (λ t. done true))

step-IsFinite :
    (s : ℕ) → IsFinite (if nat_eq s 7 then done false else part (λ t. s + 1) (λ t. done true))
step-IsFinite s = elim (Bool-cases (nat_eq s 7)) [
  | inl e ↦ rw e IsFinite.at_once
  | inr e ↦ rw e (IsFinite.after_part (λ t. IsFinite.at_once))
]

increment-IsFinite : IsFinite increment
increment-IsFinite = IsFinite.after_part step-IsFinite

abbrev failing : Task ℕ
failing = part (λ s. s + 2) (λ s. done false)

-- The second call comes while the first one is at its pause.
paused : Reached 5 (failing ∷ []) 7 (running (done false) ∷ [])
unfolding with_lock
paused =
    Reached.turned (Reached.turned (Reached.called Reached.created failing) Turn.starts) Turn.works

contended : Reached 5 (failing ∷ increment ∷ []) 7 (running (done false) ∷ waiting increment ∷ [])
unfolding with_lock
contended = Reached.called paused increment

ended : Reached 5 (failing ∷ increment ∷ []) 7 (settled false ∷ settled false ∷ [])
ended =
    Reached.turned
      (Reached.turned
        (Reached.turned (Reached.turned contended Turn.settles) (Turn.later Turn.starts))
        (Turn.later Turn.works))
      (Turn.later Turn.settles)

serial_example : (settled false ∷ settled false ∷ [], 7) ≡ one_by_one (failing ∷ increment ∷ []) 5
serial_example = settled-eq-one_by_one ended (refl, (refl, tt))

ends_example :
    Turns 7
      (running (done false) ∷ waiting increment ∷ [])
      (one_by_one (failing ∷ increment ∷ []) 5).1
      (one_by_one (failing ∷ increment ∷ []) 5).0
    × ((s : ℕ) (calls : List (Call ℕ))
        → Turn true 7 (running (done false) ∷ waiting increment ∷ []) s calls
        → (calls, s) ≡ next (running (done false) ∷ waiting increment ∷ []) 7)
ends_example =
    Reached-ends contended (IsFinite.after_part (λ s. IsFinite.at_once), (increment-IsFinite, tt))

abbrev full_disk : SystemCalls
full_disk = record { write_fails = some ("[", "ENOSPC"); rename_fails = none; unlink_fails = true }

other_file : ◌≢◌ {A = String} "store.json" ".1.tmp"
other_file e = cc

atomic_example :
    Dict.get
      (atomic_write full_disk ".1.tmp" "store.json" "[1]" (("store.json", "[]") ∷ [])).1
      "store.json"
    ≡ some "[]"
unfolding atomic_write Dict.get
atomic_example =
    atomic_write-get full_disk ".1.tmp" "store.json" "[1]" "store.json" (("store.json", "[]") ∷ [])
      other_file
