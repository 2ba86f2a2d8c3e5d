-- ===== src/FileLock/Progress.antt =====
-- src/file-lock.ts: every call under a mutex comes to its end, if the tasks do.
use mathlib.Core.Path.{subst}
use xrplink.FileLock.{
  Task, done, hang, part, Call, waiting, running, settled, Turn, Reached, with_lock, is_settled,
}
use xrplink.FileLock.Serial.{
  run_task, finish_calls, one_by_one, Reached-finish_calls, IsQueue, no_turn, behind,
  Reached-IsQueue,
}
use xrplink.Prelude.{◌≡◌, refl, ap, All, concat, Bool, true, List, [], ◌∷◌}

-- Turns one after another, with no new call.
pub data Turns {ℓ} {S : Type ℓ} : S → List (Call S) → S → List (Call S) → Type ℓ where
  stays : {s : S} {calls : List (Call S)} → Turns s calls s calls
  goes :
      {s s' s'' : S} {calls calls' calls'' : List (Call S)}
      → Turn true s calls s' calls'
      → Turns s' calls' s'' calls''
      → Turns s calls s'' calls''

-- The task comes to its end, whatever state its parts find.
pub data IsFinite {ℓ} {S : Type ℓ} : Task S → Type ℓ where
  at_once : {ok : Bool} → IsFinite (done ok)
  after_part :
      {f : S → S} {rest : S → Task S} → ((s : S) → IsFinite (rest s)) → IsFinite (part f rest)

All-snoc {ℓ} :
    {A : Type ℓ} (P : A → Type ℓ) (xs : List A) (x : A)
    → All P (concat xs (x ∷ []))
    → All P xs × P x
All-snoc P [] x h = (tt, h.0)
All-snoc P (y ∷ xs) x h = let (k, l) = All-snoc P xs x h.1 in ((h.0, k), l)

snoc-All {ℓ} :
    {A : Type ℓ} (P : A → Type ℓ) (xs : List A) (x : A)
    → All P xs
    → P x
    → All P (concat xs (x ∷ []))
snoc-All P [] x h k = (k, tt)
snoc-All P (y ∷ xs) x h k = (h.0, snoc-All P xs x h.1 k)

module _ {ℓ} {S : Type ℓ} where
  before :
      {s s' s'' : S} {calls calls' calls'' : List (Call S)}
      → Turns s calls s' calls'
      → Turns s' calls' s'' calls''
      → Turns s calls s'' calls''
  before Turns.stays more = more
  before (Turns.goes turn turns) more = Turns.goes turn (before turns more)

  behind_settled :
      (ok : Bool) {s s' : S} {calls calls' : List (Call S)}
      → Turns s calls s' calls'
      → Turns s (settled ok ∷ calls) s' (settled ok ∷ calls')
  behind_settled ok Turns.stays = Turns.stays
  behind_settled ok (Turns.goes turn turns) = Turns.goes (Turn.later turn) (behind_settled ok turns)

  abbrev IsFiniteCall : Call S → Type ℓ
  IsFiniteCall (waiting t) = IsFinite t
  IsFiniteCall (running t) = IsFinite t
  IsFiniteCall (settled ok) = Unit

  rest-IsFinite :
      {f : S → S} {rest : S → Task S} → IsFinite (part f rest) → (s : S) → IsFinite (rest s)
  rest-IsFinite (IsFinite.after_part h) = h

  turn-IsFiniteCall :
      {free : Bool} {s s' : S} {calls calls' : List (Call S)}
      → Turn free s calls s' calls'
      → All IsFiniteCall calls
      → All IsFiniteCall calls'
  turn-IsFiniteCall Turn.starts h = h
  turn-IsFiniteCall (Turn.works {s}) h = (rest-IsFinite h.0 s, h.1)
  turn-IsFiniteCall Turn.settles h = (tt, h.1)
  turn-IsFiniteCall (Turn.later turn) h = (h.0, turn-IsFiniteCall turn h.1)

  Reached-IsFiniteCall :
      {init : S} {tasks : List (Task S)} {s : S} {calls : List (Call S)}
      → Reached init tasks s calls
      → All IsFinite tasks
      → All IsFiniteCall calls
  unfolding with_lock
  Reached-IsFiniteCall Reached.created h = tt
  Reached-IsFiniteCall (Reached.called {tasks} {calls} r t) h =
      let (k, l) = All-snoc IsFinite tasks t h in
      snoc-All IsFiniteCall calls (waiting t) (Reached-IsFiniteCall r k) l
  Reached-IsFiniteCall (Reached.turned r turn) h = turn-IsFiniteCall turn (Reached-IsFiniteCall r h)

  -- The one turn there is.
  unfoldable pub next : List (Call S) → S → List (Call S) × S
  next [] s = ([], s)
  next (waiting t ∷ calls) s = (running t ∷ calls, s)
  next (running (done ok) ∷ calls) s = (settled ok ∷ calls, s)
  next (running hang ∷ calls) s = (running hang ∷ calls, s)
  next (running (part f rest) ∷ calls) s = (running (rest s) ∷ calls, f s)
  next (settled ok ∷ calls) s = let (rest, s') = next calls s in (settled ok ∷ rest, s')

  next-later :
      (c : Call S) (free : Bool) (s s' : S) (calls calls' : List (Call S))
      → Turn (is_settled c) s calls s' calls'
      → IsQueue free (c ∷ calls)
      → (calls', s') ≡ next calls s
      → (c ∷ calls', s') ≡ next (c ∷ calls) s
  unfolding next
  next-later (waiting t) free s s' calls calls' turn q ih = absurd (no_turn turn refl q)
  next-later (running t) free s s' calls calls' turn q ih = absurd (no_turn turn refl q.1)
  next-later (settled ok) free s s' calls calls' turn q ih = ap (λ x. (settled ok ∷ x.0, x.1)) ih

  turn-next :
      {free : Bool} {s s' : S} {calls calls' : List (Call S)}
      → Turn free s calls s' calls'
      → IsQueue free calls
      → (calls', s') ≡ next calls s
  unfolding next
  turn-next Turn.starts q = refl
  turn-next Turn.works q = refl
  turn-next Turn.settles q = refl
  turn-next (Turn.later {free} {s} {s'} {c} {calls} {calls'} turn) q =
      next-later c free s s' calls calls' turn q (turn-next turn (behind c free calls q))

  task_ends :
      {t : Task S} (e : IsFinite t) (s : S) (calls : List (Call S))
      → Turns s (running t ∷ calls) (run_task t s).1 (settled (run_task t s).0 ∷ calls)
  unfolding run_task
  task_ends IsFinite.at_once s calls = Turns.goes Turn.settles Turns.stays
  task_ends (IsFinite.after_part {f} h) s calls =
      Turns.goes Turn.works (task_ends (h s) (f s) calls)

  then_others :
      (t : Task S) (s : S) (calls : List (Call S))
      → IsFinite t
      → Turns
          (run_task t s).1
          calls
          (finish_calls calls (run_task t s).1).1
          (finish_calls calls (run_task t s).1).0
      → Turns s
          (running t ∷ calls)
          (finish_calls (running t ∷ calls) s).1
          (finish_calls (running t ∷ calls) s).0
  unfolding finish_calls
  then_others t s calls e others =
      before (task_ends e s calls) (behind_settled (run_task t s).0 others)

  all_end :
      (calls : List (Call S)) (s : S)
      → All IsFiniteCall calls
      → Turns s calls (finish_calls calls s).1 (finish_calls calls s).0
  unfolding finish_calls
  all_end [] s h = Turns.stays
  all_end (waiting t ∷ calls) s h =
      Turns.goes Turn.starts (then_others t s calls h.0 (all_end calls (run_task t s).1 h.1))
  all_end (running t ∷ calls) s h = then_others t s calls h.0 (all_end calls (run_task t s).1 h.1)
  all_end (settled ok ∷ calls) s h = behind_settled ok (all_end calls s h.1)

  -- If every task called comes to its end when it is left to run, then from every state that the mutex
  -- reaches, turns lead to the state in which each task has run after those called before it, tasks
  -- that throw included, and its call is settled; and there is no choice of turns, since a turn from
  -- that state can only be the `next` one.
  pub Reached-ends :
      {init : S} {tasks : List (Task S)} {s : S} {calls : List (Call S)}
      → Reached init tasks s calls
      → All IsFinite tasks
      → Turns s calls (one_by_one tasks init).1 (one_by_one tasks init).0
        × ((s' : S) (calls' : List (Call S))
            → Turn true s calls s' calls'
            → (calls', s') ≡ next calls s)
  Reached-ends {s} {calls} r h = (
    subst (λ x. Turns s calls x.1 x.0) (Reached-finish_calls r)
        (all_end calls s (Reached-IsFiniteCall r h)),
    λ s' calls' turn. turn-next turn (Reached-IsQueue r),
  )
