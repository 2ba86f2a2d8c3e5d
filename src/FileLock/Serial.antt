-- ===== src/FileLock/Serial.antt =====
-- src/file-lock.ts: what the tasks under one mutex do is what they do one after the other.
use mathlib.Core.Path.{subst}
use xrplink.FileLock.{
  Task, done, hang, part, Call, waiting, running, settled, Turn, Reached, with_lock, is_settled,
  is_running,
}
use xrplink.Prelude.{
  ◌≤◌, ◌≡◌, refl, sym, ap, ◌∙◌, Bool, true, false, List, [], ◌∷◌, arith, length, keep, All, concat,
}

module _ {ℓ} {S : Type ℓ} where
  -- A task that nothing interrupts. One that hangs has no result: its call is never settled, and the
  -- answer here stands for nothing.
  unfoldable pub run_task : Task S → S → Bool × S
  run_task (done ok) s = (ok, s)
  run_task hang s = (false, s)
  run_task (part f rest) s = run_task (rest s) (f s)

  -- The calls that are left, each run from its start or from where it stands, in their order.
  unfoldable pub finish_calls : List (Call S) → S → List (Call S) × S
  unfolding run_task
  finish_calls [] s = ([], s)
  finish_calls (waiting t ∷ calls) s =
      let (ok, s') = run_task t s in
      let (rest, last) = finish_calls calls s' in (settled ok ∷ rest, last)
  finish_calls (running t ∷ calls) s =
      let (ok, s') = run_task t s in
      let (rest, last) = finish_calls calls s' in (settled ok ∷ rest, last)
  finish_calls (settled ok ∷ calls) s =
      let (rest, last) = finish_calls calls s in (settled ok ∷ rest, last)

  -- The tasks one after the other.
  unfoldable pub one_by_one : List (Task S) → S → List (Call S) × S
  unfolding run_task
  one_by_one [] s = ([], s)
  one_by_one (t ∷ tasks) s =
      let (ok, s') = run_task t s in
      let (rest, last) = one_by_one tasks s' in (settled ok ∷ rest, last)

  -- The settled calls come first, then at most one that runs, then those that wait.
  abbrev pub IsQueue : Bool → List (Call S) → Type 0
  IsQueue free [] = Unit
  IsQueue free (waiting t ∷ calls) = IsQueue false calls
  IsQueue free (running t ∷ calls) = (free ≡ true) × IsQueue false calls
  IsQueue free (settled ok ∷ calls) = (free ≡ true) × IsQueue true calls

  IsQueue-all_free : (calls : List (Call S)) → IsQueue false calls → IsQueue true calls
  IsQueue-all_free [] q = tt
  IsQueue-all_free (waiting t ∷ calls) q = q
  IsQueue-all_free (running t ∷ calls) q = cc
  IsQueue-all_free (settled ok ∷ calls) q = cc

  IsQueue-cons :
      (c : Call S) (free : Bool) (calls calls' : List (Call S))
      → (IsQueue (is_settled c) calls → IsQueue (is_settled c) calls')
      → IsQueue free (c ∷ calls)
      → IsQueue free (c ∷ calls')
  IsQueue-cons (waiting t) free calls calls' keeps q = keeps q
  IsQueue-cons (running t) free calls calls' keeps q = (q.0, keeps q.1)
  IsQueue-cons (settled ok) free calls calls' keeps q = (q.0, keeps q.1)

  IsQueue-turn :
      {free : Bool} {s s' : S} {calls calls' : List (Call S)}
      → Turn free s calls s' calls'
      → IsQueue free calls
      → IsQueue free calls'
  IsQueue-turn Turn.starts q = (refl, q)
  IsQueue-turn Turn.works q = q
  IsQueue-turn (Turn.settles {calls}) q = (q.0, IsQueue-all_free calls q.1)
  IsQueue-turn (Turn.later {free} {c} {calls} {calls'} turn) q =
      IsQueue-cons c free calls calls' (λ p. IsQueue-turn turn p) q

  IsQueue-snoc :
      (calls : List (Call S)) (t : Task S) (free : Bool)
      → IsQueue free calls
      → IsQueue free (concat calls (waiting t ∷ []))
  IsQueue-snoc [] t free q = tt
  IsQueue-snoc (c ∷ calls) t free q =
      IsQueue-cons c free calls _ (λ p. IsQueue-snoc calls t (is_settled c) p) q

  pub Reached-IsQueue :
      {init : S} {tasks : List (Task S)} {s : S} {calls : List (Call S)}
      → Reached init tasks s calls
      → IsQueue true calls
  unfolding with_lock
  Reached-IsQueue Reached.created = tt
  Reached-IsQueue (Reached.called {calls} r t) = IsQueue-snoc calls t true (Reached-IsQueue r)
  Reached-IsQueue (Reached.turned r turn) = IsQueue-turn turn (Reached-IsQueue r)

  -- Nothing moves behind a call that is not settled.
  pub behind :
      (c : Call S) (free : Bool) (calls : List (Call S))
      → IsQueue free (c ∷ calls)
      → IsQueue (is_settled c) calls
  behind (waiting t) free calls q = q
  behind (running t) free calls q = q.1
  behind (settled ok) free calls q = q.1

  never_free :
      (c : Call S) (calls : List (Call S)) → IsQueue false (c ∷ calls) → is_settled c ≡ false
  never_free (waiting t) calls q = refl
  never_free (running t) calls q = refl
  never_free (settled ok) calls q = cc

  pub no_turn :
      {free : Bool} {s s' : S} {calls calls' : List (Call S)}
      → Turn free s calls s' calls'
      → free ≡ false
      → IsQueue free calls
      → ⊥
  no_turn Turn.starts e q = cc
  no_turn Turn.works e q = cc
  no_turn Turn.settles e q = cc
  no_turn (Turn.later {free} {c} {calls} turn) e q =
      no_turn turn (never_free c calls (subst (λ f. IsQueue f (c ∷ calls)) e q))
        (behind c free calls q)

  finish_calls-behind :
      (c : Call S) (free : Bool) (s s' : S) (calls calls' : List (Call S))
      → Turn (is_settled c) s calls s' calls'
      → IsQueue free (c ∷ calls)
      → finish_calls calls' s' ≡ finish_calls calls s
      → finish_calls (c ∷ calls') s' ≡ finish_calls (c ∷ calls) s
  unfolding finish_calls
  finish_calls-behind (waiting t) free s s' calls calls' turn q ih = absurd (no_turn turn refl q)
  finish_calls-behind (running t) free s s' calls calls' turn q ih = absurd (no_turn turn refl q.1)
  finish_calls-behind (settled ok) free s s' calls calls' turn q ih =
      ap (λ x. (settled ok ∷ x.0, x.1)) ih

  -- A turn does not change what will have happened when every call is settled.
  finish_calls-turn :
      {free : Bool} {s s' : S} {calls calls' : List (Call S)}
      → Turn free s calls s' calls'
      → IsQueue free calls
      → finish_calls calls' s' ≡ finish_calls calls s
  unfolding finish_calls run_task
  finish_calls-turn Turn.starts q = refl
  finish_calls-turn Turn.works q = refl
  finish_calls-turn Turn.settles q = refl
  finish_calls-turn (Turn.later {free} {s} {s'} {c} {calls} {calls'} turn) q =
      finish_calls-behind c free s s' calls calls' turn q
        (finish_calls-turn turn (behind c free calls q))

  abbrev and_last : Task S → List (Call S) × S → List (Call S) × S
  and_last t (calls, s) = let (ok, s') = run_task t s in (concat calls (settled ok ∷ []), s')

  finish_calls-snoc :
      (calls : List (Call S)) (t : Task S) (s : S)
      → finish_calls (concat calls (waiting t ∷ [])) s ≡ and_last t (finish_calls calls s)
  unfolding finish_calls
  finish_calls-snoc [] t s = refl
  finish_calls-snoc (waiting u ∷ calls) t s =
      ap (λ x. (settled (run_task u s).0 ∷ x.0, x.1)) (finish_calls-snoc calls t (run_task u s).1)
  finish_calls-snoc (running u ∷ calls) t s =
      ap (λ x. (settled (run_task u s).0 ∷ x.0, x.1)) (finish_calls-snoc calls t (run_task u s).1)
  finish_calls-snoc (settled ok ∷ calls) t s =
      ap (λ x. (settled ok ∷ x.0, x.1)) (finish_calls-snoc calls t s)

  one_by_one-snoc :
      (tasks : List (Task S)) (t : Task S) (s : S)
      → one_by_one (concat tasks (t ∷ [])) s ≡ and_last t (one_by_one tasks s)
  unfolding one_by_one
  one_by_one-snoc [] t s = refl
  one_by_one-snoc (u ∷ tasks) t s =
      ap (λ x. (settled (run_task u s).0 ∷ x.0, x.1)) (one_by_one-snoc tasks t (run_task u s).1)

  pub Reached-finish_calls :
      {init : S} {tasks : List (Task S)} {s : S} {calls : List (Call S)}
      → Reached init tasks s calls
      → finish_calls calls s ≡ one_by_one tasks init
  unfolding with_lock finish_calls one_by_one
  Reached-finish_calls Reached.created = refl
  Reached-finish_calls (Reached.called {tasks} {s} {calls} r t) =
      finish_calls-snoc calls t s
      ∙ ap (and_last t) (Reached-finish_calls r)
      ∙ sym (one_by_one-snoc tasks t _)
  Reached-finish_calls (Reached.turned r turn) =
      finish_calls-turn turn (Reached-IsQueue r) ∙ Reached-finish_calls r

  abbrev pub IsSettled : List (Call S) → Type 0
  IsSettled calls = All (λ c. is_settled c ≡ true) calls

  finish_settled :
      (calls : List (Call S)) (s : S) → IsSettled calls → finish_calls calls s ≡ (calls, s)
  unfolding finish_calls
  finish_settled [] s h = refl
  finish_settled (waiting t ∷ calls) s h = cc
  finish_settled (running t ∷ calls) s h = cc
  finish_settled (settled ok ∷ calls) s h =
      ap (λ x. (settled ok ∷ x.0, x.1)) (finish_settled calls s h.1)

  -- However the calls and their turns interleave: once every call under a mutex is settled, the shared
  -- state and the outcome of each call are those of the tasks run one after the other, without a pause,
  -- in the order of the calls. A task that throws does not keep a later one from running.
  pub settled-eq-one_by_one :
      {init : S} {tasks : List (Task S)} {s : S} {calls : List (Call S)}
      → Reached init tasks s calls
      → IsSettled calls
      → (calls, s) ≡ one_by_one tasks init
  settled-eq-one_by_one {s} {calls} r h = sym (finish_settled calls s h) ∙ Reached-finish_calls r

  none_behind : (calls : List (Call S)) → IsQueue false calls → length (keep is_running calls) ≡ 0
  none_behind [] q = refl
  none_behind (waiting t ∷ calls) q = none_behind calls q
  none_behind (running t ∷ calls) q = cc
  none_behind (settled ok ∷ calls) q = cc

  one_runs : (calls : List (Call S)) → IsQueue true calls → length (keep is_running calls) ≤ 1
  one_runs [] q = omega arith
  one_runs (waiting t ∷ calls) q = omega (arith, none_behind calls q)
  one_runs (running t ∷ calls) q = omega (arith, none_behind calls q.1)
  one_runs (settled ok ∷ calls) q = one_runs calls q.1

  -- In every state that a mutex reaches, at most one of its tasks has started and is not settled.
  Reached-one :
      {init : S} {tasks : List (Task S)} {s : S} {calls : List (Call S)}
      → Reached init tasks s calls
      → length (keep is_running calls) ≤ 1
  Reached-one {calls} r = one_runs calls (Reached-IsQueue r)
