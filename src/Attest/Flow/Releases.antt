-- ===== src/Attest/Flow/Releases.antt =====
-- src/attest.ts: a release whose file write throws.
use xrplink.Prelude.{ℕ, ◌+◌, ◌-◌, ◌<◌, String, ◌≡◌, refl, ap, ◌∙◌, some, arith, eq_refl}
use xrplink.Store.{Write, broken, Store, threw}
use xrplink.Store.Usage.{usage_key, release_attestation_usage, get_attestation_usage}
use xrplink.Store.Usage.Laws.{used_at, used_at-release}
use xrplink.Xrpl.{PreflightCode, preflight_xrpl_payment, fails_with}
use xrplink.Attest.{
  World, Attempt, done, raised, plain, release, Env, Request, AttestResult, ◌>>=◌, catching,
  on_store,
}
use xrplink.Attest.Access.{Payer}
use xrplink.Attest.{Failure}
use xrplink.Attest.Flow.{Held, release_reservation, proceed, release_and_throw, guarded}
use xrplink.Attest.Flow.Counted.{used}

module _ (env : Env) (n : ℕ) (message : String) (breaks : env.fate release ≡ broken n message)
    (key period : String) where
  abbrev counter : String
  counter = usage_key env.sha256 key period

  threw_of_broken :
      (x : Write) (s : Store)
      → x ≡ broken n message
      → 0 < used_at counter s
      → (release_attestation_usage env.sha256 x key period s).0 ≡ threw message
  unfolding release_attestation_usage get_attestation_usage
  threw_of_broken x s e h = rw (e, release_attestation_usage) (ground arith)

  raises :
      (w : World)
      → 0 < used counter w
      → (release_reservation env (some (key, period)) w).0 ≡ raised (plain message)
  unfolding release_reservation on_store
  raises w h = rw (threw_of_broken (env.fate release) w.store breaks h, on_store) refl

  one_less :
      (w : World)
      → used counter (release_reservation env (some (key, period)) w).1 ≡ used counter w - 1
  unfolding release_reservation on_store
  one_less w =
      used_at-release env.sha256 (env.fate release) key period w.store counter
      ∙ (ground (arith, eq_refl counter))

  abbrev held : Held
  held = some (key, period)

  -- Whether or not the second release throws, the world is what it leaves.
  after_release :
      (e : Failure) (r : Attempt (Unit {0})) (x : World)
      → (elim r as (λ _. Attempt AttestResult × World) [
        | done a ↦ (raised e, x)
        | raised f ↦ (raised f, x)
      ]).1
        ≡ x
  after_release e (done a) x = refl
  after_release e (raised f) x = refl

  thrown :
      (e : Failure) (v : World)
      → (release_and_throw env held e v).1 ≡ (release_reservation env held v).1
  unfolding release_and_throw ◌>>=◌
  thrown e v = after_release e (release_reservation env held v).0 (release_reservation env held v).1

  module _ (req : Request) (clean_hash : String) (payer : Payer) (code : PreflightCode) (status : ℕ)
      (w : World)
      (refused : preflight_xrpl_payment (env.outside.lookup clean_hash) env.now
        ≡ fails_with code status)
      (positive : 0 < used counter w) where
    proceed_raises :
        proceed env req clean_hash held payer w
        ≡ (raised (plain message), (release_reservation env held w).1)
    unfolding proceed ◌>>=◌
    proceed_raises = rw (refused, raises w positive, proceed, ◌>>=◌) refl

    guarded_throws :
        guarded env req clean_hash held payer w
        ≡ release_and_throw env held (plain message) (release_reservation env held w).1
    unfolding guarded catching
    guarded_throws =
        rw (proceed_raises, guarded, catching)
          (ap (λ (x : Attempt AttestResult × World). release_and_throw env held (plain message) x.1)
            proceed_raises)

  -- When the preflight refuses the transaction of a request that holds one slot, while its key has at
  -- least one other slot in use, and the file write of the release throws, the slot is released in
  -- the `try` and again in the `catch`: the counter ends two lower, though the request held one slot.
  pub guarded_lost_slot :
      (req : Request) (clean_hash : String) (payer : Payer) (code : PreflightCode) (status : ℕ)
      (w : World)
      → preflight_xrpl_payment (env.outside.lookup clean_hash) env.now ≡ fails_with code status
      → 1 < used counter w
      → used counter (guarded env req clean_hash (some (key, period)) payer w).1 + 2
        ≡ used counter w
  guarded_lost_slot req clean_hash payer code status w refused h =
      let v = (release_reservation env held w).1 in
      let left =
        ap (λ m. used counter m.1)
          (guarded_throws req clean_hash payer code status w refused (omega (arith, h)))
        ∙ ap (used counter) (thrown (plain message) v) in
      omega (arith, h, left, one_less w, one_less v)
