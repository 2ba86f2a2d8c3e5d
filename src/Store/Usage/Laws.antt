-- ===== src/Store/Usage/Laws.antt =====
-- src/store.ts: what reserving and releasing quota slots does to the counters.
use Prim.Native.String.{count}
use xrplink.Prelude.{
  ℕ, ◌+◌, ◌-◌, ◌≤◌, ◌<◌, String, ◌≡◌, true, ◌&&◌, List, [], ◌∷◌, arith, ◌==◌, eq_iff, ltb,
  if◌then◌else◌, get_or, All,
}
use text.Mathlib.TextLemmas.{append_inj, append_cancel_left}
use xrplink.Dict
use xrplink.Dict.{get-set}
use xrplink.Store.{threw, Store, Write, written, broken, commit}
use xrplink.Store.Usage.{
  api_key_lookup_id, Reservation, usage_key, set_usage, reserve_attestation_usage,
  release_attestation_usage,
}

-- One request's effect on the counters, with the fate of its file write.
pub data QuotaCall : Type 0 where
  reserve : Write → String → String → ℕ → QuotaCall
  release : Write → String → String → QuotaCall

abbrev pub used_at : String → Store → ℕ
used_at u s = get_or (Dict.get s.attestation_usage u) 0

module _ (sha256 : String → String) where
  used_at-commit :
      {A : Type 0} (w : Write) (k p : String) (n : ℕ) (a : A) (s : Store) (u : String)
      → used_at u (commit w (set_usage sha256 k p n s) a s).1
        ≡ (if usage_key sha256 k p == u then n else used_at u s)
  unfolding commit
  used_at-commit written k p n a s u =
      ground (arith, get-set s.attestation_usage (usage_key sha256 k p) u n)
  used_at-commit (broken m e) k p n a s u =
      ground (arith, get-set s.attestation_usage (usage_key sha256 k p) u n)

  -- A slot is taken exactly if the limit is positive and not reached, whether or not the write works.
  pub used_at-reserve :
      (w : Write) (k p : String) (limit : ℕ) (s : Store) (u : String)
      → used_at u (reserve_attestation_usage sha256 w k p limit s).1 ≡ (
          if ltb (used_at (usage_key sha256 k p) s) limit && (usage_key sha256 k p == u)
          then used_at (usage_key sha256 k p) s + 1
          else used_at u s)
  unfolding reserve_attestation_usage
  used_at-reserve w k p limit s u =
      let n = used_at (usage_key sha256 k p) s in
      ground (
        arith,
        used_at-commit {A = Reservation} w k p (n + 1) (record { reserved = true; used = n + 1 }) s
            u,
        eq_iff (usage_key sha256 k p) u,
      )

  pub used_at-release :
      (w : Write) (k p : String) (s : Store) (u : String)
      → used_at u (release_attestation_usage sha256 w k p s).1
        ≡ (if usage_key sha256 k p == u then used_at u s - 1 else used_at u s)
  unfolding release_attestation_usage
  used_at-release w k p s u =
      let n = used_at (usage_key sha256 k p) s in
      ground (arith, used_at-commit w k p (n - 1) tt s u, eq_iff (usage_key sha256 k p) u)

  -- A key's counter, after a release that follows a granted reservation and whatever the two writes
  -- do, is what it was before; so is every other counter.
  release-reserve :
      (w v : Write) (k p : String) (limit : ℕ) (s : Store) (u : String)
      → used_at (usage_key sha256 k p) s < limit
      → used_at u
          (release_attestation_usage sha256 v k p
            (reserve_attestation_usage sha256 w k p limit s).1).1
        ≡ used_at u s
  release-reserve w v k p limit s u h = ground (
    arith,
    used_at-release v k p (reserve_attestation_usage sha256 w k p limit s).1 u,
    used_at-reserve w k p limit s u,
    eq_iff (usage_key sha256 k p) u,
  )

  pub run : List QuotaCall → Store → Store
  run [] s = s
  run (reserve w k p limit ∷ calls) s = run calls (reserve_attestation_usage sha256 w k p limit s).1
  run (release w k p ∷ calls) s = run calls (release_attestation_usage sha256 w k p s).1

  -- The call, if it reserves on the counter `u`, does so under a limit of at most `limit`.
  abbrev pub IsCapped : String → ℕ → QuotaCall → Type 0
  IsCapped u limit (reserve w k p n) = usage_key sha256 k p ≡ u → n ≤ limit
  IsCapped u limit (release w k p) = Unit

  -- Whatever reservations and releases are made, in whatever order, for whichever keys and periods,
  -- and whichever file writes throw, a counter that starts within `limit` stays within it, if no
  -- reservation on that counter is made under a greater limit.
  pub used_at-run-le :
      (calls : List QuotaCall) (s : Store) (u : String) (limit : ℕ)
      → All (IsCapped u limit) calls
      → used_at u s ≤ limit
      → used_at u (run calls s) ≤ limit
  unfolding run
  used_at-run-le [] s u limit capped h = h
  used_at-run-le (reserve w k p n ∷ calls) s u limit (c, capped) h =
      used_at-run-le calls (reserve_attestation_usage sha256 w k p n s).1 u limit capped
        (ground (arith, used_at-reserve w k p n s u, eq_iff (usage_key sha256 k p) u))
  used_at-run-le (release w k p ∷ calls) s u limit (c, capped) h =
      used_at-run-le calls (release_attestation_usage sha256 w k p s).1 u limit capped
        (ground (arith, used_at-release w k p s u))

  -- Two keys of one id length, such as hashed ids, share a counter only if they have one id and the
  -- periods are one.
  pub usage_key-inj :
      (k j p q : String)
      → count (api_key_lookup_id sha256 k) ≡ count (api_key_lookup_id sha256 j)
      → usage_key sha256 k p ≡ usage_key sha256 j q
      → (api_key_lookup_id sha256 k ≡ api_key_lookup_id sha256 j) × (p ≡ q)
  unfolding usage_key
  usage_key-inj k j p q same e =
      let (ids, rests) = append_inj e same in (ids, append_cancel_left ":" p q rests)

  -- A reservation whose file write throws reports the error and has taken the slot all the same; the
  -- caller, which sees no reservation, has nothing to release.
  reserve_broken :
      (n : ℕ) (e k p : String) (limit : ℕ) (s : Store)
      → used_at (usage_key sha256 k p) s < limit
      → ((reserve_attestation_usage sha256 (broken n e) k p limit s).0 ≡ threw e)
        × (used_at
              (usage_key sha256 k p)
              (reserve_attestation_usage sha256 (broken n e) k p limit s).1
            ≡ used_at (usage_key sha256 k p) s + 1)
  reserve_broken n e k p limit s h = (
    (unfold reserve_attestation_usage in ground arith),
    ground (
      arith,
      used_at-reserve (broken n e) k p limit s (usage_key sha256 k p),
      eq_iff (usage_key sha256 k p) (usage_key sha256 k p),
    ),
  )
