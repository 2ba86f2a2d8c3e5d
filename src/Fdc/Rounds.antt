-- ===== src/Fdc/Rounds.antt =====
-- src/fdc-service.ts: which voting round a submission is looked for in.
use xrplink.Attest.{done}
use xrplink.Fdc.{
  Round, round, before_first, round_at, Mined, reverted, not_mined, mined, Submitted,
  submit_request,
}
use xrplink.Prelude.{ℕ, ◌+◌, ◌*◌, ◌≤◌, ◌<◌, ◌≡◌, ap, inl, inr, none, some, arith, leb, Bool-cases}

-- The instants of a round, in seconds: 90 of them, from the start of the first round on.
abbrev pub IsWithin : ℕ → ℕ → Round → Type 0
IsWithin start t (round n) = (start + 90 * n ≤ t) × (t < start + 90 * (n + 1))
IsWithin start t (before_first n) = (start ≤ t + 90 * (n + 1)) × (t + 90 * n < start)

IsWithin-round_at : (start t : ℕ) → IsWithin start t (round_at start t)
unfolding round_at
IsWithin-round_at start t = elim (Bool-cases (leb start t)) [
  | inl e ↦ rw e (ground (arith, e), ground (arith, e))
  | inr e ↦ rw e (ground (arith, e), ground (arith, e))
]

-- No two rounds have an instant in common.
only_round : (start t : ℕ) (r q : Round) → IsWithin start t r → IsWithin start t q → r ≡ q
only_round start t (round m) (round n) h g =
    let same : m ≡ n = omega (arith, h.0, h.1, g.0, g.1) in ap round same
only_round start t (round m) (before_first n) h g = absurd (omega (arith, h.0, h.1, g.0, g.1))
only_round start t (before_first m) (round n) h g = absurd (omega (arith, h.0, h.1, g.0, g.1))
only_round start t (before_first m) (before_first n) h g =
    let same : m ≡ n = omega (arith, h.0, h.1, g.0, g.1) in ap before_first same

-- A submission that returns was mined in a block whose time the provider has, and its round is the one,
-- and the only one, of 90 seconds that this time lies in.
pub submit_request-IsWithin :
    (start : ℕ) (m : Mined) (s : Submitted)
    → submit_request start m ≡ done s
    → (t : ℕ) × (m ≡ mined s.tx_hash s.block_number (some t))
      × IsWithin start t s.round_id
      × ((r : Round) → IsWithin start t r → r ≡ s.round_id)
unfolding submit_request
submit_request-IsWithin start (reverted m) s e = cc
submit_request-IsWithin start not_mined s e = cc
submit_request-IsWithin start (mined h b none) s e = cc
submit_request-IsWithin start (mined h b (some t)) s e =
    let at : s.round_id ≡ round_at start t = cc in
    let within = IsWithin-round_at start t in
    (t, cc, rw at within, λ r g. rw at (only_round start t r (round_at start t) g within))
