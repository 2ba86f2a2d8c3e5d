-- ===== src/RateLimit/Budget.antt =====
-- src/rate-limit.ts: what a window lets through, however its calls mix with those of other keys.
use xrplink.Prelude.{
  ◌∙◌, ℕ, ◌+◌, ◌-◌, ◌<◌, min, String, ◌≡◌, ◌∙◌, ◌≢◌, inl, inr, Bool, true, false, ◌&&◌, some, List,
  [], ◌∷◌, arith, ◌==◌, eq_iff, ltb, Bool-cases, Option-cases, All,
}
use xrplink.Dict
use xrplink.Dict.{get-set}
use xrplink.RateLimit.{WindowHit, Windows, Verdict, consume_rate_limit}

pub record Call : Type 0 where
  pub key : String
  pub limit : ℕ
  pub window_ms : ℕ
  pub now : ℕ

abbrev consume : Call → Windows → Verdict × Windows
consume c ws = consume_rate_limit c.key c.limit c.window_ms c.now ws

abbrev tally : Bool → ℕ
tally true = 1
tally false = 0

-- How many of the calls are on the key, and how many of those are let through.
pub calls_on : String → List Call → ℕ
calls_on key [] = 0
calls_on key (c ∷ cs) = tally (c.key == key) + calls_on key cs

pub allowed_on : String → List Call → Windows → ℕ
allowed_on key [] ws = 0
allowed_on key (c ∷ cs) ws =
    tally ((c.key == key) && (consume c ws).0.allowed) + allowed_on key cs (consume c ws).1

-- Calls on the key come before `reset_at` and under this limit; calls on other keys are free.
abbrev pub IsInWindow : String → ℕ → ℕ → Call → Type 0
IsInWindow key limit reset_at c = c.key ≡ key → (c.limit ≡ limit) × (c.now < reset_at)

-- A call on a key whose window is open takes one from what is left, if anything is.
consume_same :
    (key : String) (limit window_ms now : ℕ) (hit : WindowHit) (ws : Windows)
    → Dict.get ws key ≡ some hit
    → now < hit.reset_at
    → ((consume_rate_limit key limit window_ms now ws).0.allowed ≡ ltb hit.count limit)
      × (Dict.get (consume_rate_limit key limit window_ms now ws).1 key
          ≡ some (record hit { count = hit.count + tally (ltb hit.count limit) }))
unfolding consume_rate_limit
consume_same key limit window_ms now hit ws e h =
    rw (e, consume_rate_limit)
      (ground (arith, e, get-set ws key key (record hit { count = hit.count + 1 }), eq_iff key key))

-- It leaves the windows of other keys alone.
consume_other :
    (key other : String) (limit window_ms now : ℕ) (ws : Windows)
    → key ≢ other
    → Dict.get (consume_rate_limit key limit window_ms now ws).1 other ≡ Dict.get ws other
unfolding consume_rate_limit
consume_other key other limit window_ms now ws h = elim (Option-cases (Dict.get ws key)) [
  | inl e ↦
      rw (e, consume_rate_limit)
        (ground (
          arith,
          get-set ws key other (record { count = 1; reset_at = now + window_ms }),
          eq_iff key other,
        ))
  | inr (hit, e) ↦
      rw (e, consume_rate_limit)
        (ground (
          arith,
          get-set ws key other (record { count = 1; reset_at = now + window_ms }),
          get-set ws key other (record hit { count = hit.count + 1 }),
          eq_iff key other,
        ))
]

-- In an open window exactly the calls that the budget has room for are let through: the smaller of
-- how many come and what is left of the limit, however calls on other keys are mixed in.
pub allowed_on-open :
    (cs : List Call) (key : String) (limit : ℕ) (hit : WindowHit) (ws : Windows)
    → Dict.get ws key ≡ some hit
    → All (IsInWindow key limit hit.reset_at) cs
    → allowed_on key cs ws ≡ min (calls_on key cs) (limit - hit.count)
unfolding calls_on allowed_on
allowed_on-open [] key limit hit ws e h = omega arith
allowed_on-open (c ∷ cs) key limit hit ws e (h, hs) = elim (Bool-cases (c.key == key)) [
  | inl same ↦
      let k = (eq_iff c.key key).0 same in
      let (passes, left) = consume_same c.key c.limit c.window_ms c.now hit ws (rw k e) (h k).1 in
      let after = record hit { count = hit.count + tally (ltb hit.count limit) } in
      let ih =
        allowed_on-open cs key limit after (consume c ws).1 (ground (arith, k, (h k).0, left)) hs in
      ground (arith, same, passes, (h k).0, ih)
  | inr other ↦
      let ih =
        allowed_on-open cs key limit hit (consume c ws).1
          (consume_other c.key key c.limit c.window_ms c.now ws (λ q. cc ((eq_iff c.key key).1 q))
            ∙ e)
          hs in
      ground (arith, other, ih)
]
