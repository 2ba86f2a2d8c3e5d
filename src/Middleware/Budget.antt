-- ===== src/Middleware/Budget.antt =====
-- src/middleware.ts: how many requests of an API key get through in one minute.
use xrplink.Dict
use xrplink.Dict.{Dict, get-set, get-remove}
use xrplink.Store.{ApiKey, Tier, Write}
use xrplink.Store.ApiKeys.{get_api_key, increment_api_key_usage}
use xrplink.Middleware.{
  Headers, Guarded, passed, refused, Gate, window_key, count_hit, require_api_key, expire_window,
}
use xrplink.Prelude.{
  ℕ, ◌+◌, ◌≤◌, String, ◌≡◌, inl, inr, Bool, true, false, not, ◌&&◌, Option, none, some, List, [],
  ◌∷◌, arith, ◌==◌, eq_iff, leb, if◌then◌else◌, Option-cases, get_or, truthy, All,
}

-- A request with an API key, or the timer of a window.
pub data Step : Type 0 where
  requested : Write → ℕ → Headers → Step
  expired : String → Step

abbrev tally : Bool → ℕ
tally true = 1
tally false = 0

abbrev capped : ℕ → ℕ → ℕ
capped n hits = if leb hits n then hits else n

abbrev hits_on : String → Gate → ℕ
hits_on window g = get_or (Dict.get g.windows window) 0

-- The request is counted on the window.
abbrev pub is_on : String → ℕ → Headers → Bool
is_on window now h = elim (truthy h.x_api_key) [
  | none ↦ false
  | some key ↦ window_key key now == window
]

abbrev pub leaves_open : String → Step → Bool
leaves_open window (requested w now h) = true
leaves_open window (expired other) = not (other == window)

module _ (sha256 : String → String) (limits : Tier → Option ℕ) where
  -- The request got past the guard with a key whose tier allows at most `n` a minute.
  abbrev pub is_limited : ℕ → Guarded ApiKey → Bool
  is_limited n (refused status r) = false
  is_limited n (passed k) = elim (limits k.tier) [ none ↦ false | some limit ↦ leb limit n ]

  unfoldable pub passes_on : String → ℕ → List Step → Gate → ℕ
  passes_on window n [] g = 0
  passes_on window n (requested w now h ∷ steps) g =
      let (r, t) = require_api_key sha256 limits w now h g in
      tally (is_on window now h && is_limited n r) + passes_on window n steps t
  passes_on window n (expired other ∷ steps) g = passes_on window n steps (expire_window other g)

  count_hit-capped :
      (window key : String) (now n limit : ℕ) (k : ApiKey) (g : Gate)
      → limits k.tier ≡ some limit
      → let (r, t) = count_hit sha256 limits key now k limit g in
        tally ((window_key key now == window) && is_limited n r) + capped n (hits_on window g)
        ≤ capped n (hits_on window t)
  count_hit-capped window key now n limit k g e = ground (
    arith,
    get-set g.windows (window_key key now) window (hits_on (window_key key now) g + 1),
    eq_iff (window_key key now) window,
  )

  require_api_key-capped :
      (window : String) (n : ℕ) (w : Write) (now : ℕ) (h : Headers) (g : Gate)
      → tally (is_on window now h && is_limited n (require_api_key sha256 limits w now h g).0)
          + capped n (hits_on window g)
        ≤ capped n (hits_on window (require_api_key sha256 limits w now h g).1)
  unfolding require_api_key
  require_api_key-capped window n w now h g = elim (Option-cases (truthy h.x_api_key)) [
    | inl e ↦ ground (arith, e)
    | inr (key, e) ↦ elim (Option-cases (get_api_key sha256 key g.store)) [
      | inl absent ↦ ground (arith, e, absent)
      | inr (k, found) ↦ elim (Option-cases (limits k.tier)) [
        | inl free_of ↦ ground (arith, e, found, free_of)
        | inr (limit, held) ↦
            let t = record g { store = (increment_api_key_usage sha256 w key g.store).1 } in
            ground (arith, e, found, held, count_hit-capped window key now n limit k t held)
      ]
    ]
  ]

  passes_on-capped :
      (window : String) (n : ℕ) (steps : List Step) (g : Gate)
      → All (λ s. leaves_open window s ≡ true) steps
      → passes_on window n steps g + capped n (hits_on window g) ≤ n
  unfolding passes_on expire_window
  passes_on-capped window n [] g h = ground arith
  passes_on-capped window n (requested w now headers ∷ steps) g h =
      let t = (require_api_key sha256 limits w now headers g).1 in
      omega (
        arith,
        require_api_key-capped window n w now headers g,
        passes_on-capped window n steps t h.1,
      )
  passes_on-capped window n (expired other ∷ steps) g h = ground (
    arith,
    h.0,
    get-remove g.windows other window,
    passes_on-capped window n steps (expire_window other g) h.1,
  )

  -- Over any sequence of requests, with any headers, at any times and whatever the writes of the use
  -- counts do, at most `n` requests that count on one window of a key, which is a minute, get past
  -- `requireApiKey` with a tier that allows at most `n` requests a minute, as long as the timer of
  -- that window does not fire.
  pub passes_on-le :
      (window : String) (n : ℕ) (steps : List Step) (g : Gate)
      → All (λ s. leaves_open window s ≡ true) steps
      → passes_on window n steps g ≤ n
  passes_on-le window n steps g h = omega (arith, passes_on-capped window n steps g h)
