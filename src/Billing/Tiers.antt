-- ===== src/Billing/Tiers.antt =====
-- src/billing.ts: the tiers of a user's keys after a change of the subscription.
use xrplink.Prelude.{
  false, String, ◌≡◌, refl, sym, ap, ◌⊎◌, inl, inr, Bool, true, false, Option, none, some, List, [],
  ◌∷◌, arith, eq_iff, eq_refl, Option-cases, or_else, All,
}
use mathlib.Core.Path.{subst}
use xrplink.Dict
use xrplink.Dict.{Dict, get-set}
use xrplink.Keys.{api_key_lookup_id}
use xrplink.Store.{
  free, PersistedData, broken, Tier, ApiKey, Store, Write, written, returned, threw, Outcome,
  commit, data_in_memory-commit,
}
use xrplink.Store.ApiKeys.{find_api_key, get_api_key, change_api_key, update_api_key_tier}
use xrplink.Users.{StoredUser, find_by_id, update}
use xrplink.Users.{find_by_stripe_customer_id, canceled}
use xrplink.Billing.{
  is_other, handle_subscription_deleted, set_tiers, with_tier, update_user_subscription,
}
use xrplink.Billing.Objects.{Subscription, Stripe, Accounts}

-- The row of a key: under its id, or under the key itself.
abbrev row_in : Dict ApiKey → String → String → Option ApiKey
row_in d id key = or_else (Dict.get d id) (Dict.get d key)

module _ (tier : Tier) where
  abbrev IsOfTier : Option ApiKey → Type 0
  IsOfTier none = Unit
  IsOfTier (some k) = k.tier ≡ tier

  -- Another row of the tier takes the place of a row.
  kept_in_set :
      (d : Dict ApiKey) (at : String) (old new : ApiKey) (id key : String)
      → Dict.get d at ≡ some old
      → new.tier ≡ tier
      → IsOfTier (row_in d id key)
      → IsOfTier (row_in (Dict.set d at new) id key)
  kept_in_set d at old new id key found right h =
      rw (get-set d at id new, get-set d at key new) (ground (arith, eq_iff at id, eq_iff at key))

  set_in_place :
      (d : Dict ApiKey) (at : String) (old new : ApiKey) (id key : String)
      → (at ≡ id) ⊎ ((at ≡ key) × (Dict.get d id ≡ none))
      → Dict.get d at ≡ some old
      → new.tier ≡ tier
      → IsOfTier (row_in (Dict.set d at new) id key)
  set_in_place d at old new id key place found right =
      rw (get-set d at id new, get-set d at key new)
        (ground (arith, eq_iff at id, eq_iff at key, place))

commit_written :
    {A : Type 0} (w : Write) (d : PersistedData) (a : A) (s : Store)
    → w ≡ written
    → (commit w d a s).0 ≡ returned a
unfolding commit
commit_written written d a s e = refl
commit_written (broken n m) d a s e = cc

module _ (sha256 : String → String) (tier : Tier) where
  abbrev pub KeyIsOfTier : Store → String → Type 0
  KeyIsOfTier s key = IsOfTier tier (get_api_key sha256 key s)

  abbrev row : Store → String → Option ApiKey
  row s key = row_in s.api_keys (api_key_lookup_id sha256 key) key

  get_api_key-row : (s : Store) (key : String) → get_api_key sha256 key s ≡ row s key
  unfolding get_api_key find_api_key
  get_api_key-row s key = ground arith

  -- Where the row of a key stands.
  place_of_found :
      (s : Store) (key id : String) (k : ApiKey)
      → find_api_key sha256 key s ≡ some (id, k)
      → (Dict.get s.api_keys id ≡ some k)
        × ((id ≡ api_key_lookup_id sha256 key)
            ⊎ ((id ≡ key) × (Dict.get s.api_keys (api_key_lookup_id sha256 key) ≡ none)))
  unfolding find_api_key
  place_of_found s key id k e =
      elim (Option-cases (Dict.get s.api_keys (api_key_lookup_id sha256 key))) [
        | inl f ↦ elim (Option-cases (Dict.get s.api_keys key)) [
          | inl g ↦ let h = rw (f, g, find_api_key) at e in cc
          | inr (r, g) ↦
              let h = rw (f, g, find_api_key) at e in
              ((ground (arith, h, g)), inr ((ground (arith, h)), f))
        ]
        | inr (r, f) ↦
            let h = rw (f, find_api_key) at e in ((ground (arith, h, f)), inl (ground (arith, h)))
      ]

  rows_of_changed :
      (w : Write) (s : Store) (key id : String) (k : ApiKey)
      → find_api_key sha256 key s ≡ some (id, k)
      → (update_api_key_tier sha256 tier w key s).1.api_keys
        ≡ Dict.set s.api_keys id (record k { tier = tier })
  unfolding update_api_key_tier change_api_key
  rows_of_changed w s key id k e =
      rw (e, change_api_key) (ap (λ d. d.api_keys) (data_in_memory-commit w _ _ s))

  unchanged :
      (w : Write) (s : Store) (key : String)
      → find_api_key sha256 key s ≡ none
      → (update_api_key_tier sha256 tier w key s).1 ≡ s
  unfolding update_api_key_tier change_api_key
  unchanged w s key e = rw (e, change_api_key) refl

  update-keeps :
      (w : Write) (s : Store) (key other : String)
      → KeyIsOfTier s other
      → KeyIsOfTier (update_api_key_tier sha256 tier w key s).1 other
  update-keeps w s key other h = elim (Option-cases (find_api_key sha256 key s)) [
    | inl e ↦ rw (unchanged w s key e) h
    | inr ((id, k), e) ↦
        rw
          (
            get_api_key-row (update_api_key_tier sha256 tier w key s).1 other,
            rows_of_changed w s key id k e,
          )
          (kept_in_set tier s.api_keys id k (record k { tier = tier }) _ other
            (place_of_found s key id k e).0 refl (rw (get_api_key-row s other) at h))
  ]

  update-sets :
      (w : Write) (s : Store) (key : String)
      → KeyIsOfTier (update_api_key_tier sha256 tier w key s).1 key
  unfolding get_api_key
  update-sets w s key = elim (Option-cases (find_api_key sha256 key s)) [
    | inl e ↦ rw (unchanged w s key e, e, get_api_key) tt
    | inr ((id, k), e) ↦
        let (found, place) = place_of_found s key id k e in
        rw
          (
            get_api_key-row (update_api_key_tier sha256 tier w key s).1 key,
            rows_of_changed w s key id k e,
          )
          (set_in_place tier s.api_keys id k (record k { tier = tier }) _ key place found refl)
  ]

  module _ (fate : String → Write) where
    rest_or_stop :
        (ids : List String) (r : Outcome Bool) (t : Store) (key : String)
        → KeyIsOfTier t key
        → KeyIsOfTier (set_tiers sha256 fate ids tier t).1 key
        → KeyIsOfTier
            (elim r as (λ _. Outcome (Unit {0}) × Store) [
              | threw m ↦ (threw m, t)
              | returned b ↦ set_tiers sha256 fate ids tier t
            ]).1
            key
    rest_or_stop ids (threw m) t key h k = h
    rest_or_stop ids (returned b) t key h k = k

    set_tiers-keeps :
        (ids : List String) (s : Store) (key : String)
        → KeyIsOfTier s key
        → KeyIsOfTier (set_tiers sha256 fate ids tier s).1 key
    unfolding set_tiers
    set_tiers-keeps [] s key h = h
    set_tiers-keeps (id ∷ ids) s key h =
        let t = (update_api_key_tier sha256 tier (fate id) id s).1 in
        let k = update-keeps (fate id) s id key h in
        rest_or_stop ids (update_api_key_tier sha256 tier (fate id) id s).0 t key k
          (set_tiers-keeps ids t key k)

    returned_of_written :
        (s : Store) (key : String)
        → fate key ≡ written
        → (b : Bool) × ((update_api_key_tier sha256 tier (fate key) key s).0 ≡ returned b)
    unfolding update_api_key_tier change_api_key
    returned_of_written s key e = elim (Option-cases (find_api_key sha256 key s)) [
      | inl f ↦ (false, rw (f, change_api_key) refl)
      | inr (r, f) ↦ (true, rw (f, change_api_key) (commit_written (fate key) _ true s e))
    ]

    goes_on :
        (id : String) (ids : List String) (s : Store)
        → fate id ≡ written
        → set_tiers sha256 fate (id ∷ ids) tier s
          ≡ set_tiers sha256 fate ids tier (update_api_key_tier sha256 tier (fate id) id s).1
    unfolding set_tiers
    goes_on id ids s e = rw ((returned_of_written s id e).1, set_tiers) refl

    -- With writes that work, every key of the list has the tier.
    pub set_tiers-sets :
        (ids : List String) (s : Store)
        → ((id : String) → fate id ≡ written)
        → All (KeyIsOfTier (set_tiers sha256 fate ids tier s).1) ids
    set_tiers-sets [] s works = tt
    set_tiers-sets (id ∷ ids) s works =
        let t = (update_api_key_tier sha256 tier (fate id) id s).1 in
        subst (λ x. All (KeyIsOfTier x.1) (id ∷ ids)) (sym (goes_on id ids s (works id)))
          (set_tiers-keeps ids t id (update-sets (fate id) s id), set_tiers-sets ids t works)

module _ (sha256 : String → String) (fate : String → Write) (user : StoredUser) where
  -- The row of the user has the tier and the other changes, and the keys that it lists have the tier.
  pub record IsOnTier (tier : Tier) (u : StoredUser) (a : Accounts) : Type 0 where
    pub stored : Dict.get a.users.users user.id ≡ some u
    pub tiered : u.tier ≡ tier
    pub keys : All (KeyIsOfTier sha256 tier a.store) u.api_key_ids

  row-update :
      (f : StoredUser → StoredUser) (u : StoredUser) (a : Accounts)
      → Dict.get a.users.users user.id ≡ some u
      → find_by_id user.id (update user.id f a.users) ≡ some (f u)
  unfolding find_by_id update
  row-update f u a e =
      rw (e, update) (ground (arith, get-set a.users.users user.id user.id (f u), eq_refl user.id))

  updated :
      (tier : Tier) (change : StoredUser → StoredUser) (u : StoredUser) (a : Accounts)
      → Dict.get a.users.users user.id ≡ some u
      → (update_user_subscription sha256 fate user (some tier) change a).1 ≡ record {
        users = update user.id (λ v. with_tier (some tier) (change v)) a.users;
        store = (set_tiers sha256 fate (change u).api_key_ids tier a.store).1;
      }
  unfolding update_user_subscription
  updated tier change u a e =
      rw (row-update (λ v. with_tier (some tier) (change v)) u a e, update_user_subscription) refl

  -- If the file writes work, a change of the subscription to a tier leaves the account and each of its
  -- keys on that tier.
  pub update_user_subscription-IsOnTier :
      (tier : Tier) (change : StoredUser → StoredUser) (u : StoredUser) (a : Accounts)
      → ((id : String) → fate id ≡ written)
      → Dict.get a.users.users user.id ≡ some u
      → IsOnTier tier
          (with_tier (some tier) (change u))
          (update_user_subscription sha256 fate user (some tier) change a).1
  unfolding find_by_id
  update_user_subscription-IsOnTier tier change u a works e =
      rw (updated tier change u a e) (record {
        stored = row-update (λ v. with_tier (some tier) (change v)) u a e;
        tiered = refl;
        keys = set_tiers-sets sha256 tier fate (change u).api_key_ids a.store works;
      })

-- If the file writes work, the end of a user's subscription leaves the account and each of its keys on
-- the free tier, and the account without a subscription. The user is the one of the event's customer,
-- has this subscription or none, and is stored under its own id.
handle_subscription_deleted-IsOnTier :
    (sha256 : String → String) (fate : String → Write) (stripe : Stripe) (s : Subscription)
    (u : StoredUser) (a : Accounts)
    → ((id : String) → fate id ≡ written)
    → find_by_stripe_customer_id s.customer a.users ≡ some u
    → is_other sha256 fate stripe u s.id ≡ false
    → Dict.get a.users.users u.id ≡ some u
    → IsOnTier sha256 fate u free
        (record u { subscription_status = canceled; stripe_subscription_id = ""; tier = free })
        (handle_subscription_deleted sha256 fate stripe s a).1
unfolding handle_subscription_deleted
handle_subscription_deleted-IsOnTier sha256 fate stripe s u a works found mine row =
    rw (found, mine, handle_subscription_deleted)
      (update_user_subscription-IsOnTier sha256 fate u free
        (λ v. record v { subscription_status = canceled; stripe_subscription_id = "" }) u a works
        row)
