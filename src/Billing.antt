-- ===== src/Billing.antt =====
-- src/billing.ts: what Stripe's events do to an account and to its keys. Stripe is a parameter. The
-- checkout and portal sessions, which only ask Stripe for a URL, are not modelled.
pub mod Objects
pub mod Tiers
use xrplink.Prelude.{
  ℕ, String, Bool, true, false, not, ◌&&◌, ◌||◌, Option, none, some, List, [], ◌∷◌, ◌==◌, nat_eq,
  if◌then◌else◌, get_or, truthy,
}
use xrplink.Store.{Tier, free, paid, pro, Store, Write, Outcome, returned, threw}
use xrplink.Store.ApiKeys.{update_api_key_tier}
use xrplink.Users.{
  StoredUser, UserStore, SubscriptionStatus, active, past_due, canceled, find_by_id,
  find_by_stripe_customer_id, update,
}
use xrplink.Billing.Objects.{
  Accounts, Event, Invoice, LinePrice, Price, Session, Stripe, Subscription, checkout_completed,
  get_price_info, invoice_paid, lookup_key_to_tier, payment_failed, price_id,
  price_id_from_checkout_session, price_object, resolve_checkout_tier, subscription_deleted,
  subscription_updated, unhandled,
}

abbrev pub with_tier : Option Tier → StoredUser → StoredUser
with_tier none u = u
with_tier (some tier) u = record u { tier = tier }

module _ (sha256 : String → String) (fate : String → Write) where
  -- The loop over the keys of a user; a write that throws ends it. `fate` is that of each key's write.
  unfoldable pub set_tiers : List String → Tier → Store → Outcome (Unit {0}) × Store
  set_tiers [] tier s = (returned tt, s)
  set_tiers (id ∷ ids) tier s =
      let (r, t) = update_api_key_tier sha256 tier (fate id) id s in
      let rest = set_tiers ids tier t in elim r [ threw m ↦ (threw m, t) | returned b ↦ rest ]

  -- `updateUserSubscription`: `change` is what the other updates do to the row.
  unfoldable pub update_user_subscription :
      StoredUser
      → Option Tier
      → (StoredUser → StoredUser)
      → Accounts
      → Outcome (Unit {0}) × Accounts
  update_user_subscription user tier change a =
      let users = update user.id (λ u. with_tier tier (change u)) a.users in
      elim tier [
        | none ↦ (returned tt, record a { users = users })
        | some t ↦ elim (find_by_id user.id users) [
          | none ↦ (returned tt, record a { users = users })
          | some updated ↦
              let (r, s) = set_tiers updated.api_key_ids t a.store in
              (r, record { users = users; store = s })
        ]
      ]

  module _ (stripe : Stripe) where
    unfoldable pub handle_checkout_completed : Session → Accounts → Outcome (Unit {0}) × Accounts
    handle_checkout_completed session a = elim (truthy session.user_id) [
      | none ↦ (returned tt, a)
      | some user_id ↦ elim (find_by_id user_id a.users) [
        | none ↦ (returned tt, a)
        | some user ↦
            let subscription : Option Subscription =
              if stripe.configured
              then elim (truthy session.subscription) [
                | none ↦ none
                | some id ↦ stripe.retrieve_subscription id
              ]
              else none in
            elim (resolve_checkout_tier stripe session subscription) [
              | none ↦ (returned tt, a)
              | some tier ↦
                  update_user_subscription user (some tier)
                    (λ u. record u {
                      subscription_status = active;
                      stripe_customer_id = session.customer;
                      stripe_subscription_id = get_or session.subscription "";
                      billing_period_start = elim subscription [
                        | none ↦ none
                        | some s ↦ s.period_start
                      ];
                      billing_period_end = elim subscription [
                        | none ↦ none
                        | some s ↦ s.period_end
                      ];
                    })
                    a
            ]
      ]
    ]

    -- The user has a subscription, and it is another one.
    abbrev pub is_other : StoredUser → String → Bool
    is_other user id =
        not (user.stripe_subscription_id == "") && not (user.stripe_subscription_id == id)

    abbrev pub status_of : String → SubscriptionStatus
    status_of status =
        if status == "past_due"
        then past_due
        else if (status == "canceled") || (status == "unpaid")
        then canceled
        else active

    unfoldable pub handle_subscription_updated :
        Subscription → Accounts → Outcome (Unit {0}) × Accounts
    handle_subscription_updated s a = elim (find_by_stripe_customer_id s.customer a.users) [
      | none ↦ (returned tt, a)
      | some user ↦
          if is_other user s.id
          then (returned tt, a)
          else elim (truthy (elim s.price [ none ↦ none | some p ↦ p.id ])) [
            | none ↦ (returned tt, a)
            | some id ↦ elim (get_price_info stripe id) [
              | none ↦ (returned tt, a)
              | some tier ↦
                  update_user_subscription user (some tier)
                    (λ u. record u {
                      subscription_status = status_of s.status;
                      stripe_subscription_id = s.id;
                      billing_period_start = s.period_start;
                      billing_period_end = s.period_end;
                    })
                    a
            ]
          ]
    ]

    unfoldable pub handle_subscription_deleted :
        Subscription → Accounts → Outcome (Unit {0}) × Accounts
    handle_subscription_deleted s a = elim (find_by_stripe_customer_id s.customer a.users) [
      | none ↦ (returned tt, a)
      | some user ↦
          if is_other user s.id
          then (returned tt, a)
          else update_user_subscription user (some free)
              (λ u. record u { subscription_status = canceled; stripe_subscription_id = "" }) a
    ]

    abbrev is_past_due : SubscriptionStatus → Bool
    is_past_due past_due = true
    is_past_due _ = false

    abbrev pub set_status :
        SubscriptionStatus → StoredUser → Accounts → Outcome (Unit {0}) × Accounts
    set_status status user a =
        update_user_subscription user none (λ u. record u { subscription_status = status }) a

    unfoldable pub handle_invoice_payment_failed :
        Invoice → Accounts → Outcome (Unit {0}) × Accounts
    handle_invoice_payment_failed invoice a = elim (truthy invoice.customer) [
      | none ↦ (returned tt, a)
      | some customer ↦ elim (find_by_stripe_customer_id customer a.users) [
        | none ↦ (returned tt, a)
        | some user ↦
            if is_past_due user.subscription_status
            then (returned tt, a)
            else set_status past_due user a
      ]
    ]

    abbrev clear_past_due : StoredUser → Accounts → Outcome (Unit {0}) × Accounts
    clear_past_due user a =
        if is_past_due user.subscription_status then set_status active user a else (returned tt, a)

    abbrev same_start : Option ℕ → Option ℕ → Bool
    same_start none none = true
    same_start none (some n) = false
    same_start (some m) none = false
    same_start (some m) (some n) = nat_eq m n

    unfoldable pub renew : StoredUser → Subscription → Accounts → Outcome (Unit {0}) × Accounts
    renew user s a =
        if same_start user.billing_period_start s.period_start
        then clear_past_due user a
        else update_user_subscription user none
            (λ u. record u {
              subscription_status = active;
              billing_period_start = s.period_start;
              billing_period_end = s.period_end;
            })
            a

    unfoldable pub handle_invoice_paid : Invoice → Accounts → Outcome (Unit {0}) × Accounts
    handle_invoice_paid invoice a = elim (truthy invoice.customer) [
      | none ↦ (returned tt, a)
      | some customer ↦ elim (find_by_stripe_customer_id customer a.users) [
        | none ↦ (returned tt, a)
        | some user ↦ elim (truthy invoice.subscription) [
          | none ↦ clear_past_due user a
          | some id ↦
              if not stripe.configured
              then clear_past_due user a
              else elim (stripe.retrieve_subscription id) [
                | none ↦ clear_past_due user a
                | some s ↦ renew user s a
              ]
        ]
      ]
    ]

    unfoldable pub handle_event : Event → Accounts → Outcome (Unit {0}) × Accounts
    handle_event (checkout_completed session) a = handle_checkout_completed session a
    handle_event (subscription_updated s) a = handle_subscription_updated s a
    handle_event (subscription_deleted s) a = handle_subscription_deleted s a
    handle_event (payment_failed invoice) a = handle_invoice_payment_failed invoice a
    handle_event (invoice_paid invoice) a = handle_invoice_paid invoice a
    handle_event unhandled a = (returned tt, a)

    -- The status of the answer. What a handler throws is logged only.
    unfoldable pub handle_webhook : String → String → Accounts → ℕ × Accounts
    handle_webhook body signature a =
        if not stripe.configured then (200, a) else elim (stripe.construct_event body signature) [
          | none ↦ (400, a)
          | some event ↦ (200, (handle_event event a).1)
        ]
