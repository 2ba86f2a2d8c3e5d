-- ===== src/Billing/Objects.antt =====
-- src/billing.ts: what Stripe reports, and the tier that a price stands for.
use xrplink.Prelude.{
  ℕ, String, Bool, not, ◌&&◌, Option, none, some, ◌==◌, if◌then◌else◌, or_else, truthy,
}
use xrplink.Store.{Tier, paid, pro, Store}
use xrplink.Users.{UserStore}

-- The `price` of the first item.
pub record Price : Type 0 where
  pub id : Option String
  pub lookup_key : Option String

pub record Subscription : Type 0 where
  pub id : String
  pub customer : String
  pub status : String
  pub price : Option Price
  pub period_start : Option ℕ
  pub period_end : Option ℕ

-- A price of a line item is a text or an object.
pub data LinePrice : Type 0 where
  price_id : String → LinePrice
  price_object : Price → LinePrice

pub record Session : Type 0 where
  pub user_id : Option String
  pub customer : String
  pub subscription : Option String
  pub line_price : Option LinePrice

pub record Invoice : Type 0 where
  pub customer : Option String
  pub subscription : Option String

pub data Event : Type 0 where
  checkout_completed : Session → Event
  subscription_updated subscription_deleted : Subscription → Event
  payment_failed invoice_paid : Invoice → Event
  unhandled : Event

-- Stripe: `none` is a call that throws. The identifiers of the two prices are those that
-- `initProducts` found, empty before.
pub record Stripe : Type 0 where
  pub configured : Bool
  pub paid_price_id : String
  pub pro_price_id : String
  pub retrieve_price : String → Option Price
  pub retrieve_subscription : String → Option Subscription
  pub construct_event : String → String → Option Event

-- The accounts and the store.
pub record Accounts : Type 0 where
  pub users : UserStore
  pub store : Store

unfoldable pub lookup_key_to_tier : Option String → Option Tier
lookup_key_to_tier lookup_key = elim (truthy lookup_key) [
  | none ↦ none
  | some key ↦
      if key == "xrplink_paid" then some paid else if key == "xrplink_pro" then some pro else none
]

unfoldable pub price_id_from_checkout_session :
    Session → Option Subscription → Option (String × Option String)
price_id_from_checkout_session session subscription =
    let of_price : Option Price → Option (String × Option String) = λ p. elim p [
      | none ↦ none
      | some q ↦ elim (truthy q.id) [ none ↦ none | some id ↦ some (id, q.lookup_key) ]
    ] in
    or_else (of_price (elim subscription [ none ↦ none | some s ↦ s.price ]))
      (elim session.line_price [
        | none ↦ none
        | some line ↦ elim line [
          | price_id id ↦ if id == "" then none else some (id, none)
          | price_object p ↦ of_price (some p)
        ]
      ])

module _ (stripe : Stripe) where
  abbrev is_price : String → String → Bool
  is_price known id = not (known == "") && (known == id)

  unfoldable pub get_price_info : String → Option Tier
  get_price_info id =
      if is_price stripe.paid_price_id id
      then some paid
      else if is_price stripe.pro_price_id id
      then some pro
      else if not stripe.configured
      then none
      else elim (stripe.retrieve_price id) [
        | none ↦ none
        | some p ↦ lookup_key_to_tier p.lookup_key
      ]

  unfoldable pub resolve_checkout_tier : Session → Option Subscription → Option Tier
  resolve_checkout_tier session subscription =
      elim (price_id_from_checkout_session session subscription) [
        | none ↦ none
        | some priced ↦ or_else (lookup_key_to_tier priced.1) (get_price_info priced.0)
      ]
