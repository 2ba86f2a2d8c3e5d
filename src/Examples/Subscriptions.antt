-- ===== src/Examples/Subscriptions.antt =====
-- A run of src/billing.ts.
use xrplink.Prelude.{String, ◌≡◌, refl, true, none, some, [], ◌∷◌}
use xrplink.Dict
use xrplink.Examples.Stores.{sha256, digest, empty_store}
use xrplink.Store.{paid, free, written, Write}
use xrplink.Store.ApiKeys.{new_api_key}
use xrplink.Users.{StoredUser, new_user, active, canceled, find_by_stripe_customer_id}
use xrplink.Billing.{with_tier, update_user_subscription}
use xrplink.Billing.Objects.{Subscription, Accounts, Stripe}
use xrplink.Billing.Tiers.{update_user_subscription-IsOnTier, IsOnTier}

abbrev bob : StoredUser
bob = record (new_user 5 "u2" "bob@example.com" "hash") {
  api_key_ids = digest ∷ [];
  stripe_customer_id = "cus_1";
  stripe_subscription_id = "sub_1";
  tier = paid;
  subscription_status = active;
}

abbrev accounts : Accounts
accounts = record {
  users = record { users = ("u2", bob) ∷ []; email_index = ("bob@example.com", "u2") ∷ [] };
  store = record empty_store {
    data_in_memory = record empty_store.data_in_memory {
      api_keys = (digest, new_api_key sha256 5 "sk_live_0123456789abcdef" "User: b" paid) ∷ [];
    };
  };
}

abbrev stripe : Stripe
stripe = record {
  configured = true;
  paid_price_id = "price_1";
  pro_price_id = "price_2";
  retrieve_price = λ id. none;
  retrieve_subscription = λ id. none;
  construct_event = λ body signature. none;
}

abbrev ended : Subscription
ended = record {
  id = "sub_1";
  customer = "cus_1";
  status = "canceled";
  price = none;
  period_start = none;
  period_end = none;
}

abbrev works : String → Write
works id = written

bob_found : find_by_stripe_customer_id "cus_1" accounts.users ≡ some bob
unfolding find_by_stripe_customer_id
bob_found = refl

bob_row : Dict.get accounts.users.users "u2" ≡ some bob
unfolding Dict.get
bob_row = refl

subscribed_example :
    IsOnTier sha256 works bob free
      (with_tier (some free) (record bob { subscription_status = canceled }))
      (update_user_subscription sha256 works bob
        (some free)
        (λ u. record u { subscription_status = canceled })
        accounts).1
subscribed_example =
    update_user_subscription-IsOnTier sha256 works bob free
      (λ u. record u { subscription_status = canceled }) bob accounts (λ id. refl) bob_row
