-- ===== src/Examples/Stores.antt =====
-- Runs of src/store.ts, src/api-keys.ts and src/rate-limit.ts.
use xrplink.Prelude.{
  ℕ, ◌-◌, ◌≤◌, ◌<◌, min, String, ◌≡◌, refl, ◌≢◌, true, false, none, some, List, [], ◌∷◌, arith,
  eq_iff,
}
use xrplink.Dict
use xrplink.Keys.{api_key_lookup_id, IsHexDigest, is_api_key_hash, is_plaintext_api_key}
use xrplink.Prelude.Text.{split_last_colon, lower}
use xrplink.Store.{commit, Store, written, broken, returned, free}
use xrplink.Store.ApiKeys.{rekey_attestation_usage}
use xrplink.Store.ApiKeys.Rekey.{used_in, IsFree, get_attestation_usage-rekey_attestation_usage}
use xrplink.Store.Attestations.{
  no_updates, create_attestation, update_attestation, get_by_tx_hash, new_attestation,
}
use xrplink.Store.Attestations.Runs
use xrplink.Store.Attestations.Runs.{creating, updating, run-IsIndexed}
use xrplink.Store.Attestations.Index.{IsIndexed, get_by_tx_hash-create_attestation}
use xrplink.Store.Usage.{get_attestation_usage, usage_key}
use xrplink.Store.Usage.Laws.{QuotaCall, reserve, release, used_at, run, used_at-run-le}
use xrplink.Store.ApiKeys.{new_api_key}
use xrplink.RateLimit.{Windows}
use xrplink.RateLimit.Budget.{Call, calls_on, allowed_on, allowed_on-open}

abbrev pub empty_store : Store
empty_store = record {
  data_in_memory = record {
    attestations = [];
    tx_hash_index = [];
    api_keys = [];
    webhooks = [];
    attestation_usage = [];
  };
  files = record { attestations = []; api_keys = []; webhooks = []; attestation_usage = [] };
  last_error = none;
}

-- A stand-in for SHA-256, the same for every text.
abbrev pub digest : String
digest = "0123456789abcdef0123456789abcdef0123456789abcdef0123456789abcdef"

abbrev pub sha256 : String → String
sha256 value = digest

abbrev pub secret : String
secret = "sk_live_0123456789abcdef"

pub digest-IsHexDigest : IsHexDigest sha256
unfolding is_api_key_hash
digest-IsHexDigest value = refl

secret_plain : is_plaintext_api_key secret ≡ true
unfolding is_plaintext_api_key
secret_plain = refl

secret_raw : is_api_key_hash secret ≡ false
unfolding is_api_key_hash
secret_raw = refl

abbrev pub key_store : Store
key_store = record empty_store {
  data_in_memory = record empty_store.data_in_memory {
    api_keys = (digest, new_api_key sha256 5 secret "User: a" free) ∷ [];
    attestation_usage = ("k:17", 1) ∷ [];
  };
}

-- Two requests on one key in one period, the first of which gives its slot back, and a third.
abbrev calls : List QuotaCall
calls =
    reserve written "k" "17" 2
    ∷ (reserve (broken 3 "disk full") "k" "17" 2
        ∷ (release written "k" "17" ∷ (reserve written "k" "17" 2 ∷ [])))

two_le_two : 2 ≤ 2
two_le_two = omega arith

one_le_two : used_at "k:17" key_store ≤ 2
unfolding Dict.get
one_le_two = omega arith

run_example : used_at "k:17" (run sha256 calls key_store) ≤ 2
run_example =
    used_at-run-le sha256 calls key_store "k:17" 2
      ((λ _. two_le_two), ((λ _. two_le_two), (tt, ((λ _. two_le_two), tt)))) one_le_two

below_two : used_at (usage_key sha256 "k" "17") key_store < 2
unfolding Dict.get usage_key is_api_key_hash is_plaintext_api_key
below_two = omega arith

empty_store-IsIndexed : IsIndexed empty_store.data_in_memory
unfolding Dict.get
empty_store-IsIndexed = record {
  present = λ h id e. cc;
  named = λ h id e. cc;
  hashed = λ h id a e f. cc;
  listed = λ id a e. cc;
}

id_named : ◌≢◌ {A = String} "id1" ""
id_named e = cc

other_id_named : ◌≢◌ {A = String} "id2" ""
other_id_named e = cc

no_row : Dict.get empty_store.attestations "id1" ≡ none
unfolding Dict.get
no_row = refl

abbrev one_row : Store
one_row = record empty_store {
  data_in_memory = record empty_store.data_in_memory {
    attestations = ("id1", new_attestation 7 "id1" "AB" none) ∷ [];
    tx_hash_index = ("ab", "id1") ∷ [];
  };
}

one_row-IsIndexed : IsIndexed one_row.data_in_memory
unfolding create_attestation Dict.get Dict.set commit lower
one_row-IsIndexed =
    run-IsIndexed (creating written 7 "id1" "AB" none ∷ []) empty_store ((id_named, no_row), tt)
      empty_store-IsIndexed

kept_index_example :
    IsIndexed
      (Runs.run
        (updating (broken 0 "disk full") 9 "id1" no_updates
          ∷ creating written 9 "id2" "ab" none
          ∷ [])
        one_row).data_in_memory
unfolding create_attestation update_attestation Dict.get Dict.set commit lower
kept_index_example =
    run-IsIndexed
      (updating (broken 0 "disk full") 9 "id1" no_updates ∷ creating written 9 "id2" "ab" none ∷ [])
      one_row (tt, ((other_id_named, refl), tt)) one_row-IsIndexed

same_lower : lower "ab" ≡ lower "AB"
unfolding lower
same_lower = refl

created_row :
    (create_attestation written 7 "id1" "AB" none empty_store).0
    ≡ returned (some (new_attestation 7 "id1" "AB" none))
unfolding create_attestation Dict.get commit
created_row = refl

created_example :
    let a = new_attestation 7 "id1" "AB" none in
    let t = (create_attestation written 7 "id1" "AB" none empty_store).1 in
    (get_by_tx_hash "ab" t ≡ some a)
    × (create_attestation written 8 "id2" "ab" none t ≡ (returned (some a), t))
created_example =
    get_by_tx_hash-create_attestation written written 7 8 "id1" "id2" "AB" "ab" none none
      empty_store (new_attestation 7 "id1" "AB" none) empty_store-IsIndexed id_named same_lower
      created_row

abbrev windows : Windows
windows = ("k", record { count = 1; reset_at = 1000 }) ∷ []

abbrev hits : List Call
hits =
    record { key = "k"; limit = 2; window_ms = 1000; now = 10 }
    ∷ (record { key = "other"; limit = 9; window_ms = 1000; now = 20 }
        ∷ (record { key = "k"; limit = 2; window_ms = 1000; now = 30 } ∷ []))

window_of_k : Dict.get windows "k" ≡ some (record { count = 1; reset_at = 1000 })
unfolding Dict.get
window_of_k = refl

in_time : (n : ℕ) → n < 40 → n < 1000
in_time n h = omega arith

other_key : ◌≢◌ {A = String} "other" "k"
other_key e = cc ((eq_iff "other" "k").1 e)

window_example : allowed_on "k" hits windows ≡ min (calls_on "k" hits) (2 - 1)
window_example =
    allowed_on-open hits "k" 2 (record { count = 1; reset_at = 1000 }) windows window_of_k
      (
        (λ _. (refl, in_time 10 (omega arith))),
        ((λ e. absurd (other_key e)), ((λ _. (refl, in_time 30 (omega arith))), tt)),
      )

abbrev two_keys : Store
two_keys = record empty_store {
  data_in_memory = record empty_store.data_in_memory {
    attestation_usage = ("k:17", 3) ∷ ("other:17", 5) ∷ ("k:18", 1) ∷ [];
  };
}

new_name-IsFree : IsFree sha256 "k" (usage_key sha256 "new" "17") two_keys.attestation_usage
unfolding usage_key is_api_key_hash is_plaintext_api_key
new_name-IsFree = ((λ e f. cc), ((λ e f. cc), ((λ e f. cc), tt)))

rekeyed_example :
    get_attestation_usage sha256 "new" "17"
      (rekey_attestation_usage sha256 (broken 3 "disk full") "k" "new" two_keys).1
    ≡ used_in sha256 "k" "17" two_keys.attestation_usage
rekeyed_example =
    get_attestation_usage-rekey_attestation_usage sha256 (broken 3 "disk full") "k" "new" "17"
      two_keys new_name-IsFree

used_by_k : used_in sha256 "k" "17" two_keys.attestation_usage ≡ 3
unfolding api_key_lookup_id is_api_key_hash split_last_colon is_plaintext_api_key
used_by_k = refl
