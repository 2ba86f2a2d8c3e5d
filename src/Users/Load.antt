-- ===== src/Users/Load.antt =====
-- src/user-store.ts: `load`, which reads the accounts from their file, repairs rows of earlier versions,
-- and rebuilds the index by e-mail address.
pub mod Repaired
use mathlib.Core.List.{map}
use xrplink.Dict
use xrplink.Dict.{Dict}
use xrplink.Keys.{is_plaintext_api_key, hash_api_key}
use xrplink.Prelude.Text.{lower}
use xrplink.Store.{Tier}
use xrplink.Users.{SubscriptionStatus}
use xrplink.Prelude.{Option, ℕ}
use xrplink.X402.{Save, saved, save_failed}
use xrplink.Prelude.{
  String, Bool, false, not, ◌||◌, none, some, List, [], ◌∷◌, ◌==◌, leb, if◌then◌else◌, any,
}

-- A row of the file: `StoredUser`, but a row may lack the array of key ids.
pub record FileUser : Type 0 where
  pub id : String
  pub email : String
  pub password_hash : String
  pub api_key_ids : Option (List String)
  pub stripe_customer_id : String
  pub stripe_subscription_id : String
  pub tier : Tier
  pub subscription_status : SubscriptionStatus
  pub created_at : ℕ
  pub billing_period_start : Option ℕ
  pub billing_period_end : Option ℕ
  pub receipt_tx_hashes : Option (List String)
  pub session_version : Option ℕ
  pub reset_token_hash : Option String
  pub reset_token_expires_at : Option ℕ

-- `raw.users || raw`: the file is the table itself, or a table under the name `users`.
pub data UsersFile : Type 0 where
  absent : UsersFile
  table wrapped : Dict FileUser → UsersFile
  malformed : String → UsersFile

pub record LoadedUsers : Type 0 where
  pub users : Dict FileUser
  pub email_index : Dict String

-- What `load` answers, and the file after it.
pub record Loaded : Type 0 where
  pub memory : LoadedUsers
  pub file : UsersFile

abbrev pub no_users : LoadedUsers
no_users = record { users = []; email_index = [] }

-- `emailIndex` of the rows: a later row of the same address wins.
unfoldable pub email_index_of : Dict FileUser → Dict String → Dict String
email_index_of [] index = index
email_index_of ((id, u) ∷ rows) index = email_index_of rows (Dict.set index (lower u.email) id)

-- Versions are whole numbers.
abbrev pub has_version : FileUser → Bool
has_version u = elim u.session_version [ none ↦ false | some v ↦ leb 1 v ]

module _ (sha256 : String → String) where
  abbrev pub hashed_id : String → String
  hashed_id k = if is_plaintext_api_key k then hash_api_key sha256 k else k

  -- The ids of a row that has the array.
  abbrev pub hashed_ids : Option (List String) → Option (List String)
  hashed_ids none = none
  hashed_ids (some ids) = some (map hashed_id ids)

  abbrev pub has_secret : Option (List String) → Bool
  has_secret none = false
  has_secret (some ids) = any (λ k. not (hashed_id k == k)) ids

  abbrev pub needs_repair : FileUser → Bool
  needs_repair u = has_secret u.api_key_ids || not (has_version u)

  unfoldable pub repair : FileUser → FileUser
  repair u = record u {
    api_key_ids = hashed_ids u.api_key_ids;
    session_version = if has_version u then u.session_version else some 1;
  }

  unfoldable pub repair_rows : Dict FileUser → Dict FileUser
  repair_rows [] = []
  repair_rows ((id, u) ∷ rows) = (id, repair u) ∷ repair_rows rows

  unfoldable pub needs_persist : Dict FileUser → Bool
  needs_persist [] = false
  needs_persist ((id, u) ∷ rows) = needs_repair u || needs_persist rows

  abbrev loaded : Dict FileUser → LoadedUsers
  loaded rows = record { users = repair_rows rows; email_index = email_index_of rows [] }

  abbrev persisted : Save → Dict FileUser → UsersFile → Loaded
  persisted saved rows file = record { memory = loaded rows; file = table (repair_rows rows) }
  persisted (save_failed m) rows file = record { memory = no_users; file = file }

  abbrev pub load_rows : Save → Dict FileUser → UsersFile → Loaded
  load_rows w rows file =
      if needs_persist rows
      then persisted w rows file
      else record { memory = loaded rows; file = file }

  -- A write of repaired rows that throws is caught with the rest: no accounts are answered.
  unfoldable pub load_users : Save → UsersFile → Loaded
  load_users w absent = record { memory = no_users; file = absent }
  load_users w (malformed m) = record { memory = no_users; file = malformed m }
  load_users w (table rows) = load_rows w rows (table rows)
  load_users w (wrapped rows) = load_rows w rows (wrapped rows)
