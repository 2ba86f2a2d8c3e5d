-- ===== src/Keys.antt =====
-- src/api-keys.ts: how a presented API key becomes the id under which the store keeps it. `sha256`
-- is the hex digest of Node's `crypto`, a parameter.
use Prim.Native.String.{count, slice, len}
use text.Mathlib.Text.{starts_with}
use xrplink.Prelude.{
  ℕ, ◌-◌, String, ◌++◌, ◌≡◌, Bool, true, ◌&&◌, ◌||◌, arith, ltb, leb, nat_eq, if◌then◌else◌,
}
use xrplink.Prelude.Text.{is_digit, all_chars}

abbrev pub plaintext_prefix : String
plaintext_prefix = "sk_live_"

abbrev is_lower_hex : ℕ → Bool
is_lower_hex c = is_digit c || leb b'a' c && leb c b'f'

unfoldable pub is_plaintext_api_key : String → Bool
is_plaintext_api_key value = starts_with value plaintext_prefix && ltb 20 (count value)

unfoldable pub is_api_key_hash : String → Bool
is_api_key_hash value = all_chars is_lower_hex value && nat_eq (count value) 64

-- What is relied on of SHA-256: its digest is written in 64 lower-case hex digits.
abbrev pub IsHexDigest : (String → String) → Type 0
IsHexDigest sha256 = (value : String) → is_api_key_hash (sha256 value) ≡ true

module _ (sha256 : String → String) where
  unfoldable pub hash_api_key : String → String
  hash_api_key value = sha256 value

  unfoldable pub api_key_lookup_id : String → String
  api_key_lookup_id value =
      if is_api_key_hash value
      then value
      else if is_plaintext_api_key value
      then hash_api_key value
      else value

  pub lookup_id-secret :
      (secret : String)
      → is_plaintext_api_key secret ≡ true
      → is_api_key_hash secret ≡ Bool.false
      → api_key_lookup_id secret ≡ hash_api_key secret
  unfolding api_key_lookup_id
  lookup_id-secret secret plain raw = ground arith

  -- An id is its own id: looking a key up by the id of a key finds the same row.
  api_key_lookup_id_idem :
      (value : String)
      → IsHexDigest sha256
      → api_key_lookup_id (api_key_lookup_id value) ≡ api_key_lookup_id value
  unfolding api_key_lookup_id hash_api_key
  api_key_lookup_id_idem value hex = ground (arith, hex value)

  -- The secret and its digest name one row.
  pub api_key_lookup_id-hash_api_key :
      (secret : String)
      → IsHexDigest sha256
      → is_plaintext_api_key secret ≡ true
      → is_api_key_hash secret ≡ Bool.false
      → api_key_lookup_id (hash_api_key secret) ≡ api_key_lookup_id secret
  unfolding api_key_lookup_id hash_api_key
  api_key_lookup_id-hash_api_key secret hex plain raw = ground (arith, hex secret)

pub record DisplayParts : Type 0 where
  pub key_prefix : String
  pub key_last4 : String

unfoldable pub api_key_display_parts : String → DisplayParts
api_key_display_parts plaintext = record {
  key_prefix = slice plaintext 0 12;
  key_last4 = slice plaintext (len plaintext - 4) (len plaintext);
}

unfoldable pub mask_api_key : String → String → String
mask_api_key prefix last4 = prefix ++ "…" ++ last4
