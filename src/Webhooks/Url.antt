-- ===== src/Webhooks/Url.antt =====
-- src/webhook-url.ts: the checks on a webhook's URL, when it is registered and again at delivery. The
-- URL parser, `isIP` and the resolver are parameters.
use Prim.Native.Char.{code}
use xrplink.Prelude.Text.{is_digit, lower}
use xrplink.Prelude.Split.{lacks, ends_with}
use xrplink.Webhooks.Addresses.{
  parse_decimal_or_hex_ipv4, parse_canonical_ipv4, is_private_ipv4, is_private_ipv6,
  is_blocked_ip_address,
}
use xrplink.Prelude.{
  ℕ, String, ◌++◌, ◌⊎◌, inl, inr, Bool, false, not, ◌&&◌, ◌||◌, Option, none, some, List, [], ◌∷◌,
  ◌==◌, ltb, nat_eq, if◌then◌else◌, is_some, any,
}

abbrev blocked_hostnames : List String
blocked_hostnames =
    "localhost" ∷ "localhost.localdomain" ∷ "ip6-localhost" ∷ "ip6-loopback"
    ∷ "metadata.google.internal" ∷ "metadata" ∷ "metadata.google" ∷ "metadata.aws" ∷ "instance-data"
    ∷ "kubernetes.default" ∷ "kubernetes.default.svc" ∷ []

add_unless_dots : ℕ → String → String → String
add_unless_dots c s rest = if rest == "" && nat_eq c b'.' then "" else s ++ rest

unfoldable pub strip_trailing_dots : String → String
unfolding add_unless_dots
strip_trailing_dots String.[] = ""
strip_trailing_dots (String.◌∷◌ c s) =
    add_unless_dots (code c) (String.◌∷◌ c "") (strip_trailing_dots s)

-- The membership test and the loop over the names, which tests it again.
unfoldable pub is_blocked_hostname : String → Bool
is_blocked_hostname hostname =
    let host = strip_trailing_dots (lower hostname) in
    any (λ blocked. host == blocked) blocked_hostnames
    || ((ends_with host ".localhost" || ends_with host ".local")
        || any (λ blocked. (host == blocked) || ends_with host ("." ++ blocked)) blocked_hostnames)

dot_then_digit : String → Bool
dot_then_digit (String.◌∷◌ c (String.◌∷◌ d s)) = nat_eq (code c) b'.' && is_digit (code d)
dot_then_digit s = false

after_digits : String → Bool
after_digits String.[] = false
after_digits (String.◌∷◌ c s) =
    let rest = after_digits s in if is_digit (code c) then rest else dot_then_digit (String.◌∷◌ c s)

-- `/^\d+\.\d+/`
unfoldable pub starts_like_ipv4 : String → Bool
unfolding after_digits dot_then_digit
starts_like_ipv4 String.[] = false
starts_like_ipv4 (String.◌∷◌ c s) = is_digit (code c) && after_digits s

-- What `new URL` gives.
pub record ParsedUrl : Type 0 where
  pub protocol : String
  pub username : String
  pub password : String
  pub hostname : String

-- The messages of `UnsafeWebhookUrlError`.
pub data UnsafeUrl : Type 0 where
  not_valid not_https has_credentials empty_host blocked_host : UnsafeUrl
  blocked_form private_or_mapped private_address non_canonical no_addresses : UnsafeUrl
  resolves_to_private : UnsafeUrl
  unresolved : String → UnsafeUrl
  redirected : ℕ → UnsafeUrl

pub data Resolved : Type 0 where
  addresses : List String → Resolved
  failed : String → Resolved

module _ (parse_url : String → Option ParsedUrl) (is_ip : String → ℕ) where
  -- The tests on the host, in their order.
  unfoldable pub host_error : String → Option UnsafeUrl
  host_error hostname =
      if hostname == ""
      then some empty_host
      else if is_blocked_hostname hostname
      then some blocked_host
      else if is_some (parse_decimal_or_hex_ipv4 hostname)
      then some blocked_form
      else if not (lacks b':' hostname)
          && (is_private_ipv6 hostname || is_blocked_ip_address is_ip hostname)
      then some private_or_mapped
      else if elim (parse_canonical_ipv4 hostname) [ none ↦ false | some d ↦ is_private_ipv4 d ]
      then some private_address
      else if ltb 0 (is_ip hostname) && is_blocked_ip_address is_ip hostname
      then some private_address
      else if starts_like_ipv4 hostname
          && (not (is_some (parse_canonical_ipv4 hostname)) && not (nat_eq (is_ip hostname) 6))
      then some non_canonical
      else none

  unfoldable pub parse_https_url : String → UnsafeUrl ⊎ ParsedUrl
  parse_https_url url = elim (parse_url url) [
    | none ↦ inl not_valid
    | some parsed ↦
        if not (parsed.protocol == "https:")
        then inl not_https
        else if not (parsed.username == "") || not (parsed.password == "")
        then inl has_credentials
        else (elim (host_error (strip_trailing_dots (lower parsed.hostname))) [
          | some e ↦ inl e
          | none ↦ inr parsed
        ])
  ]

  -- `dns` is what the resolver answers now.
  unfoldable pub resolve_addresses : (String → Resolved) → String → Resolved
  resolve_addresses dns hostname =
      if ltb 0 (is_ip hostname)
      then addresses (hostname ∷ [])
      else (elim (parse_decimal_or_hex_ipv4 hostname) [
        | some d ↦ addresses (d ∷ [])
        | none ↦ elim (parse_canonical_ipv4 hostname) [
          | some d ↦ addresses (d ∷ [])
          | none ↦ dns hostname
        ]
      ])

  abbrev addresses_error : Resolved → Option UnsafeUrl
  addresses_error (failed m) = some (unresolved m)
  addresses_error (addresses []) = some no_addresses
  addresses_error (addresses (a ∷ as')) =
      if any (is_blocked_ip_address is_ip) (a ∷ as') then some resolves_to_private else none

  -- `none` if the URL is safe now.
  unfoldable pub assert_safe_webhook_url : (String → Resolved) → String → Option UnsafeUrl
  assert_safe_webhook_url dns url = elim (parse_https_url url) [
    | inl e ↦ some e
    | inr parsed ↦
        addresses_error (resolve_addresses dns (strip_trailing_dots (lower parsed.hostname)))
  ]
