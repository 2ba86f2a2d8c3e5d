-- ===== src/Webhooks/Addresses.antt =====
-- src/webhook-url.ts: the forms of an address in a text, and the addresses that are not public. What
-- `isIP` of Node says of a text, 0, 4 or 6, is a parameter.
pub mod Ranges
use Prim.Native.Char.{code}
use Prim.Native.String
use Prim.Native.String.{count, slice, len}
use text.Mathlib.Text.{starts_with}
use mathlib.Core.List.{map}
use xrplink.Prelude.Text.{is_digit, all_chars, decimal, decimal_text, lower}
use xrplink.Prelude.Split.{split, join}
use xrplink.Prelude.{
  ℕ, ◌+◌, ◌-◌, ◌*◌, ◌/◌, ◌%◌, String, ◌≡◌, refl, Bool, true, false, not, ◌&&◌, ◌||◌, Option, none,
  some, List, [], ◌∷◌, ◌==◌, ltb, leb, nat_eq, if◌then◌else◌, is_some, get_or, length, any,
}

-- The capture of one to four hex digits, or a long hex number.
abbrev is_hex : ℕ → Bool
is_hex c = is_digit c || (leb b'a' c && leb c b'f') || (leb b'A' c && leb c b'F')

abbrev hex_digit : ℕ → ℕ
hex_digit c = if leb b'a' c then c - 87 else if leb b'A' c then c - 55 else c - 48

hex_from : ℕ → String → ℕ
hex_from n String.[] = n
hex_from n (String.◌∷◌ c s) = hex_from (n * 16 + hex_digit (code c)) s

-- `Number.parseInt(s, 16)` of a text of hex digits.
unfoldable pub parse_hex : String → ℕ
unfolding hex_from
parse_hex s = hex_from 0 s

-- `s.slice(n)`
abbrev pub from : ℕ → String → String
from n s = slice s n (len s)

unfoldable pub ipv4_from_uint : ℕ → String
ipv4_from_uint n = join "." (
    decimal_text (n / 16777216 % 256)
    ∷ decimal_text (n / 65536 % 256)
    ∷ decimal_text (n / 256 % 256)
    ∷ decimal_text (n % 256)
    ∷ [])

abbrev in_uint32 : ℕ → Option String
in_uint32 n = if leb n 0xffffffff then some (ipv4_from_uint n) else none

abbrev is_hex_number : String → Bool
is_hex_number host =
    starts_with (lower host) "0x" && (all_chars is_hex (from 2 host) && ltb 2 (count host))

-- A number past the safe integers is past 32 bits too.
unfoldable pub parse_decimal_or_hex_ipv4 : String → Option String
parse_decimal_or_hex_ipv4 host = elim (decimal host) [
  | some n ↦ in_uint32 n
  | none ↦ if is_hex_number host then in_uint32 (parse_hex (from 2 host)) else none
]

-- One turn of the loop of `parseCanonicalIPv4`: digits, no leading zero, at most 255.
unfoldable pub octet : String → Option ℕ
octet p = elim (decimal p) [
  | none ↦ none
  | some n ↦
      if ltb 1 (count p) && starts_with p "0" then none else if leb n 255 then some n else none
]

unfoldable pub octets : List String → Option (List ℕ)
octets [] = some []
octets (p ∷ parts) = elim (octet p) [
  | none ↦ none
  | some n ↦ elim (octets parts) [ none ↦ none | some ns ↦ some (n ∷ ns) ]
]

unfoldable pub parse_canonical_ipv4 : String → Option String
parse_canonical_ipv4 host =
    let parts = split b'.' host in
    if nat_eq (length parts) 4
    then (elim (octets parts) [ none ↦ none | some ns ↦ some (join "." (map decimal_text ns)) ])
    else none

-- The tests on the first two octets.
abbrev private_octets : List ℕ → Bool
private_octets (a ∷ (b ∷ rest)) =
    (nat_eq a 0 || (nat_eq a 10 || nat_eq a 127))
    || ((nat_eq a 169 && nat_eq b 254)
        || ((nat_eq a 172 && (leb 16 b && leb b 31))
            || ((nat_eq a 192 && nat_eq b 168)
                || ((nat_eq a 100 && (leb 64 b && leb b 127))
                    || ((nat_eq a 198 && (nat_eq b 18 || nat_eq b 19)) || leb 224 a)))))
private_octets other = false

unfoldable pub is_private_ipv4 : String → Bool
is_private_ipv4 ip = elim (parse_canonical_ipv4 ip) [
  | none ↦ true
  | some canonical ↦ private_octets (map (λ p. get_or (decimal p) 0) (split b'.' canonical))
]

-- `\d+\.\d+\.\d+\.\d+`
abbrev is_dotted : String → Bool
is_dotted s =
    let parts = split b'.' s in
    nat_eq (length parts) 4 && not (any (λ p. not (is_some (decimal p))) parts)

abbrev is_group : String → Bool
is_group s = all_chars is_hex s && (leb 1 (count s) && leb (count s) 4)

abbrev mapped_groups : List String → Option String
mapped_groups (hi ∷ (lo ∷ [])) =
    if is_group hi && is_group lo
    then some (
        join "." (
          decimal_text (parse_hex hi / 256 % 256)
          ∷ decimal_text (parse_hex hi % 256)
          ∷ decimal_text (parse_hex lo / 256 % 256)
          ∷ decimal_text (parse_hex lo % 256)
          ∷ []))
    else none
mapped_groups other = none

-- An IPv4 address inside IPv6, `::ffff:127.0.0.1` or `::ffff:7f00:1`.
unfoldable pub expand_ipv4_mapped : String → Option String
expand_ipv4_mapped ip =
    let text = lower ip in
    if starts_with text "::ffff:"
    then (if is_dotted (from 7 text)
        then some (from 7 text)
        else mapped_groups (split b':' (from 7 text)))
    else none

drop_bracket : String → String
drop_bracket String.[] = ""
drop_bracket (String.◌∷◌ c s) =
    let rest = drop_bracket s in if nat_eq (code c) b']' && s == "" then "" else String.◌∷◌ c rest

-- `.replace(/^\[|\]$/g, "")`
unfoldable pub strip_brackets : String → String
unfolding drop_bracket
strip_brackets s = if starts_with s "[" then drop_bracket (from 1 s) else drop_bracket s

unfoldable pub is_private_ipv6 : String → Bool
is_private_ipv6 ip =
    let text = strip_brackets (lower ip) in
    if (text == "::1") || ((text == "::") || (text == "0:0:0:0:0:0:0:1"))
    then true
    else if starts_with text "fe80:" || starts_with text "ff"
    then true
    else if starts_with text "fc" || starts_with text "fd"
    then true
    else (elim (expand_ipv4_mapped text) [ some v4 ↦ is_private_ipv4 v4 | none ↦ false ])

module _ (is_ip : String → ℕ) where
  unfoldable pub is_blocked_ip_address : String → Bool
  is_blocked_ip_address address = elim (expand_ipv4_mapped address) [
    | some v4 ↦ is_private_ipv4 v4
    | none ↦
        if nat_eq (is_ip address) 4
        then is_private_ipv4 address
        else if nat_eq (is_ip address) 6
        then is_private_ipv6 address
        else (elim (parse_canonical_ipv4 address) [ some d ↦ is_private_ipv4 d | none ↦ true ])
  ]

loopback : is_private_ipv4 "127.0.0.1" ≡ true
unfolding is_private_ipv4 parse_canonical_ipv4 octets octet split decimal decimal_text
loopback = refl

public : is_private_ipv4 "8.8.8.8" ≡ false
unfolding is_private_ipv4 parse_canonical_ipv4 octets octet split decimal decimal_text
public = refl

mapped_loopback : expand_ipv4_mapped "::FFFF:7f00:1" ≡ some "127.0.0.1"
unfolding expand_ipv4_mapped split lower parse_hex decimal decimal_text
mapped_loopback = refl

integer_loopback : parse_decimal_or_hex_ipv4 "0x7F000001" ≡ some "127.0.0.1"
unfolding parse_decimal_or_hex_ipv4 ipv4_from_uint parse_hex lower decimal decimal_text
integer_loopback = refl

-- A link-local address outside `fe80::/16` passes.
link_local_passes : is_private_ipv6 "fe90::1" ≡ false
unfolding is_private_ipv6 strip_brackets expand_ipv4_mapped split lower
link_local_passes = refl
