-- ===== src/Webhooks/Addresses/Ranges.antt =====
-- src/webhook-url.ts: the tests on octets against the reserved blocks of the IPv4 space.
use xrplink.Prelude.{concat, not, sym}
use xrplink.Prelude.Text.{decimal, decimal_text}
use xrplink.Prelude.Split.{
  split-lacks, all_below_sound, split-append, split, join, lacks, all_below,
}
use xrplink.Webhooks.Addresses.{
  private_octets, octets, parse_canonical_ipv4, is_private_ipv4, octet,
}
use xrplink.Prelude.{
  ℕ, ◌+◌, ◌*◌, ◌<◌, String, ◌++◌, ◌≡◌, refl, ap, ◌∙◌, Bool, true, false, ◌&&◌, ◌||◌, none, some,
  List, [], ◌∷◌, arith, ltb, leb, nat_eq, get_or, any,
}

-- A block of addresses: the first one, and how many.
pub record Block : Type 0 where
  pub first : ℕ
  pub size : ℕ

abbrev block : ℕ → ℕ → ℕ → Block
block a b size = record { first = a * 16777216 + b * 65536; size = size }

-- The blocks that the tests know, with their prefix lengths 8, 8, 8, 16, 12, 16, 10, 15 and 3.
abbrev pub known_blocks : List Block
known_blocks =
    block 0 0 16777216
    ∷ block 10 0 16777216
    ∷ block 127 0 16777216
    ∷ block 169 254 65536
    ∷ block 172 16 1048576
    ∷ block 192 168 65536
    ∷ block 100 64 4194304
    ∷ block 198 18 131072
    ∷ block 224 0 536870912
    ∷ []

-- The other reserved blocks: protocol assignments and three for documentation, of 256 addresses each.
abbrev pub missed_blocks : List Block
missed_blocks =
    record { first = 192 * 16777216; size = 256 }
    ∷ record { first = 192 * 16777216 + 2 * 256; size = 256 }
    ∷ record { first = 198 * 16777216 + 51 * 65536 + 100 * 256; size = 256 }
    ∷ record { first = 203 * 16777216 + 113 * 256; size = 256 }
    ∷ []

abbrev in_block : ℕ → Block → Bool
in_block n b = leb b.first n && ltb n (b.first + b.size)

abbrev pub is_in : List Block → ℕ → Bool
is_in blocks n = any (in_block n) blocks

-- The address is in none of the blocks of the public Internet.
abbrev pub is_reserved : ℕ → Bool
is_reserved n = is_in (concat known_blocks missed_blocks) n

any-concat : (p : Block → Bool) (xs ys : List Block) → any p (concat xs ys) ≡ (any p xs || any p ys)
any-concat p [] ys = refl
any-concat p (x ∷ xs) ys = ground (arith, any-concat p xs ys)

-- No address is in a block that the tests know and in one that they miss.
missed-not-known : (n : ℕ) → is_in missed_blocks n ≡ true → is_in known_blocks n ≡ false
missed-not-known n h = ground arith

left_part : (a b : Bool) → (b ≡ true → a ≡ false) → a ≡ ((a || b) && not b)
left_part true true h = cc (h refl)
left_part true false h = refl
left_part false true h = refl
left_part false false h = refl

is_in-known : (n : ℕ) → is_in known_blocks n ≡ (is_reserved n && not (is_in missed_blocks n))
is_in-known n =
    left_part (is_in known_blocks n) (is_in missed_blocks n) (missed-not-known n)
    ∙ ap (λ b. b && not (is_in missed_blocks n))
        (sym (any-concat (in_block n) known_blocks missed_blocks))

abbrev pub dotted : ℕ → ℕ → ℕ → ℕ → String
dotted a b c d = join "." (decimal_text a ∷ decimal_text b ∷ decimal_text c ∷ decimal_text d ∷ [])

octet_digits : ℕ → Bool
octet_digits n =
    lacks b'.' (decimal_text n)
    && ((elim (octet (decimal_text n)) [ some m ↦ nat_eq m n | none ↦ false ])
        && nat_eq (get_or (decimal (decimal_text n)) 0) n)

octets_table : all_below 256 octet_digits ≡ true
unfolding octet_digits octet decimal decimal_text
octets_table = refl

facts :
    (text : String) (n : ℕ)
    → (lacks b'.' text
        && ((elim (octet text) [ some m ↦ nat_eq m n | none ↦ false ])
            && nat_eq (get_or (decimal text) 0) n))
      ≡ true
    → (lacks b'.' text ≡ true) × (octet text ≡ some n) × (get_or (decimal text) 0 ≡ n)
facts text n h = ground arith

-- Each block, as a test on the first two octets `a` and `b` of an address with `low` below them.
module _ (a b low : ℕ) (ha : a < 256) (hb : b < 256) (hl : low < 65536) where
  in_whole : (k : ℕ) → in_block (a * 16777216 + b * 65536 + low) (block k 0 16777216) ≡ nat_eq a k
  in_whole k = ground arith

  in_row :
      (k l : ℕ)
      → l < 256
      → in_block (a * 16777216 + b * 65536 + low) (block k l 65536) ≡ (nat_eq a k && nat_eq b l)
  in_row k l h = ground arith

  in_172 :
      in_block (a * 16777216 + b * 65536 + low) (block 172 16 1048576)
      ≡ (nat_eq a 172 && (leb 16 b && leb b 31))
  in_172 = ground arith

  in_100 :
      in_block (a * 16777216 + b * 65536 + low) (block 100 64 4194304)
      ≡ (nat_eq a 100 && (leb 64 b && leb b 127))
  in_100 = ground arith

  in_198 :
      in_block (a * 16777216 + b * 65536 + low) (block 198 18 131072)
      ≡ (nat_eq a 198 && (nat_eq b 18 || nat_eq b 19))
  in_198 = ground arith

  in_224 : in_block (a * 16777216 + b * 65536 + low) (block 224 0 536870912) ≡ leb 224 a
  in_224 = ground arith

  private_octets-eq-in_blocks :
      (rest : List ℕ)
      → private_octets (a ∷ (b ∷ rest)) ≡ is_in known_blocks (a * 16777216 + b * 65536 + low)
  private_octets-eq-in_blocks rest = ground (
    arith,
    in_whole 0,
    in_whole 10,
    in_whole 127,
    in_row 169 254 (omega arith),
    in_172,
    in_row 192 168 (omega arith),
    in_100,
    in_198,
    in_224,
  )

private_octets-eq-is_in :
    (a b c d : ℕ)
    → a < 256
    → b < 256
    → c < 256
    → d < 256
    → private_octets (a ∷ (b ∷ (c ∷ (d ∷ []))))
      ≡ is_in known_blocks (a * 16777216 + b * 65536 + c * 256 + d)
private_octets-eq-is_in a b c d ha hb hc hd =
    private_octets-eq-in_blocks a b (c * 256 + d) ha hb (omega arith) (c ∷ (d ∷ []))
    ∙ ap (is_in known_blocks) {x = a * 16777216 + b * 65536 + (c * 256 + d)}
        {y = a * 16777216 + b * 65536 + c * 256 + d} (omega arith)

octet_facts :
    (n : ℕ)
    → n < 256
    → (lacks b'.' (decimal_text n) ≡ true)
      × (octet (decimal_text n) ≡ some n)
      × (get_or (decimal (decimal_text n)) 0 ≡ n)
unfolding octet_digits
octet_facts n h = facts (decimal_text n) n (all_below_sound 256 octet_digits n octets_table h)

split_dotted :
    (p q r s : String)
    → lacks b'.' p ≡ true
    → lacks b'.' q ≡ true
    → lacks b'.' r ≡ true
    → lacks b'.' s ≡ true
    → split b'.' (join "." (p ∷ q ∷ r ∷ s ∷ [])) ≡ p ∷ q ∷ r ∷ s ∷ []
split_dotted p q r s hp hq hr hs = rw (split-append p (q ++ ("." ++ (r ++ ("." ++ s)))) hp) (
    rw (split-append q (r ++ ("." ++ s)) hq)
      (rw (split-append r s hr) (rw (split-lacks b'.' s hs) refl)))

-- A canonical text of four octets is read as itself.
parse_canonical_ipv4-dotted :
    (a b c d : ℕ)
    → a < 256
    → b < 256
    → c < 256
    → d < 256
    → parse_canonical_ipv4 (dotted a b c d) ≡ some (dotted a b c d)
unfolding parse_canonical_ipv4 octets
parse_canonical_ipv4-dotted a b c d ha hb hc hd =
    let fa = octet_facts a ha in
    let fb = octet_facts b hb in
    let fc = octet_facts c hc in
    let fd = octet_facts d hd in
    rw
      (split_dotted (decimal_text a) (decimal_text b) (decimal_text c) (decimal_text d) fa.0 fb.0
        fc.0 fd.0)
      (rw (fa.1, fb.1, fc.1, fd.1) refl)

-- For every address of four octets, written canonically, the test answers true exactly if the
-- address, read as a 32-bit number, is reserved and in none of the four blocks 192.0.0.0/24,
-- 192.0.2.0/24, 198.51.100.0/24 and 203.0.113.0/24. Reserved are these and 0.0.0.0/8, 10.0.0.0/8,
-- 127.0.0.0/8, 169.254.0.0/16, 172.16.0.0/12, 192.168.0.0/16, 100.64.0.0/10, 198.18.0.0/15 and
-- 224.0.0.0/3.
pub is_private_ipv4-eq-is_reserved :
    (a b c d : ℕ)
    → a < 256
    → b < 256
    → c < 256
    → d < 256
    → let n = a * 16777216 + b * 65536 + c * 256 + d in
      is_private_ipv4 (dotted a b c d) ≡ (is_reserved n && not (is_in missed_blocks n))
unfolding is_private_ipv4
is_private_ipv4-eq-is_reserved a b c d ha hb hc hd =
    let fa = octet_facts a ha in
    let fb = octet_facts b hb in
    let fc = octet_facts c hc in
    let fd = octet_facts d hd in
    rw (parse_canonical_ipv4-dotted a b c d ha hb hc hd, is_private_ipv4)
      (rw
        (split_dotted (decimal_text a) (decimal_text b) (decimal_text c) (decimal_text d) fa.0 fb.0
          fc.0 fd.0)
        (rw (fa.2, fb.2)
          (private_octets-eq-is_in a b c d ha hb hc hd
            ∙ is_in-known (a * 16777216 + b * 65536 + c * 256 + d))))
