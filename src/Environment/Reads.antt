-- ===== src/Environment/Reads.antt =====
-- src/env-validation.ts: what the tests on variables and addresses decide.
use Prim.Native.String.{count, slice, len}
use text.Mathlib.Text.{starts_with}
use text.Mathlib.TextEquality.{starts_with_iff}
use text.Mathlib.TextPositions.{slice-append_right, len-append, starts_with-append}
use mathlib.Core.Path.{subst}
use Prim.Native.Char.{code}
use xrplink.Prelude.Text.{all_chars}
use xrplink.Environment.{
  Env, is_hex, is_base58, is_set, equals, is_production, network, is_valid_ethereum_address,
  is_classic_address,
}
use xrplink.Prelude.{
  ℕ, ◌≤◌, String, ◌++◌, ◌≡◌, refl, sym, ap, ◌∙◌, ◌≢◌, ◌↔◌, ◌⊎◌, inl, inr, Bool, true, false, not,
  ◌&&◌, ◌||◌, Option, none, some, arith, ◌==◌, eq_iff, eq_refl, leb, Bool-cases, Option-cases,
  is_some, truthy,
}

-- Tests and what they decide, joined as the tests are.
pub or_iff :
    {a b : Bool} {P Q : Type 0} → ((a ≡ true) ↔ P) → ((b ≡ true) ↔ Q) → ((a || b) ≡ true) ↔ (P ⊎ Q)
or_iff {a = true} f g = ((λ h. inl (f.0 refl)), λ h. refl)
or_iff {a = false} f g = ((λ h. inr (g.0 h)), λ h. elim h [ inl p ↦ cc (f.1 p) | inr q ↦ g.1 q ])

pub and_iff :
    {a b : Bool} {P Q : Type 0} → ((a ≡ true) ↔ P) → ((b ≡ true) ↔ Q) → ((a && b) ≡ true) ↔ (P × Q)
and_iff {a = true} f g = ((λ h. (f.0 refl, g.0 h)), λ h. g.1 h.1)
and_iff {a = false} f g = ((λ h. cc), λ h. cc (f.1 h.0))

pub not_iff : {a : Bool} {P : Type 0} → ((a ≡ true) ↔ P) → (not a ≡ true) ↔ (P → ⊥)
not_iff {a = true} f = ((λ h. cc), λ h. absurd (h (f.0 refl)))
not_iff {a = false} f = ((λ h p. cc (f.1 p)), λ h. refl)

within_iff : (a b c : ℕ) → ((leb a c && leb c b) ≡ true) ↔ ((a ≤ c) × (c ≤ b))
within_iff a b c = ((λ h. (ground arith, ground arith)), λ (p, q). ground arith)

abbrev pub AllChars : (ℕ → Type 0) → String → Type 0
AllChars P String.[] = Unit
AllChars P (String.◌∷◌ c s) = P (code c) × AllChars P s

all_chars_iff :
    (p : ℕ → Bool) (P : ℕ → Type 0)
    → ((c : ℕ) → (p c ≡ true) ↔ P c)
    → (s : String) → (all_chars p s ≡ true) ↔ AllChars P s
all_chars_iff p P h String.[] = ((λ e. tt), λ e. refl)
all_chars_iff p P h (String.◌∷◌ c s) = and_iff (h (code c)) (all_chars_iff p P h s)

-- A digit or a letter from a to f.
abbrev pub IsHex : ℕ → Type 0
IsHex c = ((b'0' ≤ c) × (c ≤ b'9')) ⊎ (((b'a' ≤ c) × (c ≤ b'f')) ⊎ ((b'A' ≤ c) × (c ≤ b'F')))

is_hex_iff : (c : ℕ) → (is_hex c ≡ true) ↔ IsHex c
is_hex_iff c =
    or_iff (within_iff b'0' b'9' c) (or_iff (within_iff b'a' b'f' c) (within_iff b'A' b'F' c))

-- A digit or a letter, without 0, I, O and l.
abbrev pub IsBase58 : ℕ → Type 0
IsBase58 c =
    ((b'1' ≤ c) × (c ≤ b'9'))
    ⊎ (((b'A' ≤ c) × (c ≤ b'H'))
        ⊎ (((b'J' ≤ c) × (c ≤ b'N'))
            ⊎ (((b'P' ≤ c) × (c ≤ b'Z'))
                ⊎ (((b'a' ≤ c) × (c ≤ b'k')) ⊎ ((b'm' ≤ c) × (c ≤ b'z'))))))

is_base58_iff : (c : ℕ) → (is_base58 c ≡ true) ↔ IsBase58 c
is_base58_iff c = or_iff (within_iff b'1' b'9' c) (
    or_iff (within_iff b'A' b'H' c) (
      or_iff (within_iff b'J' b'N' c) (
        or_iff (within_iff b'P' b'Z' c)
          (or_iff (within_iff b'a' b'k' c) (within_iff b'm' b'z' c)))))

-- The text begins with `p`, and what follows are such characters.
abbrev pub IsAfter : String → (ℕ → Type 0) → String → Type 0
IsAfter p P s = (rest : String) × (s ≡ p ++ rest) × AllChars P rest

after-append : (p rest : String) → slice (p ++ rest) (len p) (len (p ++ rest)) ≡ rest
after-append p rest = rw (len-append p rest) (slice-append_right p rest)

slice_iff :
    (prefix : String) (p : ℕ → Bool) (P : ℕ → Type 0)
    → ((c : ℕ) → (p c ≡ true) ↔ P c)
    → (s : String)
    → ((starts_with s prefix && all_chars p (slice s (len prefix) (len s))) ≡ true)
      ↔ IsAfter prefix P s
slice_iff prefix p P h s = (
  (λ e.
      let (rest, whole) = (starts_with_iff s prefix).0 (ground arith) in
      let cut : slice s (len prefix) (len s) ≡ rest =
        subst (λ t. slice t (len prefix) (len t) ≡ rest) whole (after-append prefix rest) in
      let chars : all_chars p (slice s (len prefix) (len s)) ≡ true = ground arith in
      (rest, sym whole, (all_chars_iff p P h rest).0 (rw cut at chars))),
  λ (rest, e, chars). rw e (
      rw (starts_with-append prefix rest, after-append prefix rest)
        ((all_chars_iff p P h rest).1 chars)),
)

-- `0x` and 40 hex digits.
abbrev pub IsEthereum : String → Type 0
IsEthereum s = IsAfter "0x" IsHex s × (count s ≡ 42)

pub is_valid_ethereum_address_iff :
    (s : String) → (is_valid_ethereum_address s ≡ true) ↔ IsEthereum s
unfolding is_valid_ethereum_address
is_valid_ethereum_address_iff s =
    let after = slice_iff "0x" is_hex IsHex is_hex_iff s in
    ((λ h. (after.0 (ground arith), ground arith)), λ (p, q). let k = after.1 p in ground arith)

-- `r` and base58, 25 to 35 characters in all.
abbrev pub IsClassic : String → Type 0
IsClassic s = IsAfter "r" IsBase58 s × (25 ≤ count s) × (count s ≤ 35)

pub is_classic_address_iff : (s : String) → (is_classic_address s ≡ true) ↔ IsClassic s
unfolding is_classic_address
is_classic_address_iff s =
    let after = slice_iff "r" is_base58 IsBase58 is_base58_iff s in
    (
      (λ h. (after.0 (ground arith), ground arith, ground arith)),
      λ (p, q, r). let k = after.1 p in ground arith,
    )

some_inj : {a b : String} → some a ≡ some b → a ≡ b
some_inj e = cc

pub truthy_iff : (x : Option String) (v : String) → (truthy x ≡ some v) ↔ ((x ≡ some v) × (v ≢ ""))
truthy_iff none v = ((λ h. cc), λ h. cc)
truthy_iff (some s) v = elim (Bool-cases (s == "")) [
  | inl e ↦
      ((λ h. let k = rw (e, truthy) at h in cc), λ (p, q). absurd (q (ground (arith, eq_iff s ""))))
  | inr e ↦ (
    (λ h. let k : some s ≡ some v = rw (e, truthy) at h in (k, λ f. ground (arith, eq_iff s ""))),
    λ (p, q). rw (e, truthy) p,
  )
]

module _ (env : Env) where
  -- Set to a text that is not empty.
  abbrev pub HasText : String → Type 0
  HasText name = (v : String) × (env name ≡ some v) × (v ≢ "")

  pub is_set_iff : (name : String) → (is_set env name ≡ true) ↔ HasText name
  is_set_iff name = elim (Option-cases (truthy (env name))) [
    | inl e ↦ (
      (λ h. let k = rw (e, is_some) at h in cc),
      λ (v, f, g). let k = (truthy_iff (env name) v).1 (f, g) in cc,
    )
    | inr (v, e) ↦
        let (f, g) = (truthy_iff (env name) v).0 e in ((λ h. (v, f, g)), λ h. rw (e, is_some) refl)
  ]

  pub equals_iff : (name v : String) → (equals env name v ≡ true) ↔ (env name ≡ some v)
  equals_iff name v = elim (Option-cases (env name)) [
    | inl e ↦ ((λ h. let k = rw (e, equals) at h in cc), λ h. cc)
    | inr (s, e) ↦ (
      (λ h. let k = rw (e, equals) at h in e ∙ ap some ((eq_iff s v).0 k)),
      λ h. rw (h, equals) (eq_refl v),
    )
  ]

  abbrev pub IsProduction : Type 0
  IsProduction =
      (env "NODE_ENV" ≡ some "production") ⊎ (HasText "FLY_APP_NAME" ⊎ HasText "FLY_REGION")

  pub is_production_iff : (is_production env ≡ true) ↔ IsProduction
  unfolding is_production
  is_production_iff =
      or_iff (equals_iff "NODE_ENV" "production")
        (or_iff (is_set_iff "FLY_APP_NAME") (is_set_iff "FLY_REGION"))

  abbrev pub IsFlare : Type 0
  IsFlare = env "FLARE_NETWORK" ≡ some "flare"

  pub flare_iff : ((network env == "flare") ≡ true) ↔ IsFlare
  flare_iff = elim (Option-cases (truthy (env "FLARE_NETWORK"))) [
    | inl e ↦ (
      (λ h. let k = rw e at h in cc),
      λ f. let k = (truthy_iff (env "FLARE_NETWORK") "flare").1 (f, λ g. cc) in cc,
    )
    | inr (v, e) ↦
        let (f, g) = (truthy_iff (env "FLARE_NETWORK") v).0 e in
        (
          (λ h. let k = rw e at h in f ∙ ap some ((eq_iff v "flare").0 k)),
          λ k. rw e ((eq_iff v "flare").1 (some_inj (sym f ∙ k))),
        )
  ]
