-- ===== src/Webhooks/Delivery/Signature.antt =====
-- src/webhook-service.ts: the receiver's check of a signature.
use Prim.Native.Nat.{bit_xor-bitwise, bit_or-bitwise, bit_xor, bit_or, digits, differ}
use Prim.Native.Char.{code}
use Prim.Native.String.count
use Prim.Native.String.{count}
use text.Mathlib.TextEquality.{starts_with_iff, Char-path}
use text.Mathlib.TextPositions.{slice-append_right, len-append, starts_with-append}
use xrplink.Webhooks.Delivery.{
  starts_with, decimal_text, signature_header, request, WebhookPayload, ParsedUrl, any_difference,
  timing_safe_equal, provided, sign_payload, validate_webhook_signature,
}
use mathlib.Core.Path.{subst}
use xrplink.Prelude.{
  false, inr, ◌⊎◌, inl, Bool-cases, ℕ, zero, suc, ◌+◌, ◌/◌, ◌%◌, ◌≤◌, max, String, ◌++◌, ◌≡◌, refl,
  sym, ap, ◌∙◌, ◌≢◌, ◌↔◌, true, Option, some, arith, truthy_of_ne,
}

or_digits-zero : (n a b : ℕ) → a ≤ n → digits (λ c. c) max n a b ≡ 0 → (a ≡ 0) × (b ≡ 0)
or_digits-zero zero a b le e = (omega arith, e)
or_digits-zero (suc n) zero b le e = (refl, e)
or_digits-zero (suc n) (suc a) b le e = ground (arith, or_digits-zero n (suc a / 2) (b / 2))

differ-zero : (a b : ℕ) → differ a b ≡ 0 → a ≡ b
differ-zero zero b e = sym e
differ-zero (suc a) zero e = e
differ-zero (suc a) (suc b) e = ap suc (differ-zero a b e)

differ_self : (a : ℕ) → differ a a ≡ 0
differ_self zero = refl
differ_self (suc a) = differ_self a

xor_digits-zero : (n a b : ℕ) → a ≤ n → digits (λ c. c) differ n a b ≡ 0 → a ≡ b
xor_digits-zero zero a b le e = omega arith
xor_digits-zero (suc n) zero b le e = omega arith
xor_digits-zero (suc n) (suc a) b le e =
    ground (arith, xor_digits-zero n (suc a / 2) (b / 2), differ-zero (suc a % 2) (b % 2))

xor_digits_self : (n a : ℕ) → a ≤ n → digits (λ c. c) differ n a a ≡ 0
xor_digits_self zero a le = omega arith
xor_digits_self (suc n) zero le = refl
xor_digits_self (suc n) (suc a) le =
    ground (arith, xor_digits_self n (suc a / 2), differ_self (suc a % 2))

bit_or-zero : (a b : ℕ) → bit_or a b ≡ 0 → (a ≡ 0) × (b ≡ 0)
bit_or-zero a b e = or_digits-zero a a b (omega arith) (sym (bit_or-bitwise a b) ∙ e)

bit_xor-zero : (a b : ℕ) → bit_xor a b ≡ 0 → a ≡ b
bit_xor-zero a b e = xor_digits-zero a a b (omega arith) (sym (bit_xor-bitwise a b) ∙ e)

bit_xor_self : (a : ℕ) → bit_xor a a ≡ 0
bit_xor_self a = bit_xor-bitwise a a ∙ xor_digits_self a a (omega arith)

zero-bit_or : (b : ℕ) → bit_or 0 b ≡ b
zero-bit_or b = bit_or-bitwise 0 b

any_difference_self : (a : String) → any_difference 0 a a ≡ 0
unfolding any_difference
any_difference_self String.[] = refl
any_difference_self (String.◌∷◌ c a) =
    rw (bit_xor_self (code c), zero-bit_or 0) (any_difference_self a)

-- A difference that is there stays.
any_difference-zero :
    (result : ℕ) (a b : String)
    → count a ≡ count b
    → any_difference result a b ≡ 0
    → (result ≡ 0) × (a ≡ b)
unfolding any_difference
any_difference-zero result String.[] String.[] n e = (e, refl)
any_difference-zero result String.[] (String.◌∷◌ d b) n e =
    absurd (omega (arith, n, count.cons d b, count.nil))
any_difference-zero result (String.◌∷◌ c a) String.[] n e =
    absurd (omega (arith, n, count.cons c a, count.nil))
any_difference-zero result (String.◌∷◌ c a) (String.◌∷◌ d b) n e =
    let rest =
      any_difference-zero (bit_or result (bit_xor (code c) (code d))) a b
        (omega (arith, n, count.cons c a, count.cons d b)) e in
    let parts = bit_or-zero result (bit_xor (code c) (code d)) rest.0 in
    (parts.0, cc (Char-path c d (bit_xor-zero (code c) (code d) parts.1), rest.1))

timing_safe_equal_self : (a : String) → timing_safe_equal a a ≡ true
unfolding timing_safe_equal
timing_safe_equal_self a = ground (arith, any_difference_self a)

eq_of_timing_safe_equal : (a b : String) → timing_safe_equal a b ≡ true → a ≡ b
unfolding timing_safe_equal
eq_of_timing_safe_equal a b h = (any_difference-zero 0 a b (ground arith) (ground arith)).1

provided-prefix : (s : String) → provided ("sha256=" ++ s) ≡ s
provided-prefix s =
    rw (starts_with-append "sha256=" s)
      (rw (len-append "sha256=" s) (slice-append_right "sha256=" s))

-- The code stands after `sha256=`, or alone.
abbrev pub IsWritten : String → String → Type 0
IsWritten signed signature =
    (signature ≡ "sha256=" ++ signed)
    ⊎ ((starts_with signature "sha256=" ≡ false) × (signature ≡ signed))

provided-IsWritten :
    (signed signature : String) → signed ≡ provided signature → IsWritten signed signature
provided-IsWritten signed signature e = elim (Bool-cases (starts_with signature "sha256=")) [
  | inr bare ↦ inr (bare, sym (rw bare at e))
  | inl prefixed ↦
      let (rest, whole) = (starts_with_iff signature "sha256=").0 prefixed in
      let cut : provided signature ≡ rest =
        subst (λ s. provided s ≡ rest) whole (provided-prefix rest) in
      inl (sym whole ∙ ap (λ s. "sha256=" ++ s) (sym (e ∙ cut)))
]

eq_provided : (signed signature : String) → IsWritten signed signature → signed ≡ provided signature
eq_provided signed signature (inl e) = sym (ap provided e ∙ provided-prefix signed)
eq_provided signed signature (inr (bare, e)) = rw bare (sym e)

module _ (hmac : String → String → String) where
  -- A signature is accepted exactly if the timestamp is at most the tolerance away from the clock, on
  -- either side, and the signature is, with or without `sha256=` before it, the code under the secret
  -- of the timestamp in decimal, a dot and the body. A code that itself begins with `sha256=` is
  -- accepted only with the prefix.
  pub validate_webhook_signature_iff :
      (now : ℕ) (body signature : String) (timestamp : ℕ) (secret : String) (tolerance : ℕ)
      → (validate_webhook_signature hmac now body signature timestamp secret tolerance ≡ true) ↔ (
          (now ≤ timestamp + tolerance)
          × (timestamp ≤ now + tolerance)
          × IsWritten (hmac secret (decimal_text timestamp ++ ("." ++ body))) signature)
  unfolding validate_webhook_signature sign_payload
  validate_webhook_signature_iff now body signature timestamp secret tolerance = (
    λ h. (
      ground arith,
      ground arith,
      provided-IsWritten _ signature (
          eq_of_timing_safe_equal (sign_payload hmac body timestamp secret) (provided signature)
            (ground arith)),
    ),
    λ (p, q, w).
        let e : sign_payload hmac body timestamp secret ≡ provided signature =
          eq_provided _ signature w in
        rw (← e) (ground (arith, timing_safe_equal_self (sign_payload hmac body timestamp secret))),
  )

some_inj : {a b : String} → some a ≡ some b → a ≡ b
some_inj e = cc

module _ (parse_url : String → Option ParsedUrl) (is_ip : String → ℕ)
    (hmac : String → String → String) (to_json : WebhookPayload → String)
    (signing_secret : String) where
  provided-signature :
      (body : String) (timestamp : ℕ) (secret signature : String)
      → secret ≢ ""
      → signature_header parse_url is_ip hmac to_json signing_secret body timestamp (some secret)
        ≡ some signature
      → sign_payload hmac body timestamp secret ≡ provided signature
  provided-signature body timestamp secret signature h e =
      let e' : some ("sha256=" ++ sign_payload hmac body timestamp secret) ≡ some signature =
        rw (truthy_of_ne secret h, signature_header) at e in
      subst (λ s. sign_payload hmac body timestamp secret ≡ provided s) (some_inj e')
        (sym (provided-prefix (sign_payload hmac body timestamp secret)))

  -- A receiver that has the webhook's own secret accepts the signature of a request with its body and
  -- timestamp, as long as its clock is at most the tolerance past the timestamp.
  validate_webhook_signature-request :
      (n sent_at received tolerance : ℕ) (url : String) (payload : WebhookPayload)
      (secret signature : String)
      → secret ≢ ""
      → (request parse_url is_ip hmac to_json signing_secret n sent_at url payload
          (some secret)).signature
        ≡ some signature
      → sent_at / 1000 ≤ received
      → received ≤ sent_at / 1000 + tolerance
      → validate_webhook_signature hmac received
          (to_json payload)
          signature
          (sent_at / 1000)
          secret
          tolerance
        ≡ true
  unfolding sign_payload
  validate_webhook_signature-request n sent_at received tolerance url payload secret signature h e p
        q =
      (validate_webhook_signature_iff hmac received (to_json payload) signature (sent_at / 1000)
          secret tolerance).1
        (
          omega arith,
          omega arith,
          provided-IsWritten _ signature
              (provided-signature (to_json payload) (sent_at / 1000) secret signature h e),
        )
