-- ===== src/Prelude/Text.antt =====
-- The string operations of the language that the program uses, on native texts.
pub mod Digits
use Prim.Native.Nat.{ℕ, zero, suc, ◌/◌, ◌%◌, ◌+◌, ◌-◌, ◌*◌, ◌<◌}
use Prim.Native.Char.{Char, char, code, IsScalar}
use Prim.Native.String.{String, [], ◌∷◌}
use mathlib.Core.Path.{◌≡◌, refl}
use mathlib.Core.Bool.{Bool, true, false, ◌&&◌, ◌||◌}
use mathlib.Core.Logic.{dite}
use mathlib.Core.Option.{Option, none, some}
use native.Mathlib.Omega.{arith}
use native.Mathlib.Decide.{dec_lt}
use xrplink.Prelude.Tests.{ltb, leb, nat_eq, if◌then◌else◌}

pub IsScalar-of_lt : (n : ℕ) → n < 55296 → IsScalar n
IsScalar-of_lt n h = ground arith

-- One letter of `toLowerCase`, on ASCII.
lower_char : Char → Char
unfolding dec_lt
lower_char c =
    dite (dec_lt (code c) 65) (λ _. c)
      λ _.
        dite (dec_lt (code c) 91)
          (λ h. char (code c + 32) (IsScalar-of_lt (code c + 32) (omega arith))) (λ _. c)

-- One letter of `toUpperCase`, on ASCII.
upper_char : Char → Char
unfolding dec_lt
upper_char c =
    dite (dec_lt (code c) 97) (λ _. c)
      λ _.
        dite (dec_lt (code c) 123)
          (λ h. char (code c - 32) (IsScalar-of_lt (code c - 32) (omega arith))) (λ _. c)

-- `s.toLowerCase()`
unfoldable pub lower : String → String
unfolding lower_char
lower [] = []
lower (c ∷ s) = lower_char c ∷ lower s

-- `s.toUpperCase()`
unfoldable pub upper : String → String
unfolding upper_char
upper [] = []
upper (c ∷ s) = upper_char c ∷ upper s

abbrev pub is_digit : ℕ → Bool
is_digit c = leb b'0' c && leb c b'9'

-- Every character passes the test, as under `/^[…]*$/`.
abbrev pub all_chars : (ℕ → Bool) → String → Bool
all_chars p [] = true
all_chars p (c ∷ s) = p (code c) && all_chars p s

-- `s.replace(/^0x/i, "")`
unfoldable pub strip_0x : String → String
strip_0x (c ∷ (d ∷ s)) =
    if nat_eq (code c) b'0' && (nat_eq (code d) b'x' || nat_eq (code d) b'X')
    then s
    else c ∷ (d ∷ s)
strip_0x s = s

digits_from : ℕ → String → Option ℕ
digits_from n [] = some n
digits_from n (c ∷ s) =
    let rest = digits_from (n * 10 + (code c - 48)) s in
    elim (is_digit (code c)) [ true ↦ rest | false ↦ none ]

-- The value of a text of decimal digits, as `/^\d+$/` and `BigInt` read it.
unfoldable pub decimal : String → Option ℕ
unfolding digits_from
decimal [] = none
decimal (c ∷ s) = digits_from 0 (c ∷ s)

lower_test : lower "AbZ-9" ≡ "abz-9"
unfolding lower
lower_test = refl

-- The parts before and after the last colon, as `lastIndexOf(":")` and `slice` give them.
unfoldable pub split_last_colon : String → Option (String × String)
split_last_colon [] = none
split_last_colon (c ∷ s) = elim (split_last_colon s) [
  | some (before, after) ↦ some (c ∷ before, after)
  | none ↦ if nat_eq (code c) b':' then some ([], s) else none
]

split_last_colon_test : split_last_colon "a:b:17" ≡ some ("a:b", "17")
unfolding split_last_colon
split_last_colon_test = refl

-- The digits of a number, most significant first. Each step divides by ten, so the number itself is
-- fuel enough.
digits : ℕ → ℕ → String → String
digits zero n rest = rest
digits (suc fuel) n rest =
    let digit = char (n % 10 + 48) (IsScalar-of_lt (n % 10 + 48) (omega arith)) in
    let more = digits fuel (n / 10) (digit ∷ rest) in
    elim (ltb n 10) [ true ↦ digit ∷ rest | false ↦ more ]

-- `String(n)`
unfoldable pub decimal_text : ℕ → String
unfolding digits
decimal_text n = digits (suc n) n []

decimal_text_test : decimal_text 1700 ≡ "1700"
unfolding decimal_text
decimal_text_test = refl
