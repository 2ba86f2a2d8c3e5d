-- ===== src/Prelude/Text/Digits.antt =====
-- How many digits the decimal text of a number has.
use Prim.Native.Nat.{ℕ, zero, suc, ◌/◌, ◌+◌, ◌*◌, ◌%◌, ◌^◌, ◌<◌, ◌≤◌}
use Prim.Native.Char.{Char, char}
use Prim.Native.String.{String, [], ◌∷◌, count}
use mathlib.Core.Path.{◌≡◌, refl}
use mathlib.Core.Logic.{inl, inr}
use mathlib.Core.Bool.{true, false}
use native.Mathlib.Omega.{arith}
use native.Mathlib.Nat.{pow-succ', one-le-pow}
use text.Mathlib.TextLemmas.{length-cons}
use xrplink.Prelude.Tests.{ltb, Bool-cases}
use xrplink.Prelude.Text.{digits, decimal_text, IsScalar-of_lt}

-- The digit of the ones.
abbrev ones : ℕ → Char
ones n = char (n % 10 + 48) (IsScalar-of_lt (n % 10 + 48) (omega arith))

digits_last :
    (fuel n : ℕ) (rest : String) → ltb n 10 ≡ true → digits (suc fuel) n rest ≡ ones n ∷ rest
unfolding digits IsScalar-of_lt
digits_last fuel n rest h = rw (h, digits) refl

digits_more :
    (fuel n : ℕ) (rest : String)
    → ltb n 10 ≡ false
    → digits (suc fuel) n rest ≡ digits fuel (n / 10) (ones n ∷ rest)
unfolding digits IsScalar-of_lt
digits_more fuel n rest h = rw (h, digits) refl

-- There is a digit more than in what follows.
count-digits_pos :
    (fuel n : ℕ) (rest : String) → n < fuel → suc (count rest) ≤ count (digits fuel n rest)
count-digits_pos zero n rest lt = absurd (omega arith)
count-digits_pos (suc fuel) n rest lt = elim (Bool-cases (ltb n 10)) [
  | inl e ↦ rw (digits_last fuel n rest e, length-cons (ones n) rest) (omega arith)
  | inr e ↦ rw (digits_more fuel n rest e) (
      omega (
        arith,
        count-digits_pos fuel (n / 10) (ones n ∷ rest) (ground arith),
        length-cons (ones n) rest,
      ))
]

count-digits :
    (k fuel n : ℕ) (rest : String)
    → n < fuel
    → 10 ^ k ≤ n
    → k + 1 + count rest ≤ count (digits fuel n rest)
count-digits zero fuel n rest lt le = omega (arith, count-digits_pos fuel n rest lt)
count-digits (suc k) zero n rest lt le = absurd (omega arith)
count-digits (suc k) (suc fuel) n rest lt le =
    let big : 10 * 10 ^ k ≤ n = omega (arith, pow-succ' 10 k) in
    let pos = one-le-pow k 10 (omega arith) in
    rw (digits_more fuel n rest (ground arith)) (
      omega (
        arith,
        count-digits k fuel (n / 10) (ones n ∷ rest) (ground arith) (omega arith),
        length-cons (ones n) rest,
      ))

-- From 10 to the power of `k` on, a number has more than `k` digits.
pub count-decimal_text : (k n : ℕ) → 10 ^ k ≤ n → k + 1 ≤ count (decimal_text n)
unfolding decimal_text
count-decimal_text k n le = omega (arith, count-digits k (suc n) n [] (omega arith) le)
