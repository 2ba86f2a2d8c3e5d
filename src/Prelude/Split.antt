-- ===== src/Prelude/Split.antt =====
-- Splitting and joining native texts at one character, as `split`, `join`, `includes` and `endsWith`
-- do, and the decimal texts of small numbers.
use Prim.Native.Char.{Char, code}
use Prim.Native.String.{String, [], ◌∷◌, ◌++◌}
use mathlib.Core.List.{List}
use text.Mathlib.Text.{◌==◌}
use Prim.Native.Nat.{ℕ, zero, suc, ◌<◌}
use mathlib.Core.Path.{◌≡◌, refl, ◌∙◌, ap}
use mathlib.Core.Bool.{Bool, true, not, ◌&&◌, ◌||◌}
use native.Mathlib.Omega.{arith}
use text.Mathlib.TextLemmas.{nil-append, cons-append}
use mathlib.Core.Logic.{inl, inr}
use xrplink.Prelude.Tests.{Bool-cases, nat_eq, if◌then◌else◌}
use xrplink.Prelude.Text.{all_chars}

abbrev extend : Char → List String → List String
extend c List.[] = List.◌∷◌ (c ∷ []) List.[]
extend c (List.◌∷◌ part parts) = List.◌∷◌ (c ∷ part) parts

-- `s.split(sep)` for one character, given by its code.
unfoldable pub split : ℕ → String → List String
split sep [] = List.◌∷◌ "" List.[]
split sep (c ∷ s) =
    let rest = split sep s in if nat_eq (code c) sep then List.◌∷◌ "" rest else extend c rest

-- `parts.join(sep)`
abbrev pub join : String → List String → String
join sep List.[] = ""
join sep (List.◌∷◌ part List.[]) = part
join sep (List.◌∷◌ part (List.◌∷◌ next parts)) = part ++ (sep ++ join sep (List.◌∷◌ next parts))

-- No character has the code, as `!s.includes(…)`.
abbrev pub lacks : ℕ → String → Bool
lacks sep s = all_chars (λ c. not (nat_eq c sep)) s

unfoldable pub ends_with : String → String → Bool
ends_with [] t = t == ""
ends_with (c ∷ s) t = ((c ∷ s) == t) || ends_with s t

split_test :
    split b'.' "10.0..1" ≡ List.◌∷◌ "10" (List.◌∷◌ "0" (List.◌∷◌ "" (List.◌∷◌ "1" List.[])))
unfolding split
split_test = refl

abbrev dot : Char
dot = "."

-- A text without the separator is one part.
pub split-lacks : (sep : ℕ) (s : String) → lacks sep s ≡ true → split sep s ≡ List.◌∷◌ s List.[]
unfolding split
split-lacks sep [] h = refl
split-lacks sep (c ∷ s) h = elim (Bool-cases (nat_eq (code c) sep)) [
  | inl e ↦ absurd (ground arith)
  | inr e ↦ rw (e, split-lacks sep s (ground arith))
]

dot-append : (t : String) → "." ++ t ≡ dot ∷ t
dot-append t = cons-append dot [] t ∙ ap (λ s. dot ∷ s) (nil-append t)

-- What stands before the first dot is the first part.
pub split-append :
    (s t : String) → lacks b'.' s ≡ true → split b'.' (s ++ ("." ++ t)) ≡ List.◌∷◌ s (split b'.' t)
unfolding split
split-append [] t h = rw (nil-append ("." ++ t), dot-append t) refl
split-append (c ∷ s) t h = elim (Bool-cases (nat_eq (code c) b'.')) [
  | inl e ↦ absurd (ground arith)
  | inr e ↦ rw (cons-append c s ("." ++ t), e, split-append s t (ground arith))
]

-- Over a small range, every value is checked by evaluation.
abbrev pub all_below : ℕ → (ℕ → Bool) → Bool
all_below zero p = true
all_below (suc n) p = p n && all_below n p

pub all_below_sound : (n : ℕ) (p : ℕ → Bool) (x : ℕ) → all_below n p ≡ true → x < n → p x ≡ true
all_below_sound zero p x h lt = absurd (omega arith)
all_below_sound (suc n) p x h lt = ground (arith, all_below_sound n p x)
