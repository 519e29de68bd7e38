-- ===== src/Prelude/Decimal.antt =====
-- `String(n)` for a natural number: its decimal digits.
use nostream.Prelude.Tests.{◌==◌, if◌then◌else◌, Bool-cases}
use nostream.Prelude.Text.{Text}
use Prim.Native.Nat.{ℕ, zero, suc, ◌+◌, ◌-◌, ◌*◌, ◌/◌, ◌%◌, ◌<◌, ◌≤◌}
use mathlib.Core.Bool.{false}
use mathlib.Core.Path.{◌≡◌, ap, ◌∙◌}
use mathlib.Core.Logic.{inl, inr}
use native.Mathlib.Omega.{arith}
use mathlib.Core.List.{[], ◌∷◌}

-- The digits before `s`, the lowest first. A tenth of a number that is not 0 is less.
unfoldable pub decimal_before : ℕ → ℕ → Text → Text
decimal_before zero n s = s
decimal_before (suc fuel) n s =
    let s' = (n % 10 + 48) ∷ s in
    let more = decimal_before fuel (n / 10) s' in if n / 10 == 0 then s' else more

unfoldable pub decimal : ℕ → Text
unfolding decimal_before
decimal n = decimal_before (suc n) n []

-- The number that digits stand for, read on from `n`.
unfoldable pub read_digits : ℕ → Text → ℕ
read_digits n [] = n
read_digits n (c ∷ s) = read_digits (n * 10 + (c - 48)) s

read_digits-decimal_before :
    (fuel n : ℕ) (s : Text) → n < fuel → read_digits 0 (decimal_before fuel n s) ≡ read_digits n s
unfolding decimal_before read_digits
read_digits-decimal_before zero n s h = absurd (omega arith)
read_digits-decimal_before (suc fuel) n s h = elim (Bool-cases (n / 10 == 0)) [
  | inl last ↦ rw last (ap (λ m. read_digits m s) (ground arith))
  | inr more ↦ rw more (
      read_digits-decimal_before fuel (n / 10) ((n % 10 + 48) ∷ s) (ground arith)
      ∙ ap (λ m. read_digits m s) (omega arith))
]

pub read_digits-decimal : (n : ℕ) → read_digits 0 (decimal n) ≡ n
unfolding decimal read_digits
read_digits-decimal n = read_digits-decimal_before (suc n) n [] (omega arith)

-- The first code unit, which is no minus sign where there is none.
abbrev pub first_code : Text → ℕ
first_code [] = 48
first_code (c ∷ s) = c

first_code-decimal_before :
    (fuel n : ℕ) (s : Text) → 48 ≤ first_code s → 48 ≤ first_code (decimal_before fuel n s)
unfolding decimal_before
first_code-decimal_before zero n s h = h
first_code-decimal_before (suc fuel) n s h =
    let more = first_code-decimal_before fuel (n / 10) ((n % 10 + 48) ∷ s) (omega arith) in
    elim (Bool-cases (n / 10 == 0)) [ inl last ↦ rw last (omega arith) | inr next ↦ rw next more ]

pub first_code-decimal : (n : ℕ) → (first_code (decimal n) == 45) ≡ false
unfolding decimal
first_code-decimal n =
    let h = first_code-decimal_before (suc n) n [] (omega arith) in ground (arith, h)
