-- ===== src/Prelude/Decimal.antt =====
-- `Display` of an unsigned integer, and the number that decimal digits spell.
use Prim.Native.Nat.{ℕ, zero, suc, ◌+◌, ◌*◌, ◌-◌, ◌/◌, ◌%◌, ◌≤◌, ◌<◌}
use mathlib.Core.Path.{◌≡◌, refl, ◌∙◌}
use mathlib.Core.Logic.{inl, inr}
use mathlib.Core.List.{[], ◌∷◌, ◌++◌}
use native.Mathlib.Omega.{arith}
use tuyau.Prelude.Tests.{ltb, if◌then◌else◌, Bool-cases, ltb→lt, ltb-false→le}
use tuyau.Prelude.Lists.{All, All-append}
use tuyau.Prelude.Texts.{Text}

-- The digits on fuel; a number has no more digits than its value and one.
show_up_to : ℕ → ℕ → Text
show_up_to zero n = []
show_up_to (suc fuel) n =
    let rest = show_up_to fuel (n / 10) in
    if ltb n 10 then (n + b'0') ∷ [] else rest ++ (n % 10 + b'0') ∷ []

unfoldable pub show : ℕ → Text
unfolding show_up_to
show n = show_up_to (suc n) n

unfoldable pub value_from : ℕ → Text → ℕ
value_from n [] = n
value_from n (c ∷ s) = value_from (n * 10 + (c - b'0')) s

abbrev pub value : Text → ℕ
value s = value_from 0 s

abbrev pub IsDigit : ℕ → Type 0
IsDigit c = (b'0' ≤ c) × (c ≤ b'9')

value_from-append : (n : ℕ) (s t : Text) → value_from n (s ++ t) ≡ value_from (value_from n s) t
unfolding value_from
value_from-append n [] t = refl
value_from-append n (c ∷ s) t = value_from-append (n * 10 + (c - b'0')) s t

value-show_up_to : (fuel n : ℕ) → n < fuel → value (show_up_to fuel n) ≡ n
unfolding show_up_to value_from
value-show_up_to zero n h = absurd (omega arith)
value-show_up_to (suc fuel) n h = elim (Bool-cases (ltb n 10)) [
  | inl small ↦ rw small (omega arith)
  | inr large ↦
      let at_least = ltb-false→le n 10 large in
      rw large (
        value_from-append 0 (show_up_to fuel (n / 10)) ((n % 10 + b'0') ∷ [])
        ∙ omega (arith, value-show_up_to fuel (n / 10) (omega arith)))
]

show_up_to-IsDigit : (fuel n : ℕ) → All IsDigit (show_up_to fuel n)
unfolding show_up_to
show_up_to-IsDigit zero n = tt
show_up_to-IsDigit (suc fuel) n = elim (Bool-cases (ltb n 10)) [
  | inl small ↦ let below = ltb→lt n 10 small in rw small ((omega arith, omega arith), tt)
  | inr large ↦ rw large (
      All-append IsDigit (show_up_to fuel (n / 10)) _ (show_up_to-IsDigit fuel (n / 10))
        ((omega arith, omega arith), tt))
]

-- The digits of a number spell it.
pub value-show : (n : ℕ) → value (show n) ≡ n
unfolding show
value-show n = value-show_up_to (suc n) n (omega arith)

pub show-IsDigit : (n : ℕ) → All IsDigit (show n)
unfolding show
show-IsDigit n = show_up_to-IsDigit (suc n) n
