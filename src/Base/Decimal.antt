-- ===== src/Base/Decimal.antt =====
-- Numbers in decimal: `fmt.Sprint` and `%d`.
use Prim.Native.Nat.{ℕ, zero, suc, ◌+◌, ◌-◌, ◌*◌, ◌/◌, ◌%◌, ◌<◌}
use mathlib.Core.Path.{◌≡◌, sym, ap, ◌∙◌}
use mathlib.Core.List.{[], ◌∷◌}
use native.Mathlib.Omega.{arith}
use local_vibe.Base.Tests.{◌==◌, if◌then◌else◌}
use local_vibe.Base.Texts.{Text}

-- The digits of `n` in front of `acc`. One more than `n` is enough fuel.
digits : ℕ → ℕ → Text → Text
digits zero n acc = acc
digits (suc fuel) n acc =
    let more = digits fuel (n / 10) ((48 + n % 10) ∷ acc) in
    if n / 10 == 0 then (48 + n % 10) ∷ acc else more

unfoldable pub itoa : ℕ → Text
unfolding digits
itoa n = digits (suc n) n []

abbrev pub value : ℕ → Text → ℕ
value n [] = n
value n (c ∷ s) = value (n * 10 + (c - 48)) s

value-digits : (fuel n : ℕ) (acc : Text) → n < fuel → value 0 (digits fuel n acc) ≡ value n acc
unfolding digits
value-digits zero n acc h = elim h [ ]
value-digits (suc fuel) n acc h =
    let back : n / 10 * 10 + (48 + n % 10 - 48) ≡ n = omega arith in
    ground (arith, value-digits fuel (n / 10) ((48 + n % 10) ∷ acc), back)

-- Reading the digits back gives the number.
pub value-itoa : (n : ℕ) → value 0 (itoa n) ≡ n
unfolding itoa
value-itoa n = value-digits (suc n) n [] (omega arith)

pub itoa_injective : (m n : ℕ) → itoa m ≡ itoa n → m ≡ n
itoa_injective m n e = sym (value-itoa m) ∙ (ap (value 0) e ∙ value-itoa n)
