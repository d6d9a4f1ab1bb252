-- ===== src/Base/Decimal.antt =====
-- `%d` of a natural number, and that different numbers print differently.
use Prim.Native.Nat.{ℕ, zero, suc, ◌+◌, ◌-◌, ◌*◌, ◌/◌, ◌%◌, ◌<◌}
use mathlib.Core.Path.{◌≡◌, refl, sym, ap, ◌∙◌}
use mathlib.Core.Logic.{inl, inr}
use mathlib.Core.List.{[], ◌∷◌, ◌++◌}
use native.Mathlib.Omega.{arith}
use coragent.Base.Tests.{ltb, if◌then◌else◌, Bool-cases}
use coragent.Base.Text.{Bytes, codes}

-- Each round of the fuel prints the last digit.
digits : ℕ → ℕ → Bytes
digits zero n = []
digits (suc f) n =
    let rest = digits f (n / 10) in
    if ltb n 10 then (b'0' + n) ∷ [] else rest ++ (b'0' + n % 10) ∷ []

unfoldable pub decimal : ℕ → Bytes
unfolding digits
decimal n = digits (suc n) n

-- The number that digits spell, read from the left.
value : ℕ → Bytes → ℕ
value acc [] = acc
value acc (c ∷ s) = value (acc * 10 + (c - b'0')) s

value-append :
    (acc : ℕ) (s : Bytes) (c : ℕ) → value acc (s ++ c ∷ []) ≡ value acc s * 10 + (c - b'0')
unfolding value
value-append acc [] c = refl
value-append acc (d ∷ s) c = value-append (acc * 10 + (d - b'0')) s c

value-digits : (f n : ℕ) → n < f → value 0 (digits f n) ≡ n
unfolding digits
value-digits zero n h = absurd (omega arith)
value-digits (suc f) n h = elim (Bool-cases (ltb n 10)) [
  | inl e ↦ rw e (unfold value in omega arith)
  | inr e ↦
      rw (e, value-append 0 (digits f (n / 10)), value-digits f (n / 10) (ground arith))
        (omega arith)
]

value-decimal : (n : ℕ) → value 0 (decimal n) ≡ n
unfolding decimal
value-decimal n = value-digits (suc n) n (omega arith)

pub decimal-injective : {m n : ℕ} → decimal m ≡ decimal n → m ≡ n
decimal-injective {m} {n} h = sym (value-decimal m) ∙ ap (value 0) h ∙ value-decimal n

decimal_zero : decimal 0 ≡ codes "0"
unfolding decimal
decimal_zero = refl

decimal_large : decimal 1207 ≡ codes "1207"
unfolding decimal
decimal_large = refl
