-- ===== src/Prelude/Decimal.antt =====
-- Numbers as `Display` prints them, and the `i64` of an issue.
use Prim.Native.Nat.{ℕ, zero, suc, ◌+◌, ◌-◌, ◌*◌, ◌/◌, ◌%◌, ◌<◌}
use mathlib.Core.Path.{◌≡◌, refl, sym, ap, ◌∙◌}
use mathlib.Core.Logic.{◌↔◌, inl, inr}
use mathlib.Core.Bool.{Bool, true, false}
use mathlib.Core.List.{[], ◌∷◌}
use native.Mathlib.Omega.{arith}
use crossbridge.Prelude.Tests.{ltb, nat_eq, if◌then◌else◌, PartialEq, Bool-cases}
use crossbridge.Prelude.Text.{Text, codes}

-- The digits of `n` in front of `acc`; the fuel is `n + 1`, and a number has fewer digits.
digits : ℕ → ℕ → Text → Text
digits zero n acc = acc
digits (suc fuel) n acc =
    let more = digits fuel (n / 10) ((48 + n % 10) ∷ acc) in
    if ltb n 10 then (48 + n) ∷ acc else more

-- The number that a text of digits is read as, after `v`.
unfoldable pub value : Text → ℕ → ℕ
value [] v = v
value (c ∷ s) v = value s (v * 10 + (c - 48))

value-digits : (fuel n : ℕ) (acc : Text) → n < fuel → value (digits fuel n acc) 0 ≡ value acc n
unfolding digits value
value-digits zero n acc h = absurd (omega arith)
value-digits (suc fuel) n acc h = elim (Bool-cases (ltb n 10)) [
  | inl e ↦ rw e (ap (value acc) (omega arith))
  | inr e ↦ rw e (
      value-digits fuel (n / 10) ((48 + n % 10) ∷ acc) (ground arith)
      ∙ ap (value acc) (omega arith))
]

unfoldable pub decimal : ℕ → Text
unfolding digits
decimal n = digits (suc n) n []

-- What is printed is read back: the fuel is enough.
pub value-decimal : (n : ℕ) → value (decimal n) 0 ≡ n
unfolding decimal value
value-decimal n = value-digits (suc n) n [] (omega arith)

pub decimal_inj : (m n : ℕ) → decimal m ≡ decimal n → m ≡ n
decimal_inj m n h = sym (value-decimal m) ∙ ap (λ t. value t 0) h ∙ value-decimal n

-- `negsuc n` is -(n + 1). The program does no arithmetic on issue numbers.
pub data ℤ : Type 0 where
  pos : ℕ → ℤ
  negsuc : ℕ → ℤ

unfoldable pub int_eq : ℤ → ℤ → Bool
int_eq (pos m) (pos n) = nat_eq m n
int_eq (pos m) (negsuc n) = false
int_eq (negsuc m) (pos n) = false
int_eq (negsuc m) (negsuc n) = nat_eq m n

pub int_eq_iff : (a b : ℤ) → (int_eq a b ≡ true) ↔ (a ≡ b)
unfolding int_eq
int_eq_iff (pos m) (pos n) = ground arith
int_eq_iff (pos m) (negsuc n) = ground arith
int_eq_iff (negsuc m) (pos n) = ground arith
int_eq_iff (negsuc m) (negsuc n) = ground arith

instance abbrev pub int_has_eq : PartialEq ℤ
int_has_eq = record { is_eq = int_eq; is_eq_iff = int_eq_iff }

unfoldable pub display_int : ℤ → Text
unfolding decimal
display_int (pos n) = decimal n
display_int (negsuc n) = b'-' ∷ decimal (suc n)

decimal_example : decimal 16777216 ≡ codes "16777216"
unfolding decimal codes
decimal_example = refl
