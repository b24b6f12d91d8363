-- ===== src/View/Decimal.antt =====
-- The decimal form of a number determines the number.
use agentic_warden.Prelude.{
  ℕ, zero, suc, ◌+◌, ◌-◌, ◌*◌, ◌/◌, ◌%◌, ◌<◌, [], ◌∷◌, Text, ltb, ◌≡◌, refl, sym, ap, ◌∙◌, arith,
  true, truthy, Bool-cases, inl, inr,
}
use agentic_warden.Prelude.{all_units, is_digit}
use agentic_warden.View.{digits, decimal}

unfoldable pub value : ℕ → Text → ℕ
value n [] = n
value n (c ∷ s) = value (n * 10 + (c - b'0')) s

value-digits : (fuel n : ℕ) (out : Text) → n < fuel → value 0 (digits fuel n out) ≡ value n out
unfolding digits value
value-digits zero n out h = elim h [ ]
value-digits (suc fuel) n out h = elim (Bool-cases (ltb n 10)) [
  | inl small ↦ rw (small, digits) (ap (λ k. value k out) (omega arith))
  | inr large ↦
      rw (large, digits)
        (value-digits fuel (n / 10) ((b'0' + n % 10) ∷ out) (ground arith)
          ∙ ap (λ k. value k out) (omega arith))
]

pub value-decimal : (n : ℕ) → value 0 (decimal n) ≡ n
unfolding decimal value
value-decimal n = value-digits (suc n) n [] (omega arith)

pub decimal-injective : (n m : ℕ) → decimal n ≡ decimal m → n ≡ m
decimal-injective n m h = sym (value-decimal n) ∙ ap (value 0) h ∙ value-decimal m

abbrev pub IsNumber : Text → Type 0
IsNumber t = (truthy t ≡ true) × (all_units is_digit t ≡ true)

digits-IsNumber : (fuel n : ℕ) (out : Text) → IsNumber out → IsNumber (digits fuel n out)
unfolding digits
digits-IsNumber zero n out h = h
digits-IsNumber (suc fuel) n out h = elim (Bool-cases (ltb n 10)) [
  | inl small ↦ rw (small, digits) (refl, ground arith)
  | inr large ↦
      rw (large, digits)
        (digits-IsNumber fuel (n / 10) ((b'0' + n % 10) ∷ out) (refl, ground arith))
]

-- A number is written in digits, and in one at least.
pub decimal-IsNumber : (n : ℕ) → IsNumber (decimal n)
unfolding decimal digits
decimal-IsNumber n = elim (Bool-cases (ltb n 10)) [
  | inl small ↦ rw (small, digits) (refl, ground arith)
  | inr large ↦
      rw (large, digits) (digits-IsNumber n (n / 10) ((b'0' + n % 10) ∷ []) (refl, ground arith))
]
