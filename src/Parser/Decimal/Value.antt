-- ===== src/Parser/Decimal/Value.antt =====
-- The number that a run of decimal digits spells, with no bound.
use native.Mathlib.Nat.{pow-suc, pow-zero}
use hft_demo.Common.{
  ℕ, zero, suc, ◌+◌, ◌-◌, ◌*◌, ◌^◌, ◌≤◌, ◌<◌, ◌≡◌, refl, ap, List, [], ◌∷◌, ◌++◌, arith, length,
  replicate, All,
}

abbrev pub IsDigit : ℕ → Type 0
IsDigit c = (b'0' ≤ c) × (c ≤ b'9')

-- `n` followed by the digits.
unfoldable pub value : ℕ → List ℕ → ℕ
value n [] = n
value n (c ∷ s) = value (n * 10 + (c - b'0')) s

pub value-append : (n : ℕ) (xs ys : List ℕ) → value n (xs ++ ys) ≡ value (value n xs) ys
unfolding value
value-append n [] ys = refl
value-append n (x ∷ xs) ys = value-append (n * 10 + (x - b'0')) xs ys

pub value_split : (n : ℕ) (s : List ℕ) → value n s ≡ n * 10 ^ length s + value 0 s
unfolding value
value_split n [] = omega (arith, pow-zero 10, ap (λ (t : ℕ). n * t) (pow-zero 10))
value_split n (c ∷ s) = omega (
  arith,
  value_split (n * 10 + (c - b'0')) s,
  value_split (0 * 10 + (c - b'0')) s,
  ap (λ (t : ℕ). n * t) (pow-suc 10 (length s)),
  pow-suc 10 (length s),
)

pub value-zeros : (n k : ℕ) → value n (replicate k b'0') ≡ n * 10 ^ k
unfolding value
value-zeros n zero = omega (arith, ap (λ (t : ℕ). n * t) (pow-zero 10))
value-zeros n (suc k) =
    omega (arith, value-zeros (n * 10 + (b'0' - b'0')) k, ap (λ (t : ℕ). n * t) (pow-suc 10 k))

pub le-value : (n : ℕ) (s : List ℕ) → n ≤ value n s
unfolding value
le-value n [] = omega arith
le-value n (c ∷ s) = omega (arith, le-value (n * 10 + (c - b'0')) s)

-- `k` digits spell a number below 10^k.
pub value-lt : (s : List ℕ) → All IsDigit s → value 0 s < 10 ^ length s
unfolding value
value-lt [] h = omega (arith, pow-zero 10)
value-lt (c ∷ s) h =
    omega
      (arith, value-lt s h.1, value_split (0 * 10 + (c - b'0')) s, pow-suc 10 (length s), digit_le)
  where
    digit_le : (0 * 10 + (c - b'0')) * 10 ^ length s ≤ 9 * 10 ^ length s
    digit_le = grind arith
