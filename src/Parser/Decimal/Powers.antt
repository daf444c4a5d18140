-- ===== src/Parser/Decimal/Powers.antt =====
-- The table of powers of ten, and the checked arithmetic of AssembleFixedDecimalToUint64.
use native.Mathlib.Nat.{pow-zero, pow-suc, one-le-pow, le-div_iff_mul-le}
use hft_demo.Common.{
  ℕ, zero, suc, ◌+◌, ◌*◌, ◌^◌, ◌≤◌, ◌<◌, ◌≡◌, refl, ap, List, [], ◌∷◌, get_or, arith, leb,
  if◌then◌else◌, max_u64, some, none,
}
use hft_demo.Parser.Decimal.{pow10_u64, pow10, scaled_term, sum_terms, assemble}

-- `n` numbers, of which the first is `p` and each is ten times the one before it.
abbrev tenfold : (n p : ℕ) → List ℕ
tenfold zero p = []
tenfold (suc n) p = p ∷ tenfold n (10 * p)

tenfold-at : (n p k : ℕ) → k < n → get_or (tenfold n p) k 0 ≡ 10 ^ k * p
tenfold-at zero p k h = absurd (omega arith)
tenfold-at (suc n) p zero h = omega (arith, pow-zero 10)
tenfold-at (suc n) p (suc k) h =
    omega (arith, tenfold-at n (10 * p) k (omega arith), ap (λ (t : ℕ). t * p) (pow-suc 10 k))

pow10_table : pow10_u64 ≡ tenfold 19 1
pow10_table = refl

pub pow10_lem : (k : ℕ) → k ≤ 18 → pow10 k ≡ 10 ^ k
unfolding pow10
pow10_lem k h =
    omega (arith, ap (λ (ps : List ℕ). get_or ps k 0) pow10_table, tenfold-at 19 1 k (omega arith))

scaled_term_lem :
    (part scale : ℕ)
    → 0 < scale
    → scaled_term part scale ≡ (if leb (part * scale) max_u64 then some (part * scale) else none)
unfolding scaled_term
scaled_term_lem part scale h = ground (
  arith,
  (le-div_iff_mul-le {k = scale} {x = part} {y = max_u64} h).0,
  (le-div_iff_mul-le {k = scale} {x = part} {y = max_u64} h).1,
)

-- The sum of the two scaled parts where it fits 64 bits, and nothing where it does not.
pub assemble_lem :
    (int_part dp frac_part pad : ℕ)
    → dp ≤ 18
    → pad ≤ 18
    → frac_part * 10 ^ pad ≤ max_u64
    → assemble int_part dp frac_part pad ≡ (
        if leb (int_part * 10 ^ dp + frac_part * 10 ^ pad) max_u64
        then some (int_part * 10 ^ dp + frac_part * 10 ^ pad)
        else none)
unfolding assemble sum_terms
assemble_lem int_part dp frac_part pad hd hp fits =
    rw
      (
        pow10_lem dp hd,
        pow10_lem pad hp,
        scaled_term_lem int_part (10 ^ dp) (one-le-pow dp 10 (omega arith)),
        scaled_term_lem frac_part (10 ^ pad) (one-le-pow pad 10 (omega arith)),
      )
      (ground arith)
