-- ===== src/Parser/Decimal/Print.antt =====
-- The texts that a scaled number is printed as.
use native.Mathlib.Nat.{pow-suc, pow-zero, div-add-mod', mod-lt, one-le-pow}
use hft_demo.Common.{
  ℕ, zero, suc, ◌+◌, ◌*◌, ◌/◌, ◌%◌, ◌^◌, ◌≤◌, ◌<◌, ◌≡◌, refl, ap, ◌∙◌, List, [], ◌∷◌, ◌++◌, All,
  max_u64, some, arith, length, length-append, take, replicate,
}
use hft_demo.Parser.Decimal.{parse_fixed_decimal_string}
use hft_demo.Parser.Decimal.Value.{IsDigit, value, value-append, value_split}
use hft_demo.Parser.Decimal.Exact.{Number, IsNumber, scaled, fit, parse_exact}

-- The last `k` decimal digits of a number.
abbrev pub digits : (k n : ℕ) → List ℕ
digits zero n = []
digits (suc k) n = digits k (n / 10) ++ (b'0' + n % 10) ∷ []

-- A number with `dp` digits behind its point and `k` before it.
abbrev pub printed : (k dp n : ℕ) → List ℕ
printed k dp n = digits k (n / 10 ^ dp) ++ b'.' ∷ digits dp (n % 10 ^ dp)

length-digits : (k n : ℕ) → length (digits k n) ≡ k
length-digits zero n = refl
length-digits (suc k) n =
    omega
      (arith, length-append (digits k (n / 10)) ((b'0' + n % 10) ∷ []), length-digits k (n / 10))

All-append : (xs : List ℕ) (y : ℕ) → All IsDigit xs → IsDigit y → All IsDigit (xs ++ y ∷ [])
All-append [] y v w = (w, tt)
All-append (x ∷ xs) y v w = (v.0, All-append xs y v.1 w)

digits-IsDigit : (k n : ℕ) → All IsDigit (digits k n)
digits-IsDigit zero n = tt
digits-IsDigit (suc k) n =
    All-append (digits k (n / 10)) (b'0' + n % 10) (digits-IsDigit k (n / 10))
      (omega arith, omega arith)

value-digits : (k n : ℕ) → n < 10 ^ k → value 0 (digits k n) ≡ n
unfolding value
value-digits zero n h = omega (arith, pow-zero 10)
value-digits (suc k) n h =
    let less : n / 10 < 10 ^ k = omega (arith, pow-suc 10 k) in
    value-append 0 (digits k (n / 10)) ((b'0' + n % 10) ∷ [])
    ∙ ap (λ m. value m ((b'0' + n % 10) ∷ [])) (value-digits k (n / 10) less)
    ∙ omega arith

take_front : (n : ℕ) (xs ys : List ℕ) → length xs ≡ n → take n (xs ++ ys) ≡ xs
take_front zero [] ys e = refl
take_front zero (x ∷ xs) ys e = absurd (omega arith)
take_front (suc n) [] ys e = absurd (omega arith)
take_front (suc n) (x ∷ xs) ys e = ap (λ (zs : List ℕ). x ∷ zs) (take_front n xs ys (omega arith))

-- Every number of 64 bits, printed with `dp` digits behind its point and with digits enough before
-- it, leading zeros or not, is read back as it is.
pub parse-printed :
    (k dp n : ℕ)
    → dp ≤ 18
    → 0 < k
    → n / 10 ^ dp < 10 ^ k
    → n ≤ max_u64
    → parse_fixed_decimal_string (printed k dp n) dp ≡ some n
parse-printed k dp n few some_digit wide small =
    let whole = digits k (n / 10 ^ dp) in
    let fraction = digits dp (n % 10 ^ dp) in
    let x : Number = record { whole = whole; fraction = some fraction } in
    let v : IsNumber x = record {
      whole = digits-IsDigit k (n / 10 ^ dp);
      fraction = digits-IsDigit dp (n % 10 ^ dp);
      some_digit = omega (arith, length-digits k (n / 10 ^ dp));
    } in
    let less : n % 10 ^ dp < 10 ^ dp = mod-lt n (one-le-pow dp 10 (omega arith)) in
    let same : scaled dp x ≡ n =
      ap (λ s. value 0 (whole ++ s))
        (take_front dp fraction (replicate dp b'0') (length-digits dp (n % 10 ^ dp)))
      ∙ value-append 0 whole fraction
      ∙ ap (λ m. value m fraction) (value-digits k (n / 10 ^ dp) wide)
      ∙ value_split (n / 10 ^ dp) fraction
      ∙ ap (λ m. n / 10 ^ dp * 10 ^ m + value 0 fraction) (length-digits dp (n % 10 ^ dp))
      ∙ ap (λ m. n / 10 ^ dp * 10 ^ dp + m) (value-digits dp (n % 10 ^ dp) less)
      ∙ div-add-mod' n (10 ^ dp) in
    parse_exact dp x few v ∙ ap fit same ∙ ground (arith, small)
