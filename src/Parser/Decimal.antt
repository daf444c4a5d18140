-- ===== src/Parser/Decimal.antt =====
-- ParseFixedDecimalString and AssembleFixedDecimalToUint64 of lib/binance/parser.cpp: a decimal
-- text as an unsigned fixed-point number, in one pass and with no floating point.
pub mod Value
pub mod Powers
pub mod Loop
pub mod Exact
pub mod Print
pub mod Sound
use hft_demo.Common.{
  ℕ, zero, suc, ◌+◌, ◌-◌, ◌*◌, ◌/◌, ◌%◌, Bool, true, false, ◌&&◌, ◌||◌, not, List, [], ◌∷◌, Option,
  none, some, ltb, leb, ◌==◌, if◌then◌else◌, get_or, max_u64, add64, mul64,
}

-- `kPow10U64`
abbrev pub pow10_u64 : List ℕ
pow10_u64 =
    1 ∷ 10 ∷ 100 ∷ 1_000 ∷ 10_000 ∷ 100_000 ∷ 1_000_000 ∷ 10_000_000 ∷ 100_000_000 ∷ 1_000_000_000
    ∷ 10_000_000_000 ∷ 100_000_000_000 ∷ 1_000_000_000_000 ∷ 10_000_000_000_000
    ∷ 100_000_000_000_000 ∷ 1_000_000_000_000_000 ∷ 10_000_000_000_000_000 ∷ 100_000_000_000_000_000
    ∷ 1_000_000_000_000_000_000 ∷ []

-- Both callers have indices of 18 at most, so no read is out of range.
unfoldable pub pow10 : ℕ → ℕ
pow10 k = get_or pow10_u64 k 0

-- One term of `AssembleFixedDecimalToUint64`: `none` if the product would not fit.
unfoldable pub scaled_term : ℕ → ℕ → Option ℕ
scaled_term part scale =
    if part == 0
    then some 0
    else if ltb (max_u64 / scale) part
    then none
    else some (mul64 part scale)

-- The check of the sum of both terms.
unfoldable pub sum_terms : ℕ → ℕ → Option ℕ
sum_terms term1 term2 = if ltb (max_u64 - term2) term1 then none else some (add64 term1 term2)

infixl 5 ◌>>=◌
abbrev pub ◌>>=◌ {ℓ κ} : {A : Type ℓ} {B : Type κ} → Option A → (A → Option B) → Option B
none >>= f = none
some a >>= f = f a

-- `AssembleFixedDecimalToUint64`; `none` is its `false`.
unfoldable pub assemble : (int_part decimal_places frac_part frac_pad : ℕ) → Option ℕ
assemble int_part decimal_places frac_part frac_pad = do
  term1 ← scaled_term int_part (pow10 decimal_places)
  term2 ← scaled_term frac_part (pow10 frac_pad)
  sum_terms term1 term2

-- The variables of the loop of `ParseFixedDecimalString`.
pub record Scan : Type 0 where
  pub int_part : ℕ
  pub frac_part : ℕ
  pub frac_digits : ℕ
  pub has_digit : Bool
  pub saw_dot : Bool

abbrev pub start : Scan
start = record { int_part = 0; frac_part = 0; frac_digits = 0; has_digit = false; saw_dot = false }

-- `c >= '0' && c <= '9'`
abbrev pub is_digit : ℕ → Bool
is_digit c = leb b'0' c && leb c b'9'

-- `part * 10 + digit`, or `none` where it would not fit.
unfoldable pub push_digit : ℕ → ℕ → Option ℕ
push_digit part digit =
    if ltb ((max_u64 - digit) / 10) part then none else some (add64 (mul64 part 10) digit)

-- One round of the loop.
unfoldable pub scan_char : ℕ → Scan → ℕ → Option Scan
scan_char decimal_places st c =
    if is_digit c
    then (if not st.saw_dot
        then (push_digit st.int_part (c - b'0') >>= λ n.
            some (record st { has_digit = true; int_part = n }))
        else if ltb st.frac_digits decimal_places
        then (push_digit st.frac_part (c - b'0') >>= λ n.
            some (record st { has_digit = true; frac_part = n; frac_digits = suc st.frac_digits }))
        else some (record st { has_digit = true }))
    else if c == b'.'
    then (if st.saw_dot then none else some (record st { saw_dot = true }))
    else none

-- The loop over the characters from `p` to `last`.
unfoldable pub scan : ℕ → Scan → List ℕ → Option Scan
scan decimal_places st [] = some st
scan decimal_places st (c ∷ s) = scan_char decimal_places st c >>= λ st'. scan decimal_places st' s

-- Behind the loop. `frac_digits` never exceeds `decimal_places`, so the difference does not wrap.
unfoldable pub finish : ℕ → Scan → Option ℕ
finish decimal_places st =
    if not st.has_digit
    then none
    else assemble st.int_part decimal_places st.frac_part (decimal_places - st.frac_digits)

-- `ParseFixedDecimalString` on the characters from `first` to `last`; `none` is its `false`.
unfoldable pub parse_fixed_decimal_string : List ℕ → ℕ → Option ℕ
parse_fixed_decimal_string [] decimal_places = none
parse_fixed_decimal_string (c ∷ s) decimal_places =
    if ltb 18 decimal_places
    then none
    else scan decimal_places start (c ∷ s) >>= finish decimal_places
