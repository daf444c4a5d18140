-- ===== src/Parser/Decimal/Loop.antt =====
-- The loop of ParseFixedDecimalString on a run of digits before the point, and behind it.
use native.Mathlib.Nat.{pow-suc, pow-le-pow_right}
use hft_demo.Common.{
  ℕ, suc, ◌+◌, ◌-◌, ◌*◌, ◌^◌, ◌≤◌, ◌<◌, ◌≡◌, refl, ◌∙◌, Bool, true, false, List, [], ◌∷◌, ◌++◌,
  arith, leb, if◌then◌else◌, max_u64, some, none, Bool-cases, inl, inr, All, take, take_all, length,
  dec_lt,
}
use hft_demo.Parser.Decimal.{Scan, push_digit, scan_char, scan}
use hft_demo.Parser.Decimal.Value.{IsDigit, value, le-value}

-- The state before the point, and behind it.
abbrev pub int_state : ℕ → Bool → Scan
int_state n b = record {
  int_part = n;
  frac_part = 0;
  frac_digits = 0;
  has_digit = b;
  saw_dot = false;
}

abbrev pub frac_state : (n f k : ℕ) → Bool → Scan
frac_state n f k b = record {
  int_part = n;
  frac_part = f;
  frac_digits = k;
  has_digit = b;
  saw_dot = true;
}

-- A digit was seen before, or is in the list.
abbrev pub seen : Bool → List ℕ → Bool
seen b [] = b
seen b (_ ∷ _) = true

pub seen-true : (s : List ℕ) → seen true s ≡ true
seen-true [] = refl
seen-true (_ ∷ _) = refl

push_digit_lem :
    (n d : ℕ)
    → d ≤ 9
    → push_digit n d ≡ (if leb (n * 10 + d) max_u64 then some (n * 10 + d) else none)
unfolding push_digit
push_digit_lem n d h = ground arith

int_digit :
    (dp n c : ℕ) (b : Bool)
    → IsDigit c
    → scan_char dp (int_state n b) c ≡ (
        if leb (n * 10 + (c - b'0')) max_u64
        then some (int_state (n * 10 + (c - b'0')) true)
        else none)
unfolding scan_char
int_digit dp n c b h = ground (arith, push_digit_lem n (c - b'0'))

-- Digits before the point are read as a number, unless it does not fit 64 bits.
pub scan_int :
    (dp n : ℕ) (b : Bool) (ds rest : List ℕ)
    → All IsDigit ds
    → n ≤ max_u64
    → scan dp (int_state n b) (ds ++ rest) ≡ (
        if leb (value n ds) max_u64
        then scan dp (int_state (value n ds) (seen b ds)) rest
        else none)
unfolding scan value
scan_int dp n b [] rest h fits = ground arith
scan_int dp n b (c ∷ ds) rest h fits =
    let m = n * 10 + (c - b'0') in
    rw (int_digit dp n c b h.0) (elim (Bool-cases (leb m max_u64)) [
      | inl small ↦ rw small (scan_int dp m true ds rest h.1 (ground arith) ∙ rw seen-true)
      | inr large ↦ rw large (ground (arith, le-value m ds))
    ])

frac_digit :
    (dp n f k c : ℕ) (b : Bool)
    → IsDigit c
    → f < 10 ^ k
    → k < dp
    → dp ≤ 18
    → scan_char dp (frac_state n f k b) c ≡ some (frac_state n (f * 10 + (c - b'0')) (suc k) true)
unfolding scan_char
frac_digit dp n f k c b h below less few = ground (
  arith,
  push_digit_lem f (c - b'0'),
  pow-suc 10 k,
  pow-le-pow_right {n = 10} (omega arith) {i = suc k} {j = 18},
)

frac_beyond :
    (dp n f k c : ℕ) (b : Bool)
    → IsDigit c
    → k ≡ dp
    → scan_char dp (frac_state n f k b) c ≡ some (frac_state n f k true)
unfolding scan_char
frac_beyond dp n f k c b h e = ground arith

-- Of the digits behind the point the first `dp` are read; those beyond are dropped.
pub scan_frac :
    (dp n f k : ℕ) (b : Bool) (fs : List ℕ)
    → All IsDigit fs
    → f < 10 ^ k
    → k ≤ dp
    → dp ≤ 18
    → let counted = take (dp - k) fs in
      scan dp (frac_state n f k b) fs
      ≡ some (frac_state n (value f counted) (k + length counted) (seen b fs))
unfolding scan value
scan_frac dp n f k b [] h below less few =
    ground (arith, take_all {A = ℕ} (dp - k) [] (omega arith))
scan_frac dp n f k b (c ∷ fs) h below less few = elim (dec_lt k dp) [
  | yes more ↦
      let one_more : dp - k ≡ suc (dp - suc k) = omega arith in
      let next = f * 10 + (c - b'0') in
      let next_below : next < 10 ^ suc k = omega (arith, pow-suc 10 k) in
      rw (frac_digit dp n f k c b h.0 below more few, one_more)
        (scan_frac dp n next (suc k) true fs h.1 next_below more few ∙ ground (arith, seen-true fs))
  | no enough ↦
      let none_left : dp - k ≡ 0 = omega arith in
      rw (frac_beyond dp n f k c b h.0 (omega arith), none_left)
        (scan_frac dp n f k true fs h.1 below less few
          ∙ rw none_left (ground (arith, seen-true fs)))
]
