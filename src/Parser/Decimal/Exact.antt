-- ===== src/Parser/Decimal/Exact.antt =====
-- What ParseFixedDecimalString accepts and what it returns, against an independent reading: the
-- digits with the decimal point moved `decimal_places` to the right, zeros filled in.
use native.Mathlib.Nat.{pow-suc, pow-le-pow_right, pow-zero}
use hft_demo.Common.{
  ℕ, zero, suc, ◌+◌, ◌-◌, ◌*◌, ◌^◌, ◌≤◌, ◌<◌, ◌≡◌, refl, sym, ap, ◌∙◌, Bool, true, false, List, [],
  ◌∷◌, ◌++◌, append-nil, arith, leb, if◌then◌else◌, max_u64, some, none, Option, Bool-cases, inl,
  inr, All, take, take_all, length, length-take, length-append, replicate,
}
use hft_demo.Parser.Decimal.{
  Scan, start, scan_char, scan, finish, parse_fixed_decimal_string, ◌>>=◌,
}
use hft_demo.Parser.Decimal.Value.{
  IsDigit, value, value-append, value_split, value-zeros, value-lt, le-value,
}
use hft_demo.Parser.Decimal.Powers.{assemble_lem}
use hft_demo.Parser.Decimal.Loop.{int_state, frac_state, seen, scan_int, scan_frac}

-- A decimal text: digits, and perhaps a point with digits behind it.
pub record Number : Type 0 where
  pub whole : List ℕ
  pub fraction : Option (List ℕ)

abbrev pub text : Number → List ℕ
text x = elim x.fraction [ none ↦ x.whole | some fs ↦ x.whole ++ b'.' ∷ fs ]

abbrev pub fraction_digits : Number → List ℕ
fraction_digits x = elim x.fraction [ none ↦ [] | some fs ↦ fs ]

-- All digits are digits, and there is one at least.
pub record IsNumber (x : Number) : Type 0 where
  pub whole : All IsDigit x.whole
  pub fraction : All IsDigit (fraction_digits x)
  pub some_digit : 0 < length x.whole + length (fraction_digits x)

-- The number times 10^dp, digits beyond the `dp`-th behind the point left out.
abbrev pub scaled : ℕ → Number → ℕ
scaled dp x = value 0 (x.whole ++ take dp (fraction_digits x ++ replicate dp b'0'))

abbrev pub fit : ℕ → Option ℕ
fit n = if leb n max_u64 then some n else none

take-replicate : (n m c : ℕ) → n ≤ m → take n (replicate m c) ≡ replicate n c
take-replicate zero m c h = refl
take-replicate (suc n) zero c h = absurd (omega arith)
take-replicate (suc n) (suc m) c h = ap (λ t. c ∷ t) (take-replicate n m c (omega arith))

take_padded :
    (dp m c : ℕ) (fs : List ℕ)
    → dp ≤ m
    → take dp (fs ++ replicate m c) ≡ take dp fs ++ replicate (dp - length (take dp fs)) c
take_padded zero m c fs h = refl
take_padded (suc dp) m c [] h =
    let e : suc dp - 0 ≡ suc dp = omega arith in rw e (take-replicate (suc dp) m c h)
take_padded (suc dp) m c (x ∷ fs) h =
    let e : suc dp - suc (length (take dp fs)) ≡ dp - length (take dp fs) = omega arith in
    rw e (ap (λ t. x ∷ t) (take_padded dp m c fs (omega arith)))

pow_split : (a b c : ℕ) → a + b ≡ c → 10 ^ a * 10 ^ b ≡ 10 ^ c
pow_split a zero c e =
    let e' : c ≡ a = omega arith in rw e' (omega (arith, ap (λ (t : ℕ). 10 ^ a * t) (pow-zero 10)))
pow_split a (suc b) c e =
    let e' : c ≡ suc (a + b) = omega arith in
    rw e' (
      omega (
        arith,
        pow_split a b (a + b) refl,
        pow-suc 10 (a + b),
        ap (λ (t : ℕ). 10 ^ a * t) (pow-suc 10 b),
      ))

-- The scaled number by the two parts that the code computes.
scaled_parts :
    (dp : ℕ) (ds fs : List ℕ)
    → value 0 (ds ++ take dp (fs ++ replicate dp b'0'))
      ≡ value 0 ds * 10 ^ dp + value 0 (take dp fs) * 10 ^ (dp - length (take dp fs))
scaled_parts dp ds fs =
    let counted = take dp fs in
    let pad = dp - length counted in
    rw
      (
        take_padded dp dp b'0' fs (omega arith),
        value-append 0 ds (counted ++ replicate pad b'0'),
        value-append (value 0 ds) counted (replicate pad b'0'),
        value-zeros (value (value 0 ds) counted) pad,
        value_split (value 0 ds) counted,
      )
      (omega (
        arith,
        ap (λ (t : ℕ). value 0 ds * t)
            (pow_split (length counted) pad dp (omega (arith, length-take dp fs))),
      ))

All-take : (n : ℕ) (s : List ℕ) → All IsDigit s → All IsDigit (take n s)
All-take zero s h = tt
All-take (suc n) [] h = tt
All-take (suc n) (c ∷ s) h = (h.0, All-take n s h.1)

frac_fits :
    (dp : ℕ) (fs : List ℕ)
    → dp ≤ 18
    → All IsDigit fs
    → value 0 (take dp fs) * 10 ^ (dp - length (take dp fs)) ≤ max_u64
frac_fits dp fs few h =
    let counted = take dp fs in
    let pad = dp - length counted in
    let small : value 0 counted * 10 ^ pad ≤ 10 ^ length counted * 10 ^ pad =
      grind (arith, value-lt counted (All-take dp fs h)) in
    omega (
      arith,
      small,
      pow_split (length counted) pad dp (omega (arith, length-take dp fs)),
      pow-le-pow_right {n = 10} (omega arith) {i = dp} {j = 18} few,
    )

finish_lem :
    (dp : ℕ) (ds fs : List ℕ)
    → dp ≤ 18
    → All IsDigit fs
    → finish dp (frac_state (value 0 ds) (value 0 (take dp fs)) (0 + length (take dp fs)) true)
      ≡ fit (value 0 (ds ++ take dp (fs ++ replicate dp b'0')))
unfolding finish
finish_lem dp ds fs few h =
    let same : 0 + length (take dp fs) ≡ length (take dp fs) = omega arith in
    rw (same, scaled_parts dp ds fs)
      (assemble_lem (value 0 ds) dp (value 0 (take dp fs)) (dp - length (take dp fs)) few
        (omega arith) (frac_fits dp fs few h))

parse_nonempty :
    (dp : ℕ) (s : List ℕ)
    → dp ≤ 18
    → 0 < length s
    → parse_fixed_decimal_string s dp ≡ (scan dp start s >>= finish dp)
unfolding parse_fixed_decimal_string
parse_nonempty dp [] few h = absurd (omega arith)
parse_nonempty dp (c ∷ s) few h = ground arith

value-le-scaled : (ds s : List ℕ) → value 0 ds ≤ value 0 (ds ++ s)
value-le-scaled ds s = omega (arith, value-append 0 ds s, le-value (value 0 ds) s)

seen-some : (s : List ℕ) → 0 < length s → seen false s ≡ true
seen-some [] h = absurd (omega arith)
seen-some (_ ∷ _) h = refl

-- Where the digits before the point do not fit, the scaled number does not either.
too_large : (ds s : List ℕ) → leb (value 0 ds) max_u64 ≡ false → none ≡ fit (value 0 (ds ++ s))
too_large ds s h = ground (arith, value-le-scaled ds s)

scan_whole :
    (dp : ℕ) (ds : List ℕ)
    → All IsDigit ds
    → 0 < length ds
    → scan dp start ds
      ≡ (if leb (value 0 ds) max_u64 then some (int_state (value 0 ds) true) else none)
unfolding scan
scan_whole dp ds h some_digit =
    ap (scan dp start) (sym (append-nil ds))
    ∙ scan_int dp 0 false ds [] h (omega arith)
    ∙ rw (seen-some ds some_digit)

finish_whole :
    (dp : ℕ) (ds : List ℕ)
    → dp ≤ 18
    → finish dp (int_state (value 0 ds) true)
      ≡ fit (value 0 (ds ++ take dp ([] ++ replicate dp b'0')))
unfolding finish value
finish_whole dp ds few =
    let none_taken : take {A = ℕ} dp [] ≡ [] = take_all dp [] (omega arith) in
    ground (arith, none_taken, finish_lem dp ds [] few tt)

point : (dp n : ℕ) (b : Bool) → scan_char dp (int_state n b) b'.' ≡ some (frac_state n 0 0 b)
unfolding scan_char
point dp n b = refl

seen-either : (ds fs : List ℕ) → 0 < length ds + length fs → seen (seen false ds) fs ≡ true
seen-either [] [] h = absurd (omega arith)
seen-either [] (_ ∷ fs) h = refl
seen-either (_ ∷ ds) [] h = refl
seen-either (_ ∷ ds) (_ ∷ fs) h = refl

scan_fraction :
    (dp : ℕ) (ds fs : List ℕ)
    → dp ≤ 18
    → All IsDigit ds
    → All IsDigit fs
    → 0 < length ds + length fs
    → scan dp start (ds ++ b'.' ∷ fs) ≡ (
        if leb (value 0 ds) max_u64
        then some (frac_state (value 0 ds) (value 0 (take dp fs)) (0 + length (take dp fs)) true)
        else none)
scan_fraction dp ds fs few hd hf some_digit =
    scan_int dp 0 false ds (b'.' ∷ fs) hd (omega arith)
    ∙ ap (λ (r : Option Scan). if leb (value 0 ds) max_u64 then r else none) behind
  where
    behind :
        scan dp (int_state (value 0 ds) (seen false ds)) (b'.' ∷ fs)
        ≡ some (frac_state (value 0 ds) (value 0 (take dp fs)) (0 + length (take dp fs)) true)
    behind =
        unfold scan in
        rw (point dp (value 0 ds) (seen false ds)) (
          scan_frac dp (value 0 ds) 0 0 (seen false ds) fs hf (omega (arith, pow-zero 10))
            (omega arith) few
          ∙ (let all_left : dp - 0 ≡ dp = omega arith in
              rw (seen-either ds fs some_digit, all_left)))

parse_whole :
    (dp : ℕ) (ds : List ℕ)
    → dp ≤ 18
    → All IsDigit ds
    → 0 < length ds
    → parse_fixed_decimal_string ds dp ≡ fit (value 0 (ds ++ take dp ([] ++ replicate dp b'0')))
parse_whole dp ds few h some_digit =
    rw (parse_nonempty dp ds few some_digit, scan_whole dp ds h some_digit)
      (elim (Bool-cases (leb (value 0 ds) max_u64)) [
        | inl small ↦ rw small (finish_whole dp ds few)
        | inr large ↦ rw large (too_large ds _ large)
      ])

parse_fraction :
    (dp : ℕ) (ds fs : List ℕ)
    → dp ≤ 18
    → All IsDigit ds
    → All IsDigit fs
    → 0 < length ds + length fs
    → parse_fixed_decimal_string (ds ++ b'.' ∷ fs) dp
      ≡ fit (value 0 (ds ++ take dp (fs ++ replicate dp b'0')))
parse_fraction dp ds fs few hd hf some_digit =
    rw
      (
        parse_nonempty dp (ds ++ b'.' ∷ fs) few (omega (arith, length-append ds (b'.' ∷ fs))),
        scan_fraction dp ds fs few hd hf some_digit,
      )
      (elim (Bool-cases (leb (value 0 ds) max_u64)) [
        | inl small ↦ rw small (finish_lem dp ds fs few hf)
        | inr large ↦ rw large (too_large ds _ large)
      ])

-- A decimal text with one digit at least is read as its number times 10^dp, digits beyond the dp-th
-- behind the point left out, if that fits 64 bits, and refused if it does not.
pub parse_exact :
    (dp : ℕ) (x : Number)
    → dp ≤ 18
    → IsNumber x
    → parse_fixed_decimal_string (text x) dp ≡ fit (scaled dp x)
parse_exact dp x few v = by_fraction x.whole x.fraction v.whole v.fraction v.some_digit
  where
    by_fraction :
        (ds : List ℕ) (f : Option (List ℕ))
        → let y : Number = record { whole = ds; fraction = f } in
          All IsDigit ds
          → All IsDigit (fraction_digits y)
          → 0 < length ds + length (fraction_digits y)
          → parse_fixed_decimal_string (text y) dp ≡ fit (scaled dp y)
    by_fraction ds none hd hf h = parse_whole dp ds few hd (omega arith)
    by_fraction ds (some fs) hd hf h = parse_fraction dp ds fs few hd hf h
