-- ===== src/Parser/Decimal/Sound.antt =====
-- Whatever ParseFixedDecimalString accepts is a decimal text: no other character, at most one point
-- and one digit at least.
use hft_demo.Common.{
  ℕ, ◌+◌, ◌≤◌, ◌<◌, ◌≡◌, refl, Bool, true, false, List, [], ◌∷◌, arith, some, none, Option,
  Bool-cases, Option-cases, inl, inr, ◌⊎◌, All, length, ap, sym, ◌∙◌, max_u64,
}
use hft_demo.Parser.Decimal.{
  Scan, start, scan_char, scan, finish, parse_fixed_decimal_string, is_digit,
}
use hft_demo.Parser.Decimal.Value.{IsDigit}
use hft_demo.Parser.Decimal.Exact.{
  Number, IsNumber, text, fraction_digits, scaled, fit, parse_exact,
}
use hft_demo.Parser.Decimal.Loop.{seen, seen-true}

-- Inversion of one round: a digit, or the first point.
record Digit (st st' : Scan) (c : ℕ) : Type 0 where
  digit : IsDigit c
  same_dot : st'.saw_dot ≡ st.saw_dot
  counted : st'.has_digit ≡ true

record Point (st st' : Scan) (c : ℕ) : Type 0 where
  point : c ≡ b'.'
  first : st.saw_dot ≡ false
  dot : st'.saw_dot ≡ true
  same_digit : st'.has_digit ≡ st.has_digit

Digit-round :
    (dp : ℕ) (st st' : Scan) (c : ℕ)
    → is_digit c ≡ true
    → scan_char dp st c ≡ some st'
    → Digit st st' c
unfolding scan_char
Digit-round dp st st' c d h = ground arith

Point-round :
    (dp : ℕ) (st st' : Scan) (c : ℕ)
    → is_digit c ≡ false
    → scan_char dp st c ≡ some st'
    → Point st st' c
unfolding scan_char
Point-round dp st st' c d h = ground arith

scan_char-cases :
    (dp : ℕ) (st st' : Scan) (c : ℕ)
    → scan_char dp st c ≡ some st'
    → Digit st st' c ⊎ Point st st' c
scan_char-cases dp st st' c h = elim (Bool-cases (is_digit c)) [
  | inl d ↦ inl (Digit-round dp st st' c d h)
  | inr d ↦ inr (Point-round dp st st' c d h)
]

scan-cons :
    (dp : ℕ) (st st' : Scan) (c : ℕ) (s : List ℕ)
    → scan dp st (c ∷ s) ≡ some st'
    → (mid : Scan) × (scan_char dp st c ≡ some mid) × (scan dp mid s ≡ some st')
unfolding scan
scan-cons dp st st' c s h = elim (Option-cases (scan_char dp st c)) [
  | inl e ↦ cc (rw e at h)
  | inr (mid, e) ↦ (mid, e, rw e at h)
]

scan-nil : (dp : ℕ) (st st' : Scan) → scan dp st [] ≡ some st' → st ≡ st'
unfolding scan
scan-nil dp st st' h = ground arith

-- Behind the point only digits are accepted.
scan_behind :
    (dp : ℕ) (st st' : Scan) (s : List ℕ)
    → st.saw_dot ≡ true
    → scan dp st s ≡ some st'
    → All IsDigit s × (st'.has_digit ≡ seen st.has_digit s)
scan_behind dp st st' [] dot h = (tt, ground (arith, scan-nil dp st st' h))
scan_behind dp st st' (c ∷ s) dot h =
    let (mid, one, rest) = scan-cons dp st st' c s h in
    elim (scan_char-cases dp st mid c one) [
      | inl r ↦
          let (digits, flag) = scan_behind dp mid st' s (r.same_dot ∙ dot) rest in
          ((r.digit, digits), flag ∙ rw r.counted (seen-true s))
      | inr r ↦ cc (r.first)
    ]

-- What was accepted, when `ds` digits were still to be put in front.
record Accepted (b : Bool) (s : List ℕ) (st' : Scan) : Type 0 where
  number : Number
  spelled : s ≡ text number
  whole : All IsDigit number.whole
  fraction : All IsDigit (fraction_digits number)
  flag : st'.has_digit ≡ seen (seen b number.whole) (fraction_digits number)

text-cons :
    (c : ℕ) (ds : List ℕ) (f : Option (List ℕ))
    → text (record { whole = c ∷ ds; fraction = f })
      ≡ c ∷ text (record { whole = ds; fraction = f })
text-cons c ds none = refl
text-cons c ds (some fs) = refl

scan_before :
    (dp : ℕ) (st st' : Scan) (s : List ℕ)
    → st.saw_dot ≡ false
    → scan dp st s ≡ some st'
    → Accepted st.has_digit s st'
scan_before dp st st' [] dot h = record {
  number = record { whole = []; fraction = none };
  spelled = refl;
  whole = tt;
  fraction = tt;
  flag = ground (arith, scan-nil dp st st' h);
}
scan_before dp st st' (c ∷ s) dot h =
    let (mid, one, rest) = scan-cons dp st st' c s h in
    elim (scan_char-cases dp st mid c one) [
      | inl r ↦
          let a = scan_before dp mid st' s (r.same_dot ∙ dot) rest in
          record {
            number = record { whole = c ∷ a.number.whole; fraction = a.number.fraction };
            spelled =
                ap (λ t. c ∷ t) a.spelled ∙ sym (text-cons c a.number.whole a.number.fraction);
            whole = (r.digit, a.whole);
            fraction = a.fraction;
            flag = a.flag ∙ rw (r.counted, seen-true a.number.whole);
          }
      | inr r ↦
          let (digits, flag) = scan_behind dp mid st' s r.dot rest in
          record {
            number = record { whole = []; fraction = some s };
            spelled = ap (λ x. x ∷ s) r.point;
            whole = tt;
            fraction = digits;
            flag = flag ∙ rw r.same_digit;
          }
    ]

some_seen : (ds fs : List ℕ) → seen (seen false ds) fs ≡ true → 0 < length ds + length fs
some_seen [] [] h = cc
some_seen [] (_ ∷ fs) h = omega arith
some_seen (_ ∷ ds) fs h = omega arith

finish_needs_digit : (dp : ℕ) (st : Scan) {r : ℕ} → finish dp st ≡ some r → st.has_digit ≡ true
unfolding finish
finish_needs_digit dp st h = ground arith

accepted_number :
    (dp : ℕ) (s : List ℕ) {r : ℕ}
    → parse_fixed_decimal_string s dp ≡ some r
    → (x : Number) × IsNumber x × (s ≡ text x)
unfolding parse_fixed_decimal_string
accepted_number dp [] h = cc
accepted_number dp (c ∷ s) {r} h = elim (Option-cases (scan dp start (c ∷ s))) [
  | inl e ↦ cc (no_result e)
  | inr (st, e) ↦
      let a = scan_before dp start st (c ∷ s) refl e in
      (
        a.number,
        record {
          whole = a.whole;
          fraction = a.fraction;
          some_digit =
              some_seen a.number.whole (fraction_digits a.number)
                (sym a.flag ∙ finish_needs_digit dp st (result st e));
        },
        a.spelled,
      )
]
  where
    no_result : scan dp start (c ∷ s) ≡ none → none ≡ some r
    no_result e = ground arith

    result : (st : Scan) → scan dp start (c ∷ s) ≡ some st → finish dp st ≡ some r
    result st e = ground arith

-- An accepted text is a decimal text, and the result is its scaled number, which fits 64 bits.
pub parse_sound :
    (dp : ℕ) (s : List ℕ) {r : ℕ}
    → dp ≤ 18
    → parse_fixed_decimal_string s dp ≡ some r
    → (x : Number) × IsNumber x × (s ≡ text x) × (r ≡ scaled dp x) × (r ≤ max_u64)
parse_sound dp s {r} few h =
    let (x, v, e) = accepted_number dp s h in
    let exact : fit (scaled dp x) ≡ some r =
      sym (parse_exact dp x few v) ∙ ap (λ t. parse_fixed_decimal_string t dp) (sym e) ∙ h in
    (x, v, e, ground arith, ground arith)
