-- ===== src/Observer/Percentiles.antt =====
-- PercentileFromSorted and SortAndWriteLatencyPercentiles of observer/observer.cpp.
mod Tests
use native.Mathlib.Nat.{mul-le-mul_left, mod-eq_of_lt}
use hft_demo.Common.{
  ℕ, zero, suc, ◌+◌, ◌-◌, ◌*◌, ◌/◌, ◌%◌, ◌≤◌, ◌<◌, ◌≡◌, refl, ap, ◌∙◌, List, [], ◌∷◌, arith, ltb,
  leb, ◌==◌, if◌then◌else◌, length, get_or, mul64, u64_mod, Bool, true, false, Bool-cases, inl, inr,
}

-- `PercentileFromSorted`
unfoldable pub percentile_from_sorted : List ℕ → (perc : ℕ) → ℕ
percentile_from_sorted sorted perc =
    if length sorted == 0 then 0 else get_or sorted (mul64 (length sorted - 1) perc / 100) 0

-- std::sort of numbers.
abbrev pub insert : ℕ → List ℕ → List ℕ
insert x [] = x ∷ []
insert x (y ∷ ys) = let rest = insert x ys in if leb x y then x ∷ y ∷ ys else y ∷ rest

abbrev pub sort : List ℕ → List ℕ
sort [] = []
sort (x ∷ xs) = insert x (sort xs)

-- `SortAndWriteLatencyPercentiles`: the four numbers that it writes.
unfoldable pub sort_and_write_latency_percentiles : List ℕ → List ℕ
sort_and_write_latency_percentiles values =
    let sorted = sort values in
    percentile_from_sorted sorted 50
    ∷ percentile_from_sorted sorted 90
    ∷ percentile_from_sorted sorted 95
    ∷ percentile_from_sorted sorted 99
    ∷ []

-- How many numbers pass a test.
abbrev pub count : (ℕ → Bool) → List ℕ → ℕ
count test [] = 0
count test (x ∷ xs) = (if test x then 1 else 0) + count test xs

count-insert :
    (test : ℕ → Bool) (x : ℕ) (xs : List ℕ) → count test (insert x xs) ≡ count test (x ∷ xs)
count-insert test x [] = refl
count-insert test x (y ∷ ys) = elim (Bool-cases (leb x y)) [
  | inl le ↦ rw (le) refl
  | inr gt ↦ rw (gt) (omega (arith, count-insert test x ys))
]

count-sort : (test : ℕ → Bool) (xs : List ℕ) → count test (sort xs) ≡ count test xs
count-sort test [] = refl
count-sort test (x ∷ xs) = count-insert test x (sort xs) ∙ omega (arith, count-sort test xs)

length-insert : (x : ℕ) (xs : List ℕ) → length (insert x xs) ≡ suc (length xs)
length-insert x [] = refl
length-insert x (y ∷ ys) = ground (arith, length-insert x ys)

length-sort : (xs : List ℕ) → length (sort xs) ≡ length xs
length-sort [] = refl
length-sort (x ∷ xs) = length-insert x (sort xs) ∙ ap suc (length-sort xs)

-- Every number is at most those behind it.
abbrev IsBelow : ℕ → List ℕ → Type 0
IsBelow x [] = Unit
IsBelow x (y ∷ ys) = (x ≤ y) × IsBelow x ys

abbrev IsAscending : List ℕ → Type 0
IsAscending [] = Unit
IsAscending (x ∷ xs) = IsBelow x xs × IsAscending xs

IsBelow-trans : (x y : ℕ) (ys : List ℕ) → x ≤ y → IsBelow y ys → IsBelow x ys
IsBelow-trans x y [] h b = tt
IsBelow-trans x y (z ∷ zs) h (h', b) = (omega arith, IsBelow-trans x y zs h b)

insert-IsBelow : (x y : ℕ) (ys : List ℕ) → y ≤ x → IsBelow y ys → IsBelow y (insert x ys)
insert-IsBelow x y [] h b = (h, tt)
insert-IsBelow x y (z ∷ zs) h (h', b) = elim (Bool-cases (leb x z)) [
  | inl le ↦ rw (le) (h, (h', b))
  | inr gt ↦ rw (gt) (h', insert-IsBelow x y zs h b)
]

insert-IsAscending : (x : ℕ) (xs : List ℕ) → IsAscending xs → IsAscending (insert x xs)
insert-IsAscending x [] a = (tt, tt)
insert-IsAscending x (y ∷ ys) (b, a) = elim (Bool-cases (leb x y)) [
  | inl le ↦ rw (le) ((ground arith, IsBelow-trans x y ys (ground arith) b), (b, a))
  | inr gt ↦ rw (gt) (insert-IsBelow x y ys (ground arith) b, insert-IsAscending x ys a)
]

sort-IsAscending : (xs : List ℕ) → IsAscending (sort xs)
sort-IsAscending [] = tt
sort-IsAscending (x ∷ xs) = insert-IsAscending x (sort xs) (sort-IsAscending xs)

IsBelow-get_or : (x : ℕ) (xs : List ℕ) (i : ℕ) → IsBelow x xs → i < length xs → x ≤ get_or xs i 0
IsBelow-get_or x [] i b h = absurd (omega arith)
IsBelow-get_or x (y ∷ ys) zero (h', b) h = h'
IsBelow-get_or x (y ∷ ys) (suc i) (h', b) h = IsBelow-get_or x ys i b (omega arith)

count-below : (v : ℕ) (xs : List ℕ) → IsBelow v xs → count (λ x. ltb x v) xs ≡ 0
count-below v [] b = refl
count-below v (x ∷ xs) (h, b) = ground (arith, count-below v xs b)

-- The number at place `i` of an ascending list has its rank.
rank_lem :
    (xs : List ℕ) (i : ℕ)
    → IsAscending xs
    → i < length xs
    → (i < count (λ x. leb x (get_or xs i 0)) xs) × (count (λ x. ltb x (get_or xs i 0)) xs ≤ i)
rank_lem [] i a h = absurd (omega arith)
rank_lem (x ∷ xs) zero (b, a) h = (ground arith, ground (arith, count-below x xs b))
rank_lem (x ∷ xs) (suc i) (b, a) h =
    let (low, high) = rank_lem xs i a (omega arith) in
    let le = IsBelow-get_or x xs i b (omega arith) in (ground arith, ground arith)

-- The percentile `perc` that is written of one value or more is a number such that, of the values,
-- more than (n - 1) * perc / 100 are at most it and at most that many are less, where `perc` is at
-- most 100 and the index does not overflow.
pub percentile_lem :
    (values : List ℕ) (perc : ℕ)
    → 0 < length values
    → perc ≤ 100
    → length values * 100 < u64_mod
    → let v = percentile_from_sorted (sort values) perc in
      let rank = (length values - 1) * perc / 100 in
      (rank < count (λ x. leb x v) values) × (count (λ x. ltb x v) values ≤ rank)
unfolding percentile_from_sorted
percentile_lem values perc some_value top fits =
    let n = length values - 1 in
    let product = mul-le-mul_left n top in
    let index : mul64 n perc / 100 ≡ n * perc / 100 =
      ap (λ m. m / 100) (mod-eq_of_lt (omega (arith, product))) in
    let inside : n * perc / 100 < length (sort values) =
      omega (arith, product, length-sort values) in
    let (above, below) = rank_lem (sort values) (n * perc / 100) (sort-IsAscending values) inside in
    let v = get_or (sort values) (n * perc / 100) 0 in
    let is_v : percentile_from_sorted (sort values) perc ≡ v =
      rw (length-sort values, index) (ground (arith, length-sort values)) in
    rw is_v (
      omega (arith, above, count-sort (λ x. leb x v) values),
      omega (arith, below, count-sort (λ x. ltb x v) values),
    )
