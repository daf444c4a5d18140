-- ===== src/Book/Search.antt =====
-- The search of `Update`: on a side in price order it finds the one index that splits the rows in
-- use into those before the price and the others.
use hft_demo.Common.{
  ℕ, zero, suc, ◌+◌, ◌-◌, ◌/◌, ◌≤◌, ◌<◌, ◌≡◌, true, false, List, [], ◌∷◌, arith, ◌==◌, length, inl,
  inr, Bool-cases, dec_lt,
}
use hft_demo.Book.{Row, SideOrder, before, row_at, lower_bound}
use hft_demo.Book.Levels.{before_trans, IsChain, IsSorted}

-- The first `n` rows are strictly in price order, index by index.
abbrev pub IsOrdered : SideOrder → List Row → ℕ → Type 0
IsOrdered o rows n =
    (i j : ℕ) → i < j → j < n → before o (row_at rows i).price (row_at rows j).price ≡ true

chain_before :
    (o : SideOrder) (a : ℕ) (rs : List Row)
    → IsChain o a rs
    → (i : ℕ) → i < length rs
    → before o a (row_at rs i).price ≡ true
chain_before o a [] c i h = absurd (omega arith)
chain_before o a (r ∷ rs) c zero h = c.0
chain_before o a (r ∷ rs) c (suc i) h =
    before_trans o a r.price (row_at rs i).price c.0 (chain_before o r.price rs c.1 i (omega arith))

chain-IsOrdered :
    (o : SideOrder) (a : ℕ) (rs : List Row) → IsChain o a rs → IsOrdered o rs (length rs)
chain-IsOrdered o a [] c i j p q = absurd (omega arith)
chain-IsOrdered o a (r ∷ rs) c zero zero p q = absurd (omega arith)
chain-IsOrdered o a (r ∷ rs) c zero (suc j) p q = chain_before o r.price rs c.1 j (omega arith)
chain-IsOrdered o a (r ∷ rs) c (suc i) zero p q = absurd (omega arith)
chain-IsOrdered o a (r ∷ rs) c (suc i) (suc j) p q =
    chain-IsOrdered o r.price rs c.1 i j (omega arith) (omega arith)

pub IsSorted→IsOrdered :
    (o : SideOrder) (rs : List Row) → IsSorted o rs → IsOrdered o rs (length rs)
IsSorted→IsOrdered o [] s i j p q = absurd (omega arith)
IsSorted→IsOrdered o (r ∷ rs) s zero zero p q = absurd (omega arith)
IsSorted→IsOrdered o (r ∷ rs) s zero (suc j) p q = chain_before o r.price rs s j (omega arith)
IsSorted→IsOrdered o (r ∷ rs) s (suc i) zero p q = absurd (omega arith)
IsSorted→IsOrdered o (r ∷ rs) s (suc i) (suc j) p q =
    chain-IsOrdered o r.price rs s i j (omega arith) (omega arith)

-- `pos` splits the first `n` rows at `key`.
pub record Splits (o : SideOrder) (key : ℕ) (rows : List Row) (n pos : ℕ) : Type 0 where
  pub inside : pos ≤ n
  pub low : (i : ℕ) → i < pos → before o (row_at rows i).price key ≡ true
  pub high : (i : ℕ) → pos ≤ i → i < n → before o (row_at rows i).price key ≡ false

module _ (o : SideOrder) (key : ℕ) (rows : List Row) (n : ℕ) (ordered : IsOrdered o rows n) where
  low_half :
      (mid : ℕ)
      → mid < n
      → before o (row_at rows mid).price key ≡ true
      → (i : ℕ) → i < suc mid
      → before o (row_at rows i).price key ≡ true
  low_half mid h b i p = elim (dec_lt i mid) [
    | yes q ↦ before_trans o (row_at rows i).price _ key (ordered i mid q h) b
    | no q ↦ let e : i ≡ mid = omega arith in rw e b
  ]

  high_half :
      (mid : ℕ)
      → before o (row_at rows mid).price key ≡ false
      → (i : ℕ) → mid ≤ i
      → i < n
      → before o (row_at rows i).price key ≡ false
  high_half mid b i p q = elim (dec_lt mid i) [
    | no r ↦ let e : i ≡ mid = omega arith in rw e b
    | yes r ↦ elim (Bool-cases (before o (row_at rows i).price key)) [
      | inr out ↦ out
      | inl in_front ↦
          cc (before_trans o (row_at rows mid).price _ key (ordered mid i r q) in_front)
    ]
  ]

  lower_bound-Splits :
      (fuel first len : ℕ)
      → len < fuel
      → first + len ≤ n
      → ((i : ℕ) → i < first → before o (row_at rows i).price key ≡ true)
      → ((i : ℕ) → first + len ≤ i → i < n → before o (row_at rows i).price key ≡ false)
      → Splits o key rows n (lower_bound o key rows fuel first len)
  unfolding lower_bound
  lower_bound-Splits zero first len h fits low high = absurd (omega arith)
  lower_bound-Splits (suc fuel) first len h fits low high = elim (Bool-cases (len == 0)) [
    | inl none_left ↦
        rw none_left
          (record { inside = omega arith; low = low; high = λ i p. high i (ground arith) })
    | inr more ↦
        rw more
          let mid = first + len / 2 in
            let half_lt : len / 2 < len = ground arith in
            elim (Bool-cases (before o (row_at rows mid).price key)) [
              | inl right ↦ rw right (
                  lower_bound-Splits fuel (mid + 1) (len - len / 2 - 1) (omega arith) (omega arith)
                    (λ i p. low_half mid (omega arith) right i (omega arith))
                    (λ i p. high i (omega arith)))
              | inr left ↦ rw left (
                  lower_bound-Splits fuel first (len / 2) (omega arith) (omega arith) low
                    (λ i p. high_half mid left i p))
            ]
  ]

  pub search-Splits : Splits o key rows n (lower_bound o key rows (suc n) 0 n)
  search-Splits =
      lower_bound-Splits (suc n) 0 n (omega arith) (omega arith) (λ i p. absurd (omega arith))
        (λ i p q. absurd (omega arith))
