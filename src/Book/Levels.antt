-- ===== src/Book/Levels.antt =====
-- The abstract side: its levels in price order, best first, and what an update does to them.
use hft_demo.Common.{
  ℕ, zero, suc, ◌≤◌, ◌<◌, ◌≡◌, refl, true, false, ◌&&◌, List, [], ◌∷◌, ◌++◌, arith, ltb, ◌==◌,
  if◌then◌else◌, length, set, take, drop, take_all, Bool-cases, inl, inr,
}
use hft_demo.Book.{Row, SideOrder, price_ascending, price_descending, before, row_at}

pub before_trans :
    (o : SideOrder) (a b c : ℕ) → before o a b ≡ true → before o b c ≡ true → before o a c ≡ true
before_trans price_ascending a b c p q = ground arith
before_trans price_descending a b c p q = ground arith

pub before_asym : (o : SideOrder) (a b : ℕ) → before o a b ≡ true → before o b a ≡ false
before_asym price_ascending a b p = ground arith
before_asym price_descending a b p = ground arith

pub before_irrefl : (o : SideOrder) (a b : ℕ) → before o a b ≡ true → (a == b) ≡ false
before_irrefl price_ascending a b p = ground arith
before_irrefl price_descending a b p = ground arith

pub before_total :
    (o : SideOrder) (a b : ℕ) → (a == b) ≡ false → before o a b ≡ false → before o b a ≡ true
before_total price_ascending a b p q = ground arith
before_total price_descending a b p q = ground arith

-- Every price of the list comes strictly after `price`, each after the one that it follows.
abbrev pub IsChain : SideOrder → ℕ → List Row → Type 0
IsChain o price [] = Unit {0}
IsChain o price (r ∷ rs) = (before o price r.price ≡ true) × IsChain o r.price rs

-- Strictly in price order, so no price occurs twice.
abbrev pub IsSorted : SideOrder → List Row → Type 0
IsSorted o [] = Unit {0}
IsSorted o (r ∷ rs) = IsChain o r.price rs

-- The update of the abstract side: a quantity of 0 removes the level, any other sets it.
pub put : SideOrder → ℕ → ℕ → List Row → List Row
put o price quantity [] =
    if quantity == 0 then [] else record { price = price; quantity = quantity } ∷ []
put o price quantity (r ∷ rs) =
    if r.price == price
    then (if quantity == 0 then rs else record { price = price; quantity = quantity } ∷ rs)
    else if before o r.price price
    then r ∷ put o price quantity rs
    else if quantity == 0
    then r ∷ rs
    else record { price = price; quantity = quantity } ∷ r ∷ rs

-- The quantity that a side offers at a price, 0 where it has no such level.
pub quantity_at : ℕ → List Row → ℕ
quantity_at price [] = 0
quantity_at price (r ∷ rs) = if r.price == price then r.quantity else quantity_at price rs

IsChain-mono :
    (o : SideOrder) (a b : ℕ) (rs : List Row)
    → before o a b ≡ true
    → IsChain o b rs
    → IsChain o a rs
IsChain-mono o a b [] h c = tt
IsChain-mono o a b (r ∷ rs) h c = (before_trans o a b r.price h c.0, c.1)

put-IsChain :
    (o : SideOrder) (price quantity a : ℕ) (rs : List Row)
    → before o a price ≡ true
    → IsChain o a rs
    → IsChain o a (put o price quantity rs)
unfolding put
put-IsChain o price quantity a [] h c = ground arith
put-IsChain o price quantity a (r ∷ rs) h c = ground (
  arith,
  put-IsChain o price quantity r.price rs,
  IsChain-mono o a r.price rs c.0 c.1,
  before_total o r.price price,
)

pub put-IsSorted :
    (o : SideOrder) (price quantity : ℕ) (rs : List Row)
    → IsSorted o rs
    → IsSorted o (put o price quantity rs)
unfolding put
put-IsSorted o price quantity [] s = ground arith
put-IsSorted o price quantity (r ∷ []) s = ground (arith, before_total o r.price price)
put-IsSorted o price quantity (r ∷ r' ∷ rs) s =
    ground (arith, put-IsChain o price quantity r.price (r' ∷ rs), before_total o r.price price)

take-IsChain : (o : SideOrder) (n a : ℕ) (rs : List Row) → IsChain o a rs → IsChain o a (take n rs)
take-IsChain o zero a rs c = tt
take-IsChain o (suc n) a [] c = tt
take-IsChain o (suc n) a (r ∷ rs) c = (c.0, take-IsChain o n r.price rs c.1)

pub take-IsSorted : (o : SideOrder) (n : ℕ) (rs : List Row) → IsSorted o rs → IsSorted o (take n rs)
take-IsSorted o zero rs s = tt
take-IsSorted o (suc n) [] s = tt
take-IsSorted o (suc n) (r ∷ rs) s = take-IsChain o n r.price rs s

-- No level of a chain has the price that the chain comes after, nor one before it.
quantity_at-chain :
    (o : SideOrder) (a price : ℕ) (rs : List Row)
    → IsChain o a rs
    → before o a price ≡ false
    → quantity_at price rs ≡ 0
unfolding quantity_at
quantity_at-chain o a price [] c h = refl
quantity_at-chain o a price (r ∷ rs) c h = ground (
  arith,
  quantity_at-chain o a price rs (IsChain-mono o a r.price rs c.0 c.1) h,
  before_irrefl o a price,
)

IsChain→IsSorted : (o : SideOrder) (a : ℕ) (rs : List Row) → IsChain o a rs → IsSorted o rs
IsChain→IsSorted o a [] c = tt
IsChain→IsSorted o a (r ∷ rs) c = c.1

-- The update changes the quantity at its price and at no other.
pub quantity_at-put :
    (o : SideOrder) (price quantity p : ℕ) (rs : List Row)
    → IsSorted o rs
    → quantity_at p (put o price quantity rs) ≡ (if price == p then quantity else quantity_at p rs)
unfolding put quantity_at
quantity_at-put o price quantity p [] s = ground arith
quantity_at-put o price quantity p (r ∷ rs) s = ground (
  arith,
  quantity_at-put o price quantity p rs (IsChain→IsSorted o r.price rs s),
  quantity_at-chain o r.price price rs s,
  before_irrefl o r.price price,
)

-- `put` by the index of the first level that does not come before the price.
pub put_at :
    (o : SideOrder) (price quantity pos : ℕ) (rs : List Row)
    → ((i : ℕ) → i < pos → before o (row_at rs i).price price ≡ true)
    → ((i : ℕ) → pos < suc i → i < length rs → before o (row_at rs i).price price ≡ false)
    → pos < suc (length rs)
    → let at_price = ltb pos (length rs) && (row_at rs pos).price == price in
      let row : Row = record { price = price; quantity = quantity } in
      put o price quantity rs ≡ (
        if quantity == 0
        then (if at_price then take pos rs ++ drop (suc pos) rs else rs)
        else if at_price
        then set rs pos row
        else take pos rs ++ row ∷ drop pos rs)
unfolding put
put_at o price quantity zero [] low high h = ground arith
put_at o price quantity zero (r ∷ rs) low high h = ground (arith, high 0)
put_at o price quantity (suc pos) [] low high h = absurd (omega arith)
put_at o price quantity (suc pos) (r ∷ rs) low high h = ground (
  arith,
  low 0,
  before_irrefl o r.price price,
  put_at o price quantity pos rs (λ i p. low (suc i) (omega arith))
      (λ i p q. high (suc i) (omega arith) (omega arith)) (omega arith),
)

pub length-put :
    (o : SideOrder) (price quantity : ℕ) (rs : List Row)
    → length (put o price quantity rs) ≤ suc (length rs)
unfolding put
length-put o price quantity [] = ground arith
length-put o price quantity (r ∷ rs) = ground (arith, length-put o price quantity rs)

-- A level that comes before the last one is not lost with it.
quantity_at-drop_last :
    (o : SideOrder) (p n : ℕ) (rs : List Row)
    → length rs ≡ suc n
    → before o p (row_at rs n).price ≡ true
    → quantity_at p (take n rs) ≡ quantity_at p rs
unfolding quantity_at
quantity_at-drop_last o p n [] e h = absurd (omega arith)
quantity_at-drop_last o p zero (r ∷ []) e h = ground (arith, before_irrefl o p r.price)
quantity_at-drop_last o p zero (r ∷ r' ∷ rs) e h = absurd (omega arith)
quantity_at-drop_last o p (suc n) (r ∷ rs) e h =
    ground (arith, quantity_at-drop_last o p n rs (omega arith) h)

-- Nor is it when an update of a full list pushes the worst level out.
pub quantity_at-cut :
    (o : SideOrder) (price quantity p n : ℕ) (rs : List Row)
    → length rs ≡ suc n
    → before o p (row_at rs n).price ≡ true
    → quantity_at p (take (suc n) (put o price quantity rs))
      ≡ quantity_at p (put o price quantity rs)
unfolding put quantity_at
quantity_at-cut o price quantity p n [] e h = absurd (omega arith)
quantity_at-cut o price quantity p zero (r ∷ r' ∷ rs) e h = absurd (omega arith)
quantity_at-cut o price quantity p zero (r ∷ []) e h =
    ground
      (arith, before_irrefl o p r.price, before_irrefl o p price, before_trans o p r.price price)
quantity_at-cut o price quantity p (suc n) (r ∷ rs) e h =
    let whole = take_all (suc n) rs (omega arith) in
    let whole' = take_all (suc (suc n)) rs (omega arith) in
    let last = quantity_at-drop_last o p (suc n) (r ∷ rs) e h in
    let later = quantity_at-cut o price quantity p n rs (omega arith) h in
    elim (Bool-cases (r.price == price)) [
      | inl same ↦ elim (Bool-cases (quantity == 0)) [
        | inl none ↦ rw (same, none, whole') refl
        | inr some ↦ rw (same, some, whole) refl
      ]
      | inr other ↦ elim (Bool-cases (before o r.price price)) [
        | inl behind ↦ rw (other, behind, later) refl
        | inr ahead ↦ elim (Bool-cases (quantity == 0)) [
          | inl none ↦ rw (other, ahead, none, whole) refl
          | inr some ↦ rw (other, ahead, some, last) refl
        ]
      ]
    ]
