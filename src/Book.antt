-- ===== src/Book.antt =====
-- lib/local_order_book.hpp: one side of the book as a fixed array kept in price order, and the
-- book of two sides. A function that changes `*this` returns the new side or book.
pub mod Levels
pub mod Search
pub mod Arrays
pub mod Refine
pub mod Sides
pub mod Top
mod Tests
use hft_demo.Common.{
  ℕ, zero, suc, ◌+◌, ◌-◌, ◌/◌, Bool, ◌&&◌, ◌||◌, List, [], ltb, ◌==◌, if◌then◌else◌, length, get_or,
  set, take, replicate, memmove, min,
}

-- `OrderBookRow`
pub record Row : Type 0 where
  pub price : ℕ
  pub quantity : ℕ

-- `OrderBookSideOrder`
pub data SideOrder : Type 0 where
  price_ascending price_descending : SideOrder

-- The comparison that each order hands to std::lower_bound: the row stands before the key.
abbrev pub before : SideOrder → ℕ → ℕ → Bool
before price_ascending row_price key = ltb row_price key
before price_descending row_price key = ltb key row_price

-- A default-constructed row, which `GetBest` returns for an empty side.
abbrev pub empty_row : Row
empty_row = record { price = 0; quantity = 0 }

-- `OrderBookSide`: `rows` is the whole array of `Depth` rows, of which `count` are in use.
pub record Side : Type 0 where
  pub rows : List Row
  pub count : ℕ

abbrev pub row_at : List Row → ℕ → Row
row_at rows i = get_or rows i empty_row

-- A default-constructed side.
abbrev pub empty_side : ℕ → Side
empty_side depth = record { rows = replicate depth empty_row; count = 0 }

-- The loop of `Init`, with `n` rounds left at index `i`.
unfoldable pub fill : List ℕ → List ℕ → (n i : ℕ) → List Row → List Row
fill prices quantities zero i rows = rows
fill prices quantities (suc n) i rows =
    fill prices quantities n (i + 1)
      (set rows i (record { price = get_or prices i 0; quantity = get_or quantities i 0 }))

-- `Init`
unfoldable pub init : ℕ → Side → List ℕ → List ℕ → ℕ → Side
init depth s prices quantities count =
    let n = if ltb depth count then depth else count in
    record { rows = fill prices quantities n 0 s.rows; count = n }

-- std::lower_bound over the rows [first, first + len), by halving.
unfoldable pub lower_bound : SideOrder → ℕ → List Row → (fuel first len : ℕ) → ℕ
lower_bound o key rows zero first len = first
lower_bound o key rows (suc fuel) first len =
    let mid = first + len / 2 in
    let right = lower_bound o key rows fuel (mid + 1) (len - len / 2 - 1) in
    let left = lower_bound o key rows fuel first (len / 2) in
    if len == 0 then first else if before o (row_at rows mid).price key then right else left

-- The index `pos` of `Update`. The length halves in each round, so `count + 1` rounds are enough.
unfoldable pub position : SideOrder → Side → ℕ → ℕ
position o s price = lower_bound o price s.rows (suc s.count) 0 s.count

-- `RemoveAt`; it runs only at `index < count`, so neither subtraction wraps.
unfoldable pub remove_at : Side → ℕ → Side
remove_at s index = record {
  rows = memmove index (index + 1) (s.count - index - 1) s.rows;
  count = s.count - 1;
}

-- `InsertAt`
unfoldable pub insert_at : ℕ → Side → ℕ → ℕ → ℕ → Side
insert_at depth s pos price quantity =
    if ltb s.count pos
    then s
    else if ltb s.count depth
    then record {
      rows = set (memmove (pos + 1) pos (s.count - pos) s.rows) pos row;
      count = s.count + 1;
    }
    else if ltb pos depth
    then record s { rows = set (memmove (pos + 1) pos (depth - 1 - pos) s.rows) pos row }
    else s
  where
    row : Row
    row = record { price = price; quantity = quantity }

-- `it != end && it->price == price`
abbrev pub hit : Side → ℕ → ℕ → Bool
hit s pos price = ltb pos s.count && (row_at s.rows pos).price == price

-- `Update` behind the search.
unfoldable pub update_at : ℕ → Side → ℕ → ℕ → ℕ → Side
update_at depth s pos price quantity =
    if quantity == 0
    then (if hit s pos price then remove_at s pos else s)
    else if hit s pos price
    then record s { rows = set s.rows pos (record (row_at s.rows pos) { quantity = quantity }) }
    else insert_at depth s pos price quantity

-- `Update`
unfoldable pub update : ℕ → SideOrder → Side → ℕ → ℕ → Side
update depth o s price quantity = update_at depth s (position o s price) price quantity

-- `GetBest`
unfoldable pub get_best : Side → Row
get_best s = if s.count == 0 then empty_row else row_at s.rows 0

-- `Get`
abbrev pub levels : Side → List Row
levels s = take s.count s.rows

-- `OrderBook_`
pub record Book : Type 0 where
  pub bids : Side
  pub asks : Side
  pub last_update_id : ℕ

-- A default-constructed book.
abbrev pub empty_book : ℕ → Book
empty_book depth = record { bids = empty_side depth; asks = empty_side depth; last_update_id = 0 }

-- `OrderBook_::Init`
unfoldable pub init_book : ℕ → Book → ℕ → List ℕ → List ℕ → ℕ → List ℕ → List ℕ → ℕ → Book
init_book depth b id bid_prices bid_quantities bids_depth ask_prices ask_quantities asks_depth =
    record {
      bids = init depth b.bids bid_prices bid_quantities bids_depth;
      asks = init depth b.asks ask_prices ask_quantities asks_depth;
      last_update_id = id;
    }

-- `UpdateBid`
unfoldable pub update_bid : ℕ → Book → ℕ → ℕ → ℕ → Book
update_bid depth b id price quantity = record b {
  bids = update depth price_descending b.bids price quantity;
  last_update_id = id;
}

-- `UpdateAsk`
unfoldable pub update_ask : ℕ → Book → ℕ → ℕ → ℕ → Book
update_ask depth b id price quantity = record b {
  asks = update depth price_ascending b.asks price quantity;
  last_update_id = id;
}

-- `GetTopBids` and `GetTopAsks` behind the choice of the side.
unfoldable pub top : Side → ℕ → List Row
top s n =
    if n == 0 || length (levels s) == 0 then [] else take (min n (length (levels s))) (levels s)
