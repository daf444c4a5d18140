-- ===== src/Trader/Updates.antt =====
-- The local book through the updates of the exchange, snapshots included.
use hft_demo.Common.{
  ℕ, ◌≡◌, refl, ap, min, List, Option, none, some, inl, inr, Bool-cases, arith, ltb, length, take,
  add64,
}
use hft_demo.Market.{OrderBookSnapshot, OrderBookUpdate, BookSide, bid, ask, order_book_depth}
use hft_demo.Book.{Book, price_ascending, price_descending, init_book, update_bid, update_ask}
use hft_demo.Book.Levels.{IsSorted}
use hft_demo.Book.Sides.{zip_rows, init-IsValid, update-IsValid}
use hft_demo.Book.Top.{IsBook}
use hft_demo.Parser.Events.{Reader, parse, feed}
use hft_demo.Parser.Snapshot
use hft_demo.Parser.Snapshot.{SnapshotSax}
use hft_demo.Parser.Snapshot.Bounds.{IsValid, snapshot_bounds}
use hft_demo.Parser.Calls.{parse_order_book_snapshot}
use hft_demo.Trader.{restart, reset_snapshot, update_side, apply_update}

-- The levels that are used of a snapshot are in strict price order on both sides.
pub record IsOrderly (s : OrderBookSnapshot) : Type 0 where
  pub bids :
      IsSorted price_descending
        (take (min order_book_depth s.bids_depth) (zip_rows s.bids_prices s.bids_quantities))
  pub asks :
      IsSorted price_ascending
        (take (min order_book_depth s.asks_depth) (zip_rows s.asks_prices s.asks_quantities))

-- One side, whichever it is.
pub update_side-IsBook :
    (side : BookSide) (b : Book) (id price quantity : ℕ)
    → IsBook order_book_depth b
    → IsBook order_book_depth (update_side side b id price quantity)
unfolding update_bid update_ask
update_side-IsBook bid b id price quantity v = record {
  bids = update-IsValid v.bids price quantity;
  asks = v.asks;
}
update_side-IsBook ask b id price quantity v = record {
  bids = v.bids;
  asks = update-IsValid v.asks price quantity;
}

module _ (reader : Reader) (response : List ℕ) (h : SnapshotSax) where
  parsed-IsValid :
      (s : OrderBookSnapshot)
      → (parse_order_book_snapshot reader h response).1 ≡ some s
      → (h' : SnapshotSax) × IsValid h' × (h'.out ≡ s)
  unfolding parse_order_book_snapshot parse
  parsed-IsValid s e = (
    (feed Snapshot.handle (Snapshot.reset h) (reader response).0).0,
    snapshot_bounds h (reader response).0,
    ground (arith, e),
  )

  init-IsBook :
      (b : Book) (s : OrderBookSnapshot)
      → (parse_order_book_snapshot reader h response).1 ≡ some s
      → IsOrderly s
      → IsBook order_book_depth b
      → IsBook order_book_depth (
          init_book order_book_depth b s.last_update_id s.bids_prices s.bids_quantities s.bids_depth
            s.asks_prices s.asks_quantities s.asks_depth)
  unfolding init_book
  init-IsBook b s e orderly v =
      let (h', bounds, same) = parsed-IsValid s e in
      record {
        bids =
            init-IsValid order_book_depth b.bids s.bids_prices s.bids_quantities s.bids_depth
              v.bids.whole
              (omega (
                arith,
                ap (λ (x : OrderBookSnapshot). length x.bids_prices) same,
                bounds.bids_prices_whole,
              ))
              (omega (
                arith,
                ap (λ (x : OrderBookSnapshot). length x.bids_quantities) same,
                bounds.bids_quantities_whole,
              ))
              price_descending orderly.bids;
        asks =
            init-IsValid order_book_depth b.asks s.asks_prices s.asks_quantities s.asks_depth
              v.asks.whole
              (omega (
                arith,
                ap (λ (x : OrderBookSnapshot). length x.asks_prices) same,
                bounds.asks_prices_whole,
              ))
              (omega (
                arith,
                ap (λ (x : OrderBookSnapshot). length x.asks_quantities) same,
                bounds.asks_quantities_whole,
              ))
              price_ascending orderly.asks;
      }

  restart-IsBook :
      (b : Book) (parsed : Option OrderBookSnapshot)
      → (parse_order_book_snapshot reader h response).1 ≡ parsed
      → ((s : OrderBookSnapshot)
          → (parse_order_book_snapshot reader h response).1 ≡ some s
          → IsOrderly s)
      → IsBook order_book_depth b
      → IsBook order_book_depth (restart b parsed).0
  unfolding restart
  restart-IsBook b none e orderly v = v
  restart-IsBook b (some s) e orderly v = init-IsBook b s e (orderly s e) v

  -- Every update leaves a valid book, whether it is applied, too old, or calls for a new snapshot,
  -- given that a snapshot that the response holds has its levels in strict price order.
  pub apply_update-IsBook :
      (b : Book) (u : OrderBookUpdate)
      → ((s : OrderBookSnapshot)
          → (parse_order_book_snapshot reader h response).1 ≡ some s
          → IsOrderly s)
      → IsBook order_book_depth b
      → IsBook order_book_depth (apply_update reader response h b u).1
  unfolding apply_update
  apply_update-IsBook b u orderly v =
      elim (Bool-cases (ltb (add64 b.last_update_id 1) u.first_update_id)) [
        | inl gap ↦ rw gap (
            unfold reset_snapshot in
            restart-IsBook b (parse_order_book_snapshot reader h response).1 refl orderly v)
        | inr no_gap ↦ elim (Bool-cases (ltb u.last_update_id b.last_update_id)) [
          | inl old ↦ rw (no_gap, old) v
          | inr current ↦
              rw (no_gap, current)
                (update_side-IsBook u.side b u.last_update_id u.price u.quantity v)
        ]
      ]
