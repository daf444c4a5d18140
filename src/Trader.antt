-- ===== src/Trader.antt =====
-- trader/trader.cpp: the processors of order book updates and of trades, and the decision to send an
-- order. Logging has no effect on them and is left out.
pub mod Loop
pub mod Batch
pub mod Invariant
pub mod Main
pub mod Orders
pub mod Restart
pub mod Symbols
pub mod Times
pub mod Trades
pub mod Updates
mod Tests
use hft_demo.Common.{
  ℕ, ◌+◌, ◌*◌, max, Bool, true, false, ◌&&◌, ◌||◌, not, List, [], ◌∷◌, Option, none, some, ltb, leb,
  ◌==◌, if◌then◌else◌, add64, mul64,
}
use hft_demo.Market.{
  OrderBookUpdate, OrderBookSnapshot, BookSide, bid, ask, Trade, Order, OrderType, buy, sell,
  empty_order, order_book_depth,
}
use hft_demo.Book.{Row, Book, init_book, update_bid, update_ask, get_best, top}
use hft_demo.Flow.{Window, on_trade, aggressive_buy_volume, aggressive_sell_volume}
use hft_demo.Ring.{Ring, ReadResult, success, buffer_is_empty, consumer_is_disabled, read}
use hft_demo.Parser.Events.{Reader}
use hft_demo.Parser.Snapshot.{SnapshotSax}
use hft_demo.Parser.Calls.{parse_order_book_snapshot}

-- `TimestampHandler`
pub record Stamps : Type 0 where
  pub feeder_read_steady_ns : ℕ
  pub feeder_write_steady_ns : ℕ
  pub trader_read_steady_ns : ℕ

-- `TimestampHandler::Update` at the time `now`.
abbrev pub update_stamps : Stamps → (read_ns write_ns now : ℕ) → Stamps
update_stamps t read_ns write_ns now = record {
  feeder_read_steady_ns = max t.feeder_read_steady_ns read_ns;
  feeder_write_steady_ns = max t.feeder_write_steady_ns write_ns;
  trader_read_steady_ns = now;
}

-- `TimestampHandler::SetToOrder`
abbrev pub set_to_order : Stamps → Order → Order
set_to_order t o = record o {
  feeder_read_steady_ns = t.feeder_read_steady_ns;
  feeder_write_steady_ns = t.feeder_write_steady_ns;
  trader_read_steady_ns = t.trader_read_steady_ns;
}

-- What `ParseOrderBookSnapshot` does to the book by its callback, and its result.
unfoldable pub restart : Book → Option OrderBookSnapshot → Book × Bool
restart b none = (b, false)
restart b (some s) = (
  init_book order_book_depth b s.last_update_id s.bids_prices s.bids_quantities s.bids_depth
      s.asks_prices s.asks_quantities s.asks_depth,
  true,
)

-- `OrderBookProcessor::ResetSnapshot`, with the response of the exchange and the handler that
-- `ParseOrderBookSnapshot` keeps.
unfoldable pub reset_snapshot : Reader → List ℕ → SnapshotSax → Book → SnapshotSax × Book × Bool
reset_snapshot reader response h b =
    let (h', parsed) = parse_order_book_snapshot reader h response in
    let (b', ok) = restart b parsed in (h', b', ok)

-- The update of the side that `type` names.
abbrev pub update_side : BookSide → Book → (id price quantity : ℕ) → Book
update_side bid b id price quantity = update_bid order_book_depth b id price quantity
update_side ask b id price quantity = update_ask order_book_depth b id price quantity

-- `OrderBookProcessor::ApplyUpdate`
unfoldable pub apply_update :
    Reader → List ℕ → SnapshotSax → Book → OrderBookUpdate → SnapshotSax × Book × Bool
apply_update reader response h b u =
    if ltb (add64 b.last_update_id 1) u.first_update_id
    then reset_snapshot reader response h b
    else if ltb u.last_update_id b.last_update_id
    then (h, b, true)
    else (h, update_side u.side b u.last_update_id u.price u.quantity, true)

-- `TradeProcessor::ProcessTrade` behind the read: the ring, the window and the stamps that it
-- leaves, and its result.
unfoldable pub after_read :
    Window
    → Stamps
    → (now : ℕ) → Ring Trade × ReadResult × Trade
    → Ring Trade × Window × Stamps × Bool
after_read w t now (ring, success, trade) = (
  ring,
  on_trade w trade.event_timestamp_microseconds trade.is_buyer_maker trade.quantity,
  update_stamps t trade.feeder_read_steady_ns trade.feeder_write_steady_ns now,
  true,
)
after_read w t now (ring, consumer_is_disabled, trade) = (ring, w, t, false)
after_read w t now (ring, buffer_is_empty, trade) = (ring, w, t, true)

-- `TradeProcessor::ProcessTrade` on a ring of `n` places; `out` is the default Trade.
unfoldable pub process_trade :
    ℕ → Ring Trade → Window → Stamps → Trade → (now : ℕ) → Ring Trade × Window × Stamps × Bool
process_trade n ring w t out now = after_read w t now (read n ring out)

-- `kDepthLevels` and `kOrderQty`
abbrev pub depth_levels : ℕ
depth_levels = 5

abbrev pub order_qty : ℕ
order_qty = 10

-- `SumQuantities`, from a sum on.
abbrev pub sum_quantities : ℕ → List Row → ℕ
sum_quantities sum [] = sum
sum_quantities sum (r ∷ rs) = sum_quantities (add64 sum r.quantity) rs

-- `bid_heavy`, and `ask_heavy` with the sums swapped.
unfoldable pub heavy : ℕ → ℕ → Bool
heavy sum other = (other == 0 && ltb 0 sum) || ltb (mul64 11 other) (mul64 9 sum)

abbrev pub same_type : OrderType → OrderType → Bool
same_type buy buy = true
same_type sell sell = true
same_type buy sell = false
same_type sell buy = false

-- The end of `CreateOrder`: an order that repeats the last one is not sent.
unfoldable pub offer : Order → Order → Order × Order × Bool
offer last o =
    if same_type last.kind o.kind && last.price == o.price then (last, o, false) else (o, o, true)

-- `OrderProcessor::CreateOrder`: `last_order_` and `order` as it leaves them, and its result.
unfoldable pub create_order : Book → Window → (last order : Order) → Order × Order × Bool
create_order b w last order =
    let best_bid = get_best b.bids in
    let best_ask = get_best b.asks in
    if best_bid.price == 0 || best_ask.price == 0 || leb best_ask.price best_bid.price
    then (last, order, false)
    else (let bid_sum = sum_quantities 0 (top b.bids depth_levels) in
        let ask_sum = sum_quantities 0 (top b.asks depth_levels) in
        let buy_heavy = ltb (aggressive_sell_volume w) (aggressive_buy_volume w) in
        let sell_heavy = ltb (aggressive_buy_volume w) (aggressive_sell_volume w) in
        if heavy bid_sum ask_sum && buy_heavy
        then offer last (record order { kind = buy; price = best_ask.price; quantity = order_qty })
        else if heavy ask_sum bid_sum && sell_heavy
        then offer last (record order { kind = sell; price = best_bid.price; quantity = order_qty })
        else (last, order, false))
