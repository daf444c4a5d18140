-- ===== src/System/Message/Tests.antt =====
-- A test of a message's way.
use hft_demo.Common.{ℕ, ◌+◌, ◌<◌, ◌^◌, ◌≡◌, refl, arith, true, false, [], ◌∷◌, some, length}
use hft_demo.Common.Bytes.{codes, bytes_eq}
use hft_demo.Market.{OrderBookUpdate, empty_update, empty_trade, empty_snapshot, order_book_depth}
use hft_demo.Book.{empty_book, levels, price_descending, price_ascending}
use hft_demo.Book.Top.{IsBook, empty_book-IsBook}
use hft_demo.Ring.{Ring, new_ring}
use hft_demo.Ring.Queue.{live, view, new_ring-IsValid, new_ring_refines}
use hft_demo.Parser.Fields.{symbol_from_string}
use hft_demo.Parser.Decimal.{
  parse_fixed_decimal_string, scan, scan_char, push_digit, finish, assemble, scaled_term, sum_terms,
  pow10,
}
use hft_demo.Parser.Rows.{row_level, good_rows, good_rows-good, length-good_rows}
use hft_demo.Parser.Fixtures.{
  fresh_combined, fresh_depth-IsValid, one_reader, one_update, depth_stream, few_bids, few_asks,
}
use hft_demo.Feeder.{TraderId, ByTraderId, at, MarketDataBuffers}
use hft_demo.Feeder.Routing.{is_traded_by, IsReady}
use hft_demo.Feeder.Loop.{feeder_step}
use hft_demo.Trader.Loop.{Processor, process_update}
use hft_demo.System.Message.{put_levels, message_applied}

abbrev new_buffers : MarketDataBuffers
new_buffers = record {
  order_book_updates = new_ring (2 ^ 3) empty_update;
  trades = new_ring (2 ^ 3) empty_trade;
}

abbrev both_buffers : ByTraderId MarketDataBuffers
both_buffers = record { of_btc_usdt = new_buffers; of_eth_usdt = new_buffers }

both_buffers-IsReady : IsReady 3 both_buffers
both_buffers-IsReady = record {
  btc_updates = new_ring-IsValid 3 (omega arith) empty_update;
  btc_trades = new_ring-IsValid 3 (omega arith) empty_trade;
  eth_updates = new_ring-IsValid 3 (omega arith) empty_update;
  eth_trades = new_ring-IsValid 3 (omega arith) empty_trade;
}

-- A trader whose book is in step with the message.
abbrev waiting : Processor
waiting = record {
  handler = record {
    object_depth = 0;
    array_depth = 0;
    pending_snapshot = 0;
    in_bids = false;
    in_asks = false;
    bids_side_done = false;
    asks_side_done = false;
    row_string_idx = 0;
    row0 = [];
    out = empty_snapshot;
  };
  order_book = record (empty_book order_book_depth) { last_update_id = 5 };
  stamps = record {
    feeder_read_steady_ns = 0;
    feeder_write_steady_ns = 0;
    trader_read_steady_ns = 0;
  };
}

waiting-IsBook : IsBook order_book_depth waiting.order_book
waiting-IsBook =
    let v = empty_book-IsBook order_book_depth in record { bids = v.bids; asks = v.asks }

first_bid : row_level (codes "9.5", codes "1") ≡ some (950_000_000, 100_000_000)
unfolding row_level parse_fixed_decimal_string scan scan_char push_digit finish assemble scaled_term
    sum_terms pow10
first_bid = refl

some_row : 0 < length (good_rows one_update.bid_rows) + length (good_rows one_update.ask_rows)
some_row =
    rw (good_rows-good (codes "9.5", codes "1") ((codes "9.x", codes "1") ∷ []) first_bid)
      (omega arith)

few_rows : length (good_rows one_update.bid_rows) + length (good_rows one_update.ask_rows) < 2 ^ 3
few_rows = omega (arith, length-good_rows one_update.bid_rows, length-good_rows one_update.ask_rows)

is_btc : is_traded_by TraderId.btc_usdt (symbol_from_string (some one_update.symbol_text)) ≡ true
unfolding symbol_from_string bytes_eq
is_btc = refl

abbrev ticks : ℕ → ℕ
ticks i = 60 + i

message_applied_example :
    let after =
      (feeder_step
        (2 ^ 3)
        50
        ticks
        true
        one_reader
        (codes "{}")
        (fresh_combined, both_buffers)).1 in
    (ring : Ring OrderBookUpdate) × (p' : Processor) × (process_update one_reader
        (λ i. [])
        ticks
        empty_update
        (2 ^ 3)
        (2 ^ 3)
        0
        ((at after TraderId.btc_usdt).order_book_updates, waiting)
      ≡ some ((ring, p'), true))
    × (view (2 ^ 3) empty_update ring ≡ live [])
    × (levels p'.order_book.bids
        ≡ put_levels price_descending
            (good_rows one_update.bid_rows)
            (levels waiting.order_book.bids))
    × (levels p'.order_book.asks
        ≡ put_levels price_ascending
            (good_rows one_update.ask_rows)
            (levels waiting.order_book.asks))
    × IsBook order_book_depth p'.order_book
message_applied_example =
    message_applied 3 (omega arith) empty_trade 50 ticks TraderId.btc_usdt true one_reader
      one_reader (codes "{}") (codes "btcusdt@depth") fresh_combined both_buffers one_update
      (λ i. []) ticks waiting both_buffers-IsReady fresh_depth-IsValid depth_stream refl few_bids
      few_asks is_btc some_row few_rows (new_ring_refines 3 (omega arith) empty_update empty_update)
      (omega arith) (omega arith) (omega arith) waiting-IsBook
