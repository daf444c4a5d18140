-- ===== src/Trader/Invariant/Tests.antt =====
-- Tests of the trader beside its neighbours.
use hft_demo.Common.{
  ℕ, ◌+◌, ◌≡◌, refl, subst, arith, true, false, Bool, some, List, [], ◌∷◌, ◌++◌, replicate, set,
}
use hft_demo.Common.Bytes.{codes, bytes_eq}
use hft_demo.Market.{
  OrderBookUpdate, Trade, OrderBookSnapshot, empty_update, empty_trade, empty_snapshot,
  market_data_length, order_book_depth,
}
use hft_demo.Book.Top.{IsBook, empty_book-IsBook}
use hft_demo.Ring.{Ring, new_ring, write}
use hft_demo.Ring.Queue.{new_ring-IsValid}
use hft_demo.Parser.Events.{
  Reader, Event, parse, feed, start_object, key, uint64, start_array, end_array, string, end_object,
}
use hft_demo.Parser.Fields.{json_root_is_object}
use hft_demo.Parser.Decimal.{
  parse_fixed_decimal_string, scan, scan_char, push_digit, finish, assemble, scaled_term, sum_terms,
  pow10,
}
use hft_demo.Parser.Snapshot
use hft_demo.Parser.Snapshot.{SnapshotSax}
use hft_demo.Parser.Calls.{parse_order_book_snapshot}
use hft_demo.Feeder.{TraderId}
use hft_demo.Trader.Updates.{IsOrderly}
use hft_demo.Trader.Main.{TraderState, Surroundings, trader_step, IsReady}
use hft_demo.Trader.Invariant.{
  started, AnswersOrderly, here, later, feeds_update, goes_round, trader_step-IsReady,
  trader_invariant, started-IsReady, Step-IsReady,
}

-- An exchange whose every answer has one level on each side.
abbrev one_side : ℕ → List Event
one_side price =
    start_array
    ∷ start_array
    ∷ string (price ∷ [])
    ∷ string (b'1' ∷ [])
    ∷ end_array 2
    ∷ end_array 1
    ∷ []

abbrev exchange : Reader
exchange json = (
  start_object
      ∷ key (codes "lastUpdateId")
      ∷ uint64 7
      ∷ key (codes "bids")
      ∷ (one_side b'2' ++ (key (codes "asks") ∷ (one_side b'3' ++ (end_object 3 ∷ [])))),
  true,
)

abbrev surroundings : Surroundings
surroundings = record {
  is_producer_alive = true;
  responses = λ i. codes "{";
  clock = λ i. 40 + i;
  trade_time = 50;
  write_time = 60;
}

abbrev answer : OrderBookSnapshot
answer = record empty_snapshot {
  last_update_id = 7;
  bids_prices = set (replicate order_book_depth 0) 0 200_000_000;
  bids_quantities = set (replicate order_book_depth 0) 0 100_000_000;
  asks_prices = set (replicate order_book_depth 0) 0 300_000_000;
  asks_quantities = set (replicate order_book_depth 0) 0 100_000_000;
  bids_depth = 1;
  asks_depth = 1;
}

answered : (h : SnapshotSax) → (parse_order_book_snapshot exchange h (codes "{")).1 ≡ some answer
unfolding parse_order_book_snapshot json_root_is_object parse feed Snapshot.handle
    Snapshot.on_start_object Snapshot.on_key Snapshot.pending_of_key Snapshot.on_uint64
    Snapshot.number Snapshot.on_start_array Snapshot.on_string Snapshot.row_string Snapshot.skips
    Snapshot.row_text Snapshot.close_row Snapshot.push_level Snapshot.on_end_array
    Snapshot.on_end_object bytes_eq parse_fixed_decimal_string scan scan_char push_digit finish
    assemble scaled_term sum_terms pow10
answered h = refl

surroundings-AnswersOrderly : AnswersOrderly exchange surroundings
surroundings-AnswersOrderly i h s e =
    let a = answered h in
    let same : answer ≡ s = cc (a, e) in subst IsOrderly same (record { bids = tt; asks = tt })

-- An update far ahead of the empty book, which makes the trader ask the exchange.
abbrev ahead : OrderBookUpdate
ahead = record empty_update { first_update_id = 5; last_update_id = 6; price = 4; quantity = 1 }

abbrev new_updates : Ring OrderBookUpdate
new_updates = new_ring market_data_length empty_update

abbrev new_trades : Ring Trade
new_trades = new_ring market_data_length empty_trade

abbrev handler : SnapshotSax
handler = record {
  object_depth = 0;
  array_depth = 0;
  pending_snapshot = 0;
  in_bids = false;
  in_asks = false;
  bids_side_done = false;
  asks_side_done = false;
  row_string_idx = 0;
  row0 = [];
  out = empty_snapshot;
}

abbrev first : TraderState
first = started handler new_updates new_trades

abbrev fed : TraderState
fed = record first { updates = write market_data_length first.updates ahead }

fed-IsReady : IsReady fed × IsBook order_book_depth fed.processor.order_book
fed-IsReady =
    Step-IsReady {reader = exchange} {id = TraderId.btc_usdt} (feeds_update {runs = true} ahead)
      (started-IsReady handler new_updates new_trades
        (new_ring-IsValid 12 (omega arith) empty_update)
        (new_ring-IsValid 12 (omega arith) empty_trade))
      (empty_book-IsBook order_book_depth)

-- The round in which the trader finds the gap.
abbrev gap_round :
    (s' : TraderState) × (ok : Bool) × (trader_step exchange TraderId.btc_usdt surroundings fed
      ≡ some (s', ok))
    × IsReady s'
    × IsBook order_book_depth s'.processor.order_book
gap_round =
    trader_step-IsReady exchange TraderId.btc_usdt surroundings surroundings-AnswersOrderly fed
      fed-IsReady.0 fed-IsReady.1

trader_invariant_example :
    IsReady gap_round.0
    × IsBook order_book_depth gap_round.0.processor.order_book
    × (s' : TraderState) × (ok : Bool) × (trader_step exchange TraderId.btc_usdt surroundings
          gap_round.0
        ≡ some (s', ok))
    × IsReady s'
    × IsBook order_book_depth s'.processor.order_book
trader_invariant_example =
    trader_invariant exchange TraderId.btc_usdt handler new_updates new_trades gap_round.0
      gap_round.1 surroundings (new_ring-IsValid 12 (omega arith) empty_update)
      (new_ring-IsValid 12 (omega arith) empty_trade)
      (later (later here (feeds_update ahead))
        (goes_round surroundings surroundings-AnswersOrderly gap_round.2))
      surroundings-AnswersOrderly
