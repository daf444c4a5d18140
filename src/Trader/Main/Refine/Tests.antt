-- ===== src/Trader/Main/Refine/Tests.antt =====
-- Tests of the trader's loops.
use hft_demo.Common.{ℕ, ◌^◌, ◌≡◌, refl, arith, true, false, Bool, some, List, [], ◌∷◌, ◌<◌}
use hft_demo.Market.{
  OrderBookUpdate, empty_update, empty_trade, empty_order, empty_snapshot, market_data_length,
  order_length, order_book_depth,
}
use hft_demo.Book.{empty_book}
use hft_demo.Flow.{new_window}
use hft_demo.Ring.{Ring, new_ring, write}
use hft_demo.Ring.Queue.{view, IsValid, new_ring-IsValid, write-IsValid}
use hft_demo.Parser.Events.{Reader}
use hft_demo.Feeder.{TraderId}
use hft_demo.Trader.Loop.{
  Processor, process_update, queue_update, size, Returned, process_update_returns,
}
use hft_demo.Trader.Main.{TraderState, Surroundings, IsReady, trader_step}
use hft_demo.Trader.Main.Refine.{view_state, queue_step, trader_step_refines}

-- An exchange whose answers cannot be read.
abbrev mute : Reader
mute json = ([], false)

abbrev no_responses : ℕ → List ℕ
no_responses i = []

abbrev new_processor : Processor
new_processor = record {
  handler = record {
    object_depth = 0;
    array_depth = 0;
    pending_snapshot = 0;
    in_bids = false;
    in_asks = false;
    bids_side_done = false;
    asks_side_done = false;
    row_string_idx = 0;
    row0 = [];
    out = empty_snapshot;
  };
  order_book = empty_book order_book_depth;
  stamps = record {
    feeder_read_steady_ns = 0;
    feeder_write_steady_ns = 0;
    trader_read_steady_ns = 0;
  };
}

-- A batch of two updates.
abbrev two_updates : Ring OrderBookUpdate
two_updates = record {
  head = 2;
  tail = 0;
  is_active_consumer = true;
  places =
      empty_update
      ∷ record empty_update { last_update_id = 1; price = 5; quantity = 2; has_more = true }
      ∷ record empty_update { last_update_id = 1; price = 4; quantity = 3 }
      ∷ empty_update
      ∷ [];
}

two_updates-IsValid : IsValid (2 ^ 2) two_updates
two_updates-IsValid = record { whole = refl; head_in = omega arith; tail_in = omega arith }

two_updates-size :
    size mute no_responses (λ i. i) empty_update (view (2 ^ 2) empty_update two_updates) < 3
unfolding view
two_updates-size = omega arith

process_update_returns_example :
    Returned mute no_responses
      (λ i. i)
      empty_update
      (2 ^ 2)
      (process_update mute no_responses
        (λ i. i)
        empty_update
        (2 ^ 2)
        3
        0
        (two_updates, new_processor))
      (queue_update mute no_responses
        (λ i. i)
        empty_update
        0
        (view (2 ^ 2) empty_update two_updates)
        new_processor)
process_update_returns_example =
    process_update_returns mute no_responses (λ i. i) empty_update 2 (omega arith) 3 0 two_updates
      new_processor two_updates-IsValid two_updates-size

abbrev quiet : Surroundings
quiet = record {
  is_producer_alive = true;
  responses = no_responses;
  clock = λ i. i;
  trade_time = 7;
  write_time = 8;
}

-- A trader with one trade to read.
abbrev one_trade_state : TraderState
one_trade_state = record {
  updates = new_ring market_data_length empty_update;
  trades =
      write market_data_length (new_ring market_data_length empty_trade)
        (record empty_trade { quantity = 4 });
  orders = new_ring order_length empty_order;
  processor = new_processor;
  window = new_window 250_000;
  last_order = empty_order;
  order = empty_order;
}

one_trade_state-IsReady : IsReady one_trade_state
one_trade_state-IsReady = record {
  updates = new_ring-IsValid 12 (omega arith) empty_update;
  trades =
      write-IsValid 12 (omega arith) (new_ring market_data_length empty_trade)
        (record empty_trade { quantity = 4 }) (new_ring-IsValid 12 (omega arith) empty_trade);
  orders = new_ring-IsValid 10 (omega arith) empty_order;
}

trader_step_refines_example :
    (s' : TraderState) × (ok : Bool) × (trader_step mute TraderId.eth_usdt quiet one_trade_state
      ≡ some (s', ok))
    × ((view_state s', ok) ≡ queue_step mute TraderId.eth_usdt quiet (view_state one_trade_state))
    × IsReady s'
trader_step_refines_example =
    trader_step_refines mute TraderId.eth_usdt quiet one_trade_state one_trade_state-IsReady
