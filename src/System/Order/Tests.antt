-- ===== src/System/Order/Tests.antt =====
-- A test of an order's way.
use hft_demo.Common.{◌≡◌, ◌+◌, ◌-◌, ◌++◌, refl, arith, true, false, [], ◌∷◌, List, ℕ}
use hft_demo.Market.{
  empty_order, empty_update, empty_trade, empty_snapshot, order_length, latency_length,
  market_data_length,
}
use hft_demo.Book.{Row, get_best, top}
use hft_demo.Ring.{new_ring}
use hft_demo.Ring.Queue.{live, view, new_ring-IsValid, write-IsValid, new_ring_refines}
use hft_demo.Feeder.{TraderId}
use hft_demo.Trader.{create_order, heavy, offer}
use hft_demo.Trader.Main
use hft_demo.Trader.Main.{TraderState, order_step}
use hft_demo.Executor.{sample_of}
use hft_demo.Executor.Loop.{ExecutorState, IsReady, no_sample, visit}
use hft_demo.System.Order.{sent_order, order_measured}

abbrev one_row : ℕ → ℕ → List Row
one_row p q = record { price = p; quantity = q } ∷ []

-- More on the bid side, and more aggressive buys.
abbrev buying : TraderState
buying = record {
  updates = new_ring market_data_length empty_update;
  trades = new_ring market_data_length empty_trade;
  orders = new_ring order_length empty_order;
  processor = record {
    handler = record {
      object_depth = 0;
      array_depth = 0;
      pending_snapshot = 0;
      in_bids = false;
      in_asks = false;
      bids_side_done = false;
      asks_side_done = false;
      row_string_idx = 0;
      row0 = [];
      out = empty_snapshot;
    };
    order_book = record {
      bids = record { rows = one_row 99 50; count = 1 };
      asks = record { rows = one_row 101 10; count = 1 };
      last_update_id = 7;
    };
    stamps = record {
      feeder_read_steady_ns = 100;
      feeder_write_steady_ns = 130;
      trader_read_steady_ns = 190;
    };
  };
  window = record {
    ring = [];
    head = 0;
    tail = 2;
    size = 2;
    sum_aggressive_buy = 5;
    sum_aggressive_sell = 3;
    window_us = 250_000;
  };
  last_order = empty_order;
  order = empty_order;
}

buying-IsReady : Main.IsReady buying
buying-IsReady = record {
  updates = new_ring-IsValid 12 (omega arith) empty_update;
  trades = new_ring-IsValid 12 (omega arith) empty_trade;
  orders = new_ring-IsValid 10 (omega arith) empty_order;
}

buying_sends :
    (create_order buying.processor.order_book buying.window buying.last_order buying.order).2 ≡ true
unfolding create_order get_best top heavy offer
buying_sends = refl

abbrev measuring : ExecutorState
measuring = record {
  orders = record {
    of_btc_usdt = (order_step TraderId.btc_usdt 200 buying).orders;
    of_eth_usdt = new_ring order_length empty_order;
  };
  latency = new_ring latency_length no_sample;
  order = empty_order;
}

measuring-IsReady : IsReady measuring
unfolding order_step
measuring-IsReady = record {
  btc_orders = rw (buying_sends) (
      write-IsValid 10 (omega arith) buying.orders (sent_order TraderId.btc_usdt 200 buying)
        buying-IsReady.orders);
  eth_orders = new_ring-IsValid 10 (omega arith) empty_order;
  latency = new_ring-IsValid 14 (omega arith) no_sample;
}

order_measured_example :
    let (x', ok) =
      visit TraderId.btc_usdt (record { is_producer_alive = true; now = 250 }) measuring in
    let sample = sample_of 250 (sent_order TraderId.btc_usdt 200 buying) in
    (ok ≡ true)
    × (x'.order ≡ sent_order TraderId.btc_usdt 200 buying)
    × (view latency_length no_sample x'.latency ≡ live ([] ++ sample ∷ []))
    × (sample.delta_total ≡ 250 - 100)
    × (sample.delta_total
        ≡ sample.delta_feeder_ns + sample.delta_md_queue_ns + sample.delta_trader_ns
          + sample.delta_order_queue_ns)
order_measured_example =
    order_measured TraderId.btc_usdt 200 250 buying measuring [] buying-IsReady measuring-IsReady
      refl (new_ring_refines 10 (omega arith) empty_order empty_order)
      (new_ring_refines 14 (omega arith) no_sample no_sample) (omega arith) buying_sends
      (omega arith) (record { sent = omega arith; queued = omega arith; taken = omega arith })
      (omega arith)
