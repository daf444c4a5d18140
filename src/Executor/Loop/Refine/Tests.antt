-- ===== src/Executor/Loop/Refine/Tests.antt =====
-- A test of the executor's loop.
use hft_demo.Common.{◌≡◌, arith, true}
use hft_demo.Market.{Order, empty_order, LatencyNsSample, order_length, latency_length}
use hft_demo.Ring.{new_ring, write}
use hft_demo.Ring.Queue.{new_ring-IsValid, write-IsValid}
use hft_demo.Feeder.{ByTraderId}
use hft_demo.Executor.Loop.{ExecutorState, Visit, IsReady, view_state, queue_step, executor_step}
use hft_demo.Executor.Loop.Refine.{executor_step_refines}

abbrev no_sample : LatencyNsSample
no_sample = record {
  delta_total = 0;
  delta_feeder_ns = 0;
  delta_md_queue_ns = 0;
  delta_trader_ns = 0;
  delta_order_queue_ns = 0;
}

abbrev one_order : Order
one_order = record empty_order {
  feeder_read_steady_ns = 100;
  feeder_write_steady_ns = 130;
  trader_read_steady_ns = 190;
  trader_write_steady_ns = 200;
}

-- Only the second trader has sent an order.
abbrev one_order_state : ExecutorState
one_order_state = record {
  orders = record {
    of_btc_usdt = new_ring order_length empty_order;
    of_eth_usdt = write order_length (new_ring order_length empty_order) one_order;
  };
  latency = new_ring latency_length no_sample;
  order = empty_order;
}

one_order_state-IsReady : IsReady one_order_state
one_order_state-IsReady = record {
  btc_orders = new_ring-IsValid 10 (omega arith) empty_order;
  eth_orders =
      write-IsValid 10 (omega arith) (new_ring order_length empty_order) one_order
        (new_ring-IsValid 10 (omega arith) empty_order);
  latency = new_ring-IsValid 14 (omega arith) no_sample;
}

abbrev both_alive : ByTraderId Visit
both_alive = record {
  of_btc_usdt = record { is_producer_alive = true; now = 240 };
  of_eth_usdt = record { is_producer_alive = true; now = 250 };
}

executor_step_refines_example :
    ((
      view_state (executor_step both_alive one_order_state).0,
      (executor_step both_alive one_order_state).1,
    )
      ≡ queue_step both_alive (view_state one_order_state))
    × IsReady (executor_step both_alive one_order_state).0
executor_step_refines_example =
    executor_step_refines both_alive one_order_state one_order_state-IsReady
