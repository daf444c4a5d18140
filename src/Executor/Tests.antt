-- ===== src/Executor/Tests.antt =====
-- A test of the latency sample.
use hft_demo.Common.{◌≡◌, refl}
use hft_demo.Market.{Order, empty_order}
use hft_demo.Executor.{price_scale_divisor}

abbrev stamped : Order
stamped = record empty_order {
  feeder_read_steady_ns = 100;
  feeder_write_steady_ns = 130;
  trader_read_steady_ns = 190;
  trader_write_steady_ns = 200;
}

divisor_runs : price_scale_divisor ≡ 100_000_000
divisor_runs = refl
