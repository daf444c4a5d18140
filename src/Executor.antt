-- ===== src/Executor.antt =====
-- executor/executor.cpp: the latency sample of an order.
pub mod Loop
mod Tests
use hft_demo.Common.{
  ℕ, zero, suc, ◌+◌, ◌-◌, ◌≤◌, ◌<◌, ◌≡◌, refl, List, [], Bool, true, false, ◌||◌, arith, ltb, ◌==◌,
  if◌then◌else◌, mul64,
}
use hft_demo.Common.Bytes.{codes}
use hft_demo.Market.{price_shift, Symbol, Order, LatencyNsSample}

-- `SymbolLabel`
unfoldable pub symbol_label : Symbol → List ℕ
symbol_label Symbol.btc_usdt = codes "BTCUSDT"
symbol_label Symbol.eth_usdt = codes "ETHUSDT"
symbol_label Symbol.unknown = []

-- The loop of `PriceScaleDivisor`, of `rounds` rounds.
abbrev pub scale_up : (rounds d : ℕ) → ℕ
scale_up zero d = d
scale_up (suc rounds) d = scale_up rounds (mul64 d 10)

-- `PriceScaleDivisor`
abbrev pub price_scale_divisor : ℕ
price_scale_divisor = scale_up price_shift 1

-- `MonotonicDeltaNs`
unfoldable pub monotonic_delta_ns : ℕ → ℕ → ℕ
monotonic_delta_ns end_ns begin_ns =
    if begin_ns == 0 || ltb end_ns begin_ns then 0 else end_ns - begin_ns

-- The sample of an order read at the time `now`.
unfoldable pub sample_of : (now : ℕ) → Order → LatencyNsSample
sample_of now o = record {
  delta_total = monotonic_delta_ns now o.feeder_read_steady_ns;
  delta_feeder_ns = monotonic_delta_ns o.feeder_write_steady_ns o.feeder_read_steady_ns;
  delta_md_queue_ns = monotonic_delta_ns o.trader_read_steady_ns o.feeder_write_steady_ns;
  delta_trader_ns = monotonic_delta_ns o.trader_write_steady_ns o.trader_read_steady_ns;
  delta_order_queue_ns = monotonic_delta_ns now o.trader_write_steady_ns;
}

-- The order passed the stages one after the other, from a time other than 0 on.
pub record IsInOrder (now : ℕ) (o : Order) : Type 0 where
  pub started : 0 < o.feeder_read_steady_ns
  pub feeder : o.feeder_read_steady_ns ≤ o.feeder_write_steady_ns
  pub queued : o.feeder_write_steady_ns ≤ o.trader_read_steady_ns
  pub decided : o.trader_read_steady_ns ≤ o.trader_write_steady_ns
  pub sent : o.trader_write_steady_ns ≤ now

-- The four parts of the latency add up to the total, for an order that passed the stages in order.
pub sample_of_lem :
    (now : ℕ) (o : Order)
    → IsInOrder now o
    → let s = sample_of now o in
      s.delta_total
      ≡ s.delta_feeder_ns + s.delta_md_queue_ns + s.delta_trader_ns + s.delta_order_queue_ns
unfolding sample_of monotonic_delta_ns
sample_of_lem now o v = ground arith
