-- ===== src/Executor/Loop.antt =====
-- A round of the main loop of RunExecutor in executor/executor.cpp, over the orders of all traders.
pub mod Refine
use hft_demo.Common.{ℕ, Bool, true, false, not, [], ◌∷◌, if◌then◌else◌}
use hft_demo.Market.{Order, LatencyNsSample, empty_order, order_length, latency_length}
use hft_demo.Ring.{Ring, ReadResult, success, buffer_is_empty, consumer_is_disabled, read, write}
use hft_demo.Ring.Queue.{Queue, live, lost, queue_write, view, IsValid}
use hft_demo.Feeder.{TraderId, ByTraderId, at, put_at}
use hft_demo.Executor.{sample_of}

-- What `RunExecutor` keeps: the rings of orders, the ring of samples and the order last read.
pub record ExecutorState : Type 0 where
  pub orders : ByTraderId (Ring Order)
  pub latency : Ring LatencyNsSample
  pub order : Order

-- What it finds when it visits a trader: whether the trader is alive, and the time.
pub record Visit : Type 0 where
  pub is_producer_alive : Bool
  pub now : ℕ

-- What follows the read; false ends the process.
unfoldable pub after_order_read :
    TraderId → (now : ℕ) → ExecutorState → Ring Order × ReadResult × Order → ExecutorState × Bool
after_order_read id now s (ring, success, o) = (
  record s {
    orders = put_at s.orders id ring;
    latency = write latency_length s.latency (sample_of now o);
    order = o;
  },
  true,
)
after_order_read id now s (ring, consumer_is_disabled, o) =
    (record s { orders = put_at s.orders id ring; order = o }, false)
after_order_read id now s (ring, buffer_is_empty, o) =
    (record s { orders = put_at s.orders id ring; order = o }, true)

-- The body of the loop over `kTraderIds`.
unfoldable pub visit : TraderId → Visit → ExecutorState → ExecutorState × Bool
visit id v s =
    if not v.is_producer_alive
    then (s, false)
    else after_order_read id v.now s (read order_length (at s.orders id) s.order)

-- The loop over `kTraderIds`.
unfoldable pub executor_step : ByTraderId Visit → ExecutorState → ExecutorState × Bool
executor_step vs s =
    let (s', ok) = visit TraderId.btc_usdt vs.of_btc_usdt s in
    let last = visit TraderId.eth_usdt vs.of_eth_usdt s' in if ok then last else (s', false)

pub record IsReady (s : ExecutorState) : Type 0 where
  pub btc_orders : IsValid order_length s.orders.of_btc_usdt
  pub eth_orders : IsValid order_length s.orders.of_eth_usdt
  pub latency : IsValid latency_length s.latency

-- The same on queues.
pub record QueueState : Type 0 where
  pub orders : ByTraderId (Queue Order)
  pub latency : Queue LatencyNsSample
  pub order : Order

abbrev pub no_sample : LatencyNsSample
no_sample = record {
  delta_total = 0;
  delta_feeder_ns = 0;
  delta_md_queue_ns = 0;
  delta_trader_ns = 0;
  delta_order_queue_ns = 0;
}

abbrev pub view_state : ExecutorState → QueueState
view_state s = record {
  orders = record {
    of_btc_usdt = view order_length empty_order s.orders.of_btc_usdt;
    of_eth_usdt = view order_length empty_order s.orders.of_eth_usdt;
  };
  latency = view latency_length no_sample s.latency;
  order = s.order;
}

-- A visit of a trader takes its oldest order, if there is one, and writes the order's sample.
abbrev pub take_order : TraderId → (now : ℕ) → QueueState → Queue Order → QueueState × Bool
take_order id now s (live []) = (s, true)
take_order id now s (live (o ∷ os)) = (
  record {
    orders = put_at s.orders id (live os);
    latency = queue_write latency_length s.latency (sample_of now o);
    order = o;
  },
  true,
)
take_order id now s lost = (s, false)

abbrev pub queue_visit : TraderId → Visit → QueueState → QueueState × Bool
queue_visit id v s =
    if not v.is_producer_alive then (s, false) else take_order id v.now s (at s.orders id)

abbrev pub queue_step : ByTraderId Visit → QueueState → QueueState × Bool
queue_step vs s =
    let (s', ok) = queue_visit TraderId.btc_usdt vs.of_btc_usdt s in
    let last = queue_visit TraderId.eth_usdt vs.of_eth_usdt s' in if ok then last else (s', false)
