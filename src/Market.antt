-- ===== src/Market.antt =====
-- lib/interprocess/ring_buffer_data.hpp, with the constants and aliases of
-- lib/interprocess/interprocess.hpp: the records that the processes exchange.
use hft_demo.Common.{ℕ, ◌-◌, ◌*◌, List, replicate, Bool, false}

-- `kOrderBookDepth`, `kPriceShift` and `kQuantityShift`
abbrev pub order_book_depth : ℕ
order_book_depth = 100

abbrev pub price_shift : ℕ
price_shift = 8

abbrev pub quantity_shift : ℕ
quantity_shift = 8

-- The lengths of `OrderBookUpdateRingBuffer` and `TradeRingBuffer`, of `OrderRingBuffer`, and of
-- `LatencyRingBuffer`.
abbrev pub market_data_length : ℕ
market_data_length = 4096

abbrev pub order_length : ℕ
order_length = 1024

abbrev pub latency_length : ℕ
latency_length = 16384

-- `Symbol`
pub data Symbol : Type 0 where
  unknown btc_usdt eth_usdt : Symbol

-- `OrderBookSnapshot_`, whose four arrays have `order_book_depth` places.
pub record OrderBookSnapshot : Type 0 where
  pub event_timestamp_microseconds : ℕ
  pub last_update_id : ℕ
  pub bids_prices : List ℕ
  pub bids_quantities : List ℕ
  pub asks_prices : List ℕ
  pub asks_quantities : List ℕ
  pub bids_depth : ℕ
  pub asks_depth : ℕ
  pub symbol : Symbol

abbrev pub empty_snapshot : OrderBookSnapshot
empty_snapshot = record {
  event_timestamp_microseconds = 0;
  last_update_id = 0;
  bids_prices = replicate order_book_depth 0;
  bids_quantities = replicate order_book_depth 0;
  asks_prices = replicate order_book_depth 0;
  asks_quantities = replicate order_book_depth 0;
  bids_depth = 0;
  asks_depth = 0;
  symbol = Symbol.unknown;
}

-- `OrderBookUpdate_::Type`
pub data BookSide : Type 0 where
  bid ask : BookSide

-- `OrderBookUpdate_`
pub record OrderBookUpdate : Type 0 where
  pub event_timestamp_microseconds : ℕ
  pub feeder_read_steady_ns : ℕ
  pub feeder_write_steady_ns : ℕ
  pub first_update_id : ℕ
  pub last_update_id : ℕ
  pub price : ℕ
  pub quantity : ℕ
  pub side : BookSide
  pub symbol : Symbol
  pub has_more : Bool

abbrev pub empty_update : OrderBookUpdate
empty_update = record {
  event_timestamp_microseconds = 0;
  feeder_read_steady_ns = 0;
  feeder_write_steady_ns = 0;
  first_update_id = 0;
  last_update_id = 0;
  price = 0;
  quantity = 0;
  side = bid;
  symbol = Symbol.unknown;
  has_more = false;
}

-- `Trade_`
pub record Trade : Type 0 where
  pub event_timestamp_microseconds : ℕ
  pub feeder_read_steady_ns : ℕ
  pub feeder_write_steady_ns : ℕ
  pub price : ℕ
  pub quantity : ℕ
  pub symbol : Symbol
  pub is_buyer_maker : Bool

abbrev pub empty_trade : Trade
empty_trade = record {
  event_timestamp_microseconds = 0;
  feeder_read_steady_ns = 0;
  feeder_write_steady_ns = 0;
  price = 0;
  quantity = 0;
  symbol = Symbol.unknown;
  is_buyer_maker = false;
}

-- `Order_::Type`
pub data OrderType : Type 0 where
  buy sell : OrderType

-- `Order_`
pub record Order : Type 0 where
  pub feeder_read_steady_ns : ℕ
  pub feeder_write_steady_ns : ℕ
  pub trader_read_steady_ns : ℕ
  pub trader_write_steady_ns : ℕ
  pub price : ℕ
  pub quantity : ℕ
  pub kind : OrderType
  pub symbol : Symbol

abbrev pub empty_order : Order
empty_order = record {
  feeder_read_steady_ns = 0;
  feeder_write_steady_ns = 0;
  trader_read_steady_ns = 0;
  trader_write_steady_ns = 0;
  price = 0;
  quantity = 0;
  kind = buy;
  symbol = Symbol.unknown;
}

-- `LatencyNsSample_`
pub record LatencyNsSample : Type 0 where
  pub delta_total : ℕ
  pub delta_feeder_ns : ℕ
  pub delta_md_queue_ns : ℕ
  pub delta_trader_ns : ℕ
  pub delta_order_queue_ns : ℕ

-- `LogLevel` of lib/log_common.hpp
pub data LogLevel : Type 0 where
  info warning error : LogLevel

-- `ObserverData_`; `message` has as many bytes as `message_size`.
pub record ObserverData : Type 0 where
  pub timestamp_ns : ℕ
  pub level : LogLevel
  pub message : List ℕ

-- The length of `ObserverRingBuffer`.
abbrev pub observer_length : ℕ
observer_length = 1024

-- `kCacheLineSize`, the `DataSize` of `ObserverData`, and its `message_size`.
abbrev pub cache_line_size : ℕ
cache_line_size = 64

abbrev pub observer_data_size : ℕ
observer_data_size = 2 * cache_line_size

abbrev pub message_size : ℕ
message_size = observer_data_size - 8 - 1
