-- ===== src/Observer.antt =====
-- observer/observer.cpp: the logs of the other processes and the percentiles of the latency.
pub mod Percentiles
pub mod Refine
pub mod Aggregation
pub mod Attempts
pub mod Logs
pub mod Routes
use hft_demo.Common.{
  ℕ, Bool, true, false, not, List, [], ◌∷◌, ◌++◌, Option, none, some, ltb, ◌==◌, if◌then◌else◌,
  length,
}
use hft_demo.Market.{LatencyNsSample, ObserverData, observer_length, latency_length}
use hft_demo.Ring.{
  Ring, ReadResult, success, buffer_is_empty, consumer_is_disabled, read, reset_consumer,
}
use hft_demo.Logger.File.{write_log}
use hft_demo.Observer.Percentiles.{sort_and_write_latency_percentiles}

-- `kLatencyBatchSize`
abbrev pub latency_batch_size : ℕ
latency_batch_size = 1000

-- The five batches of ProcessLatencyAggregationAttempt.
pub record Batches : Type 0 where
  pub total : List ℕ
  pub feeder_ns : List ℕ
  pub md_queue_ns : List ℕ
  pub trader_ns : List ℕ
  pub order_queue_ns : List ℕ

-- `clear_batches`, whatever they hold.
abbrev pub cleared : Batches
cleared = record {
  total = [];
  feeder_ns = [];
  md_queue_ns = [];
  trader_ns = [];
  order_queue_ns = [];
}

-- The calls of `push_back`.
abbrev pub push_sample : Batches → LatencyNsSample → Batches
push_sample b s = record {
  total = b.total ++ s.delta_total ∷ [];
  feeder_ns = b.feeder_ns ++ s.delta_feeder_ns ∷ [];
  md_queue_ns = b.md_queue_ns ++ s.delta_md_queue_ns ∷ [];
  trader_ns = b.trader_ns ++ s.delta_trader_ns ∷ [];
  order_queue_ns = b.order_queue_ns ++ s.delta_order_queue_ns ∷ [];
}

-- A line of the CSV file: the header, or the time, the number of samples and the percentiles.
pub data Line : Type 0 where
  header : Line
  row : (utc_s samples : ℕ) → List ℕ → Line

-- What the aggregation keeps, with the ring that it shares and the lines of its file.
pub record LatencyState : Type 0 where
  pub ring : Ring LatencyNsSample
  pub batches : Batches
  pub csv : List Line

-- What a round finds: whether the executor is alive, the size of the file if it can be had, and the
-- time.
pub record Moment : Type 0 where
  pub is_producer_alive : Bool
  pub file_size : Option ℕ
  pub now_seconds : ℕ

-- The inner loop's branches behind the read; false returns from the attempt.
unfoldable pub after_sample_read :
    Moment
    → LatencyState
    → Ring LatencyNsSample × ReadResult × LatencyNsSample
    → LatencyState × Bool
after_sample_read m s (ring, success, sample) =
    (record s { ring = ring; batches = push_sample s.batches sample }, true)
after_sample_read m s (ring, consumer_is_disabled, sample) =
    (record s { ring = reset_consumer ring; batches = cleared }, true)
after_sample_read m s (ring, buffer_is_empty, sample) =
    (record s { ring = ring }, m.is_producer_alive)

-- The default `LatencyNsSample`.
abbrev pub empty_sample : LatencyNsSample
empty_sample = record {
  delta_total = 0;
  delta_feeder_ns = 0;
  delta_md_queue_ns = 0;
  delta_trader_ns = 0;
  delta_order_queue_ns = 0;
}

-- The header, which only an empty file gets.
abbrev pub header_of : Option ℕ → List Line
header_of none = []
header_of (some size) = if size == 0 then header ∷ [] else []

-- The numbers of a row.
unfoldable pub row_of : Batches → List ℕ
row_of b =
    sort_and_write_latency_percentiles b.total
    ++ sort_and_write_latency_percentiles b.feeder_ns
    ++ sort_and_write_latency_percentiles b.md_queue_ns
    ++ sort_and_write_latency_percentiles b.trader_ns
    ++ sort_and_write_latency_percentiles b.order_queue_ns

-- What the outer loop does with full batches.
unfoldable pub write_row : Moment → LatencyState → LatencyState
write_row m s = record s {
  batches = cleared;
  csv =
      s.csv
      ++ header_of m.file_size
      ++ row m.now_seconds latency_batch_size (row_of s.batches) ∷ [];
}

-- A round of the inner loop, or of the outer one where the batches are full.
unfoldable pub latency_step : Moment → LatencyState → LatencyState × Bool
latency_step m s =
    if ltb (length s.batches.total) latency_batch_size
    then after_sample_read m s (read latency_length s.ring empty_sample)
    else (write_row m s, true)

-- What ProcessLogAttempt keeps, with the bytes of its file.
pub record LogState : Type 0 where
  pub ring : Ring ObserverData
  pub data_read : ObserverData
  pub logfile : List ℕ

-- The branches behind the read; false returns from the attempt. `format` is std::format of a time.
unfoldable pub after_log_read :
    (format : ℕ → List ℕ) (is_producer_alive : Bool)
    → LogState
    → Ring ObserverData × ReadResult × ObserverData
    → LogState × Bool
after_log_read format is_alive s (ring, success, data_read) = (
  record {
    ring = ring;
    data_read = data_read;
    logfile = write_log format s.logfile data_read.timestamp_ns data_read.level data_read.message;
  },
  true,
)
after_log_read format is_alive s (ring, consumer_is_disabled, data_read) =
    (record { ring = reset_consumer ring; data_read = data_read; logfile = s.logfile }, true)
after_log_read format is_alive s (ring, buffer_is_empty, data_read) =
    (record { ring = ring; data_read = data_read; logfile = s.logfile }, is_alive)

-- A round of the loop of ProcessLogAttempt.
unfoldable pub log_step :
    (format : ℕ → List ℕ) (is_producer_alive : Bool) → LogState → LogState × Bool
log_step format is_alive s =
    after_log_read format is_alive s (read observer_length s.ring s.data_read)
