-- ===== src/Observer/Aggregation/Tests.antt =====
-- Tests of the aggregation of latencies.
use hft_demo.Common.{true, List, [], ◌∷◌, ◌++◌, some, replicate}
use hft_demo.Market.{LatencyNsSample, latency_length}
use hft_demo.Ring.{Ring, new_ring}
use hft_demo.Ring.Queue.{live}
use hft_demo.Ring.Fill.{fill}
use hft_demo.Observer.{latency_batch_size, cleared, LatencyState, Moment, empty_sample}
use hft_demo.Observer.Refine.{Aggregate}

abbrev quick_sample : LatencyNsSample
quick_sample = record {
  delta_total = 100;
  delta_feeder_ns = 30;
  delta_md_queue_ns = 40;
  delta_trader_ns = 10;
  delta_order_queue_ns = 20;
}

abbrev moment : Moment
moment = record { is_producer_alive = true; file_size = some 0; now_seconds = 9 }

abbrev thousand : List LatencyNsSample
thousand = replicate latency_batch_size quick_sample

abbrev slow : List LatencyNsSample
slow = record quick_sample { delta_total = 700; delta_feeder_ns = 630 } ∷ []

abbrev full_ring : Ring LatencyNsSample
full_ring = fill latency_length (new_ring latency_length empty_sample) (thousand ++ slow)

abbrev full_state : LatencyState
full_state = record { ring = full_ring; batches = cleared; csv = [] }

abbrev full_aggregate : Aggregate
full_aggregate = record { queue = live (thousand ++ slow); held = []; csv = [] }
