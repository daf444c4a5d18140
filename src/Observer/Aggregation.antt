-- ===== src/Observer/Aggregation.antt =====
-- Sequences of rounds of the latency aggregation.
mod Tests
use hft_demo.Common.{ℕ, zero, suc, ◌<◌, ◌≡◌, List, if◌then◌else◌}
use hft_demo.Common.Rounds.{rounds, rounds-simulate}
use hft_demo.Observer.{LatencyState, Moment, latency_step}
use hft_demo.Observer.Refine.{Aggregate, aggregate_step, StandsFor, latency_step_refines}

-- A state that stands for an aggregate with at most 1000 samples held still stands for what becomes
-- of it in any sequence of rounds, and the loop ends in the same round: samples are taken from the
-- queue in order into all five batches, a lost queue drops them, an empty one ends with its
-- producer, and a full batch is written and cleared.
pub aggregation_refines :
    (ms : List Moment) (s : LatencyState) (a : Aggregate)
    → StandsFor s a
    → StandsFor (rounds latency_step ms s).0 (rounds aggregate_step ms a).0
      × ((rounds latency_step ms s).1 ≡ (rounds aggregate_step ms a).1)
aggregation_refines = rounds-simulate StandsFor latency_step aggregate_step latency_step_refines
