-- ===== src/Observer/Attempts/Drain/Tests.antt =====
-- Tests of the thread of a log.
use hft_demo.Common.{ℕ, ◌≡◌, ◌++◌, refl, arith, Bool, true, false, some, Option, List, [], ◌∷◌}
use hft_demo.Common.Bytes.{codes}
use hft_demo.Market.{ObserverData, info, warning, observer_length}
use hft_demo.Ring.{new_ring}
use hft_demo.Ring.Queue.{new_ring-IsValid, new_ring_refines}
use hft_demo.Ring.Fill.{fill, fill-IsValid, view-fill}
use hft_demo.Memory.{
  Region, ipc_magic, ipc_version, shared_memory, lock, attach, get_objects_size,
  get_size_with_padding, object_offsets,
}
use hft_demo.Logger.File.{lines_of}
use hft_demo.Startup.{Layouts, after_attempt, open_loop}
use hft_demo.Observer.Attempts.{Attempt, runs, process_log}
use hft_demo.Observer.Attempts.Drain.{IsSession, process_log_drains}

abbrev layouts : Layouts
layouts = record {
  alignment = 64;
  to_observer = 64 ∷ 192 ∷ [];
  market_data = [];
  order = [];
  latency = [];
}

abbrev region : Region
region = record {
  address = 4096;
  size = 256;
  mlock_error = Option.none;
  found = record { magic = ipc_magic; version = ipc_version; heartbeat_seconds = 5 };
}

abbrev no_data : ObserverData
no_data = record { timestamp_ns = 0; level = info; message = [] }

abbrev noon : ℕ → List ℕ
noon time = codes "2026-01-01 12:00:00"

abbrev two_messages : List ObserverData
two_messages =
    record no_data { message = codes "started" }
    ∷ record no_data { level = warning; message = codes "slow" }
    ∷ []

abbrev session : Attempt ObserverData Bool
session = record {
  openings = λ i. some region;
  fuel = 3;
  ring = fill observer_length (new_ring observer_length no_data) two_messages;
  inputs = true ∷ false ∷ false ∷ [];
}

session-IsSession : IsSession layouts no_data session two_messages
unfolding open_loop after_attempt shared_memory lock attach get_objects_size get_size_with_padding
    object_offsets
session-IsSession =
    let new = new_ring-IsValid 10 (omega arith) no_data in
    record {
      memory = record { meta = region.found; objects = 64 ∷ [] };
      opens = refl;
      whole = fill-IsValid 10 (omega arith) (new_ring observer_length no_data) two_messages new;
      queued =
          view-fill 10 (omega arith) no_data (new_ring observer_length no_data) two_messages [] new
            (new_ring_refines 10 (omega arith) no_data no_data) (omega arith);
      before = true ∷ false ∷ [];
      behind = [];
      inputs = refl;
      enough = refl;
    }

process_log_drains_example :
    process_log layouts noon no_data true (session ∷ session ∷ []) []
    ≡ (runs, lines_of noon (two_messages ++ two_messages))
process_log_drains_example =
    process_log_drains layouts noon no_data ((session, two_messages) ∷ (session, two_messages) ∷ [])
      [] (session-IsSession, (session-IsSession, tt))
