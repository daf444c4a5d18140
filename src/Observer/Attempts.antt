-- ===== src/Observer/Attempts.antt =====
-- ProcessLogAttempt, ProcessLatencyAggregationAttempt, ProcessLog and ProcessLatencyAggregation of
-- observer/observer.cpp: attempts that follow each other as the producers come and go.
pub mod Drain
use hft_demo.Common.{ℕ, zero, suc, ◌≡◌, ap, Bool, true, false, List, [], ◌∷◌, Option, if◌then◌else◌}
use hft_demo.Common.Rounds.{rounds}
use hft_demo.Market.{ObserverData, LatencyNsSample}
use hft_demo.Ring.{Ring}
use hft_demo.Memory.{Region, SharedMemory}
use hft_demo.Observer.{LogState, log_step, Line, LatencyState, Moment, cleared, latency_step}
use hft_demo.Startup.{Start, fails, waits, goes_on, Layouts, open_loop}

-- What an attempt has come to: it returned a number, or it still runs.
pub data Ended : Type 0 where
  returned : ℕ → Ended
  going : Ended

-- What a thread has come to: std::exit(1), or it still runs.
pub data Thread : Type 0 where
  exited runs : Thread

-- What an attempt finds: the memory when it tries to open it, the ring in it, and in each round the
-- input of the round.
pub record Attempt (A M : Type 0) : Type 0 where
  pub openings : ℕ → Option Region
  pub fuel : ℕ
  pub ring : Ring A
  pub inputs : List M

abbrev ended_of : Bool → Ended
ended_of true = going
ended_of false = returned 0

-- The loop of ProcessLogAttempt, with the file; `uninitialized` is `data` before the first read.
unfoldable pub log_loop :
    (format : ℕ → List ℕ) (uninitialized : ObserverData)
    → Start SharedMemory
    → Attempt ObserverData Bool
    → (file : List ℕ) → Ended × List ℕ
log_loop format uninitialized fails a file = (returned 1, file)
log_loop format uninitialized waits a file = (going, file)
log_loop format uninitialized (goes_on m) a file =
    let (s, on) =
      rounds (log_step format) a.inputs
        (record { ring = a.ring; data_read = uninitialized; logfile = file }) in
    (ended_of on, s.logfile)

-- `ProcessLogAttempt`
unfoldable pub process_log_attempt :
    Layouts
    → (format : ℕ → List ℕ) (uninitialized : ObserverData) → Attempt ObserverData Bool
    → (file : List ℕ) → Ended × List ℕ
process_log_attempt l format uninitialized a file =
    log_loop format uninitialized (open_loop l.alignment l.to_observer a.openings a.fuel 0) a file

-- The loop of ProcessLatencyAggregationAttempt; its batches start empty.
unfoldable pub latency_loop :
    Start SharedMemory → Attempt LatencyNsSample Moment → List Line → Ended × List Line
latency_loop fails a csv = (returned 1, csv)
latency_loop waits a csv = (going, csv)
latency_loop (goes_on m) a csv =
    let (s, on) =
      rounds latency_step a.inputs (record { ring = a.ring; batches = cleared; csv = csv }) in
    (ended_of on, s.csv)

-- `ProcessLatencyAggregationAttempt`
unfoldable pub process_latency_attempt :
    Layouts → Attempt LatencyNsSample Moment → List Line → Ended × List Line
process_latency_attempt l a csv =
    latency_loop (open_loop l.alignment l.latency a.openings a.fuel 0) a csv

-- What follows an attempt: std::exit(1) unless it returned 0.
abbrev next_attempt : {F : Type 0} → Ended × F → Thread × F → Thread × F
next_attempt (returned zero, file) later = later
next_attempt (returned (suc n), file) later = (exited, file)
next_attempt (going, file) later = (runs, file)

module _ {A F : Type 0} (attempt : A → F → Ended × F) where
  -- The loops of ProcessLog and of ProcessLatencyAggregation over the attempts so far.
  unfoldable pub restart : List A → F → Thread × F
  restart [] file = (runs, file)
  restart (a ∷ as_) file =
      let later = restart as_ (attempt a file).1 in next_attempt (attempt a file) later

  -- An attempt that returns 0 is followed by the next one.
  pub restart-returned :
      (a : A) (as_ : List A) (file : F) {file' : F}
      → attempt a file ≡ (returned 0, file')
      → restart (a ∷ as_) file ≡ restart as_ file'
  unfolding restart
  restart-returned a as_ file = ap (λ r. next_attempt r (restart as_ r.1))

-- `ProcessLog`
unfoldable pub process_log :
    Layouts
    → (format : ℕ → List ℕ) (uninitialized : ObserverData) (is_open : Bool)
    → List (Attempt ObserverData Bool)
    → (file : List ℕ) → Thread × List ℕ
process_log l format uninitialized is_open as_ file =
    if is_open
    then restart (process_log_attempt l format uninitialized) as_ file
    else (exited, file)

-- `ProcessLatencyAggregation`
unfoldable pub process_latency_aggregation :
    Layouts
    → (is_open : Bool) → List (Attempt LatencyNsSample Moment)
    → List Line
    → Thread × List Line
process_latency_aggregation l is_open as_ csv =
    if is_open then restart (process_latency_attempt l) as_ csv else (exited, csv)
