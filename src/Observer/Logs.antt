-- ===== src/Observer/Logs.antt =====
-- Sequences of rounds of a log's loop.
use hft_demo.Common.{ℕ, ◌≡◌, refl, ap, ◌∙◌, Bool, true, List, [], ◌∷◌, ◌++◌, arith}
use hft_demo.Common.Rounds.{rounds, rounds-simulate}
use hft_demo.Market.{ObserverData, observer_length}
use hft_demo.Ring.{Ring, ReadResult, read}
use hft_demo.Ring.Default.{read_default}
use hft_demo.Ring.Queue.{
  Queue, live, lost, queue_read, view, IsValid, read-IsValid, reset_refines, reset-IsValid,
}
use hft_demo.Logger.File.{line_of, write_log-line}
use hft_demo.Observer.{LogState, after_log_read, log_step}

-- A log on a queue: what is queued, and the bytes of the file.
pub record Log : Type 0 where
  pub queue : Queue ObserverData
  pub logfile : List ℕ

abbrev pub queue_log_step : (format : ℕ → List ℕ) (is_producer_alive : Bool) → Log → Log × Bool
queue_log_step format is_alive l = elim l.queue [
  | live [] ↦ (l, is_alive)
  | live (x ∷ xs) ↦ (record { queue = live xs; logfile = l.logfile ++ line_of format x }, true)
  | lost ↦ (record l { queue = live [] }, true)
]

pub record StandsFor (d : ObserverData) (s : LogState) (l : Log) : Type 0 where
  pub whole : IsValid observer_length s.ring
  pub queue : view observer_length d s.ring ≡ l.queue
  pub logfile : s.logfile ≡ l.logfile

module _ (format : ℕ → List ℕ) (d : ObserverData) where
  log_lem :
      (is_alive : Bool) (s : LogState) (q : Queue ObserverData) (logfile : List ℕ)
      (r : Ring ObserverData × ReadResult × ObserverData)
      → IsValid observer_length r.0
      → (view observer_length d r.0, r.1, r.2) ≡ queue_read q s.data_read
      → s.logfile ≡ logfile
      → let l = queue_log_step format is_alive (record { queue = q; logfile = logfile }) in
        StandsFor d (after_log_read format is_alive s r).0 l.0
        × ((after_log_read format is_alive s r).1 ≡ l.1)
  unfolding after_log_read
  log_lem is_alive s (live []) logfile (ring, result, x) v e lines =
      rw (ap (λ t. t.1) e) (record { whole = v; queue = ap (λ t. t.0) e; logfile = lines }, refl)
  log_lem is_alive s (live (y ∷ ys)) logfile (ring, result, x) v e lines =
      rw (ap (λ t. t.1) e, ap (λ t. t.2) e)
        (
          record {
            whole = v;
            queue = ap (λ t. t.0) e;
            logfile =
                write_log-line format s.logfile y.timestamp_ns y.level y.message
                ∙ ap (λ f. f ++ line_of format y) lines;
          },
          refl,
        )
  log_lem is_alive s lost logfile (ring, result, x) v e lines = rw (ap (λ t. t.1) e) (
    record {
      whole = reset-IsValid 10 (omega arith) ring v;
      queue = reset_refines 10 (omega arith) d ring;
      logfile = lines;
    },
    refl,
  )

  log_step_refines :
      (is_alive : Bool) (s : LogState) (l : Log)
      → StandsFor d s l
      → StandsFor d (log_step format is_alive s).0 (queue_log_step format is_alive l).0
        × ((log_step format is_alive s).1 ≡ (queue_log_step format is_alive l).1)
  unfolding log_step
  log_step_refines is_alive s l v =
      log_lem is_alive s l.queue l.logfile (read observer_length s.ring s.data_read)
        (read-IsValid 10 (omega arith) s.ring s.data_read v.whole)
        (read_default 10 (omega arith) d s.ring s.data_read v.whole
          ∙ ap (λ q. queue_read q s.data_read) v.queue)
        v.logfile

  -- Any sequence of rounds on a valid ring writes to the file the lines of the queue in order,
  -- starts anew behind a lost queue, and ends at an empty one whose producer is dead.
  pub log_refines :
      (alive : List Bool) (s : LogState) (l : Log)
      → StandsFor d s l
      → StandsFor d (rounds (log_step format) alive s).0 (rounds (queue_log_step format) alive l).0
        × ((rounds (log_step format) alive s).1 ≡ (rounds (queue_log_step format) alive l).1)
  log_refines =
      rounds-simulate (StandsFor d) (log_step format) (queue_log_step format) log_step_refines
