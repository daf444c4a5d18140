-- ===== src/Observer/Attempts/Drain.antt =====
-- The thread of a log writes all that its producers have queued, over their restarts.
mod Tests
use hft_demo.Common.{
  ℕ, zero, suc, ◌+◌, ◌<◌, ◌≡◌, refl, ap, sym, ◌∙◌, Bool, true, false, List, [], ◌∷◌, ◌++◌,
  append-nil, append_assoc, map, arith, if◌then◌else◌, length,
}
use hft_demo.Common.Rounds.{rounds}
use hft_demo.Market.{ObserverData, observer_length}
use hft_demo.Ring.Queue.{live, view, IsValid}
use hft_demo.Memory.{SharedMemory}
use hft_demo.Logger.File.{line_of, lines_of, lines_of-append}
use hft_demo.Observer.{LogState, log_step}
use hft_demo.Observer.Logs.{Log, queue_log_step, StandsFor, log_refines}
use hft_demo.Startup.{Start, goes_on, Layouts, open_loop}
use hft_demo.Observer.Attempts.{
  Ended, returned, Thread, runs, Attempt, log_loop, process_log_attempt, restart, restart-returned,
  process_log,
}

-- An attempt that opens its memory finds there a ring with these messages, and goes round once for
-- each and once more, when its producer is dead.
pub record IsSession (l : Layouts) (d : ObserverData) (a : Attempt ObserverData Bool)
    (messages : List ObserverData) : Type 0 where
  pub memory : SharedMemory
  pub opens : open_loop l.alignment l.to_observer a.openings a.fuel 0 ≡ goes_on memory
  pub whole : IsValid observer_length a.ring
  pub queued : view observer_length d a.ring ≡ live messages
  pub before : List Bool
  pub behind : List Bool
  pub inputs : a.inputs ≡ before ++ false ∷ behind
  pub enough : length before ≡ length messages

drain-queue :
    (format : ℕ → List ℕ) (before behind : List Bool) (messages : List ObserverData) (file : List ℕ)
    → length before ≡ length messages
    → rounds
        (queue_log_step format)
        (before ++ false ∷ behind)
        (record { queue = live messages; logfile = file })
      ≡ (record { queue = live []; logfile = file ++ lines_of format messages }, false)
drain-queue format [] behind [] file e =
    ap (λ f. (record { queue = live []; logfile = f }, false)) (sym (append-nil file))
drain-queue format [] behind (x ∷ xs) file e = absurd (omega arith)
drain-queue format (b ∷ before) behind [] file e = absurd (omega arith)
drain-queue format (b ∷ before) behind (x ∷ xs) file e =
    drain-queue format before behind xs (file ++ line_of format x) (omega arith)
    ∙ ap (λ f. (record { queue = live []; logfile = f }, false))
        (append_assoc file (line_of format x) (lines_of format xs))

session-drains :
    (l : Layouts) (format : ℕ → List ℕ) (d : ObserverData) (a : Attempt ObserverData Bool)
    (messages : List ObserverData) (file : List ℕ)
    → IsSession l d a messages
    → process_log_attempt l format d a file ≡ (returned 0, file ++ lines_of format messages)
unfolding process_log_attempt log_loop
session-drains l format d a messages file v =
    let s : LogState = record { ring = a.ring; data_read = d; logfile = file } in
    let q : Log = record { queue = live messages; logfile = file } in
    let (stands, same) =
      log_refines format d a.inputs s q
        (record { whole = v.whole; queue = v.queued; logfile = refl }) in
    let drained =
      ap (λ is. rounds (queue_log_step format) is q) v.inputs
      ∙ drain-queue format v.before v.behind messages file v.enough in
    let opens = v.opens in
    let ends = same ∙ ap (λ t. t.1) drained in
    let lines = stands.logfile ∙ ap (λ (t : Log × Bool). t.0.logfile) drained in
    rw (opens, ends) (ap (λ f. (returned 0, f)) lines)

-- The messages of the sessions, in their order.
abbrev pub all_messages : List (Attempt ObserverData Bool × List ObserverData) → List ObserverData
all_messages [] = []
all_messages ((a, messages) ∷ ss) = messages ++ all_messages ss

abbrev pub AreSessions :
    Layouts → ObserverData → List (Attempt ObserverData Bool × List ObserverData) → Type 0
AreSessions l d [] = Unit {0}
AreSessions l d ((a, messages) ∷ ss) = IsSession l d a messages × AreSessions l d ss

restart-sessions :
    (l : Layouts) (format : ℕ → List ℕ) (d : ObserverData)
    (ss : List (Attempt ObserverData Bool × List ObserverData)) (file : List ℕ)
    → AreSessions l d ss
    → restart (process_log_attempt l format d) (map (λ s. s.0) ss) file
      ≡ (runs, file ++ lines_of format (all_messages ss))
unfolding restart
restart-sessions l format d [] file v = ap (λ f. (runs, f)) (sym (append-nil file))
restart-sessions l format d ((a, messages) ∷ ss) file (v, vs) =
    restart-returned (process_log_attempt l format d) a (map (λ s. s.0) ss) file
      (session-drains l format d a messages file v)
    ∙ restart-sessions l format d ss (file ++ lines_of format messages) vs
    ∙ ap (λ f. (runs, f))
        (append_assoc file (lines_of format messages) (lines_of format (all_messages ss))
          ∙ ap (λ f. file ++ f) (sym (lines_of-append format messages (all_messages ss))))

-- Where its file could be opened and each attempt opens a memory with a valid ring of messages, as
-- many rounds before the one that finds the producer dead as there are messages, the thread of a
-- log still runs and has added to its file a line for every message of every attempt, in their
-- order: the time, the level in brackets, and the text of the message.
pub process_log_drains :
    (l : Layouts) (format : ℕ → List ℕ) (d : ObserverData)
    (ss : List (Attempt ObserverData Bool × List ObserverData)) (file : List ℕ)
    → AreSessions l d ss
    → process_log l format d true (map (λ s. s.0) ss) file
      ≡ (runs, file ++ lines_of format (all_messages ss))
unfolding process_log
process_log_drains l format d ss file v = restart-sessions l format d ss file v
