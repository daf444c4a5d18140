-- ===== src/System/Log.antt =====
-- A line of a log, from the `<<` of a process on its hot path to the text in the observer's file.
mod Tests
use hft_demo.Common.{
  ℕ, zero, suc, ◌+◌, ◌<◌, ◌≡◌, refl, ap, sym, ◌∙◌, subst, Bool, true, false, List, [], ◌∷◌, ◌++◌,
  append-nil, append_assoc, arith, ◌==◌, if◌then◌else◌, length, length-append,
}
use hft_demo.Common.Rounds.{rounds}
use hft_demo.Market.{LogLevel, ObserverData, message_size, observer_length}
use hft_demo.Ring.{Ring, write}
use hft_demo.Ring.Queue.{live, queue_write, view, IsValid, write_refines, write-IsValid}
use hft_demo.Logger.{get_formatter, put_endl}
use hft_demo.Logger.Line.{Piece, puts, join, c_str, log_line_lem}
use hft_demo.Logger.File.{line, line_of, lines_of, lines_of-append}
use hft_demo.Observer.{LogState, log_step}
use hft_demo.Observer.Logs.{Log, queue_log_step, StandsFor, log_refines}

-- A round for each message of the queue.
rounds-queue :
    (format : ℕ → List ℕ) (alive : List Bool) (xs : List ObserverData) (file : List ℕ)
    → length alive ≡ length xs
    → rounds (queue_log_step format) alive (record { queue = live xs; logfile = file })
      ≡ (record { queue = live []; logfile = file ++ lines_of format xs }, true)
rounds-queue format [] [] file e =
    ap (λ f. (record { queue = live []; logfile = f }, true)) (sym (append-nil file))
rounds-queue format [] (x ∷ xs) file e = absurd (omega arith)
rounds-queue format (b ∷ alive) [] file e = absurd (omega arith)
rounds-queue format (b ∷ alive) (x ∷ xs) file e =
    rounds-queue format alive xs (file ++ line_of format x) (omega arith)
    ∙ ap (λ f. (record { queue = live []; logfile = f }, true))
        (append_assoc file (line_of format x) (lines_of format xs))

-- Where a process with `message_size` bytes of storage puts pieces and `Endl` on a valid ring with
-- room for another message, the observer's loop, in as many rounds as there are then messages,
-- empties the queue and adds to its file a line for each message that was queued before and then one
-- with the time, the level in brackets and the text of the pieces joined.
pub log_line_observed :
    (format : ℕ → List ℕ) (storage : List ℕ) (now : ℕ) (level : LogLevel) (ps : List Piece)
    (ring : Ring ObserverData) (d data_read : ObserverData) (xs : List ObserverData)
    (alive : List Bool) (file : List ℕ)
    → length storage ≡ message_size
    → IsValid observer_length ring
    → view observer_length d ring ≡ live xs
    → length xs + 1 < observer_length
    → length alive ≡ length xs + 1
    → let ring' = (put_endl (puts (get_formatter storage now level) ps) ring).1 in
      let (s, on) =
        rounds
          (log_step format)
          alive
          (record { ring = ring'; data_read = data_read; logfile = file }) in
      (on ≡ true)
      × (view observer_length d s.ring ≡ live [])
      × (s.logfile ≡ file ++ (lines_of format xs ++ line format now level (c_str (join [] ps))))
log_line_observed format storage now level ps ring d data_read xs alive file whole v queued room
      enough =
    let (o, written, time, level', size, same) = log_line_lem storage now level ps ring whole in
    let ring' = (put_endl (puts (get_formatter storage now level) ps) ring).1 in
    let free : (length xs + 1 == observer_length) ≡ false = ground (arith, room) in
    let queued' : view observer_length d (write observer_length ring o) ≡ live (xs ++ o ∷ []) =
      write_refines 10 (omega arith) d ring o v
      ∙ ap (λ q. queue_write observer_length q o) queued
      ∙ rw (free) refl in
    let s : LogState = record { ring = ring'; data_read = data_read; logfile = file } in
    let q : Log = record { queue = live (xs ++ o ∷ []); logfile = file } in
    let stands : StandsFor d s q = record {
      whole =
          subst (IsValid observer_length) (sym written) (write-IsValid 10 (omega arith) ring o v);
      queue = ap (view observer_length d) written ∙ queued';
      logfile = refl;
    } in
    let (after, on) = log_refines format d alive s q stands in
    let drained =
      rounds-queue format alive (xs ++ o ∷ []) file
        (omega (arith, enough, length-append xs (o ∷ []))) in
    let last : line_of format o ≡ line format now level (c_str (join [] ps)) =
      rw (time, level', same) refl in
    (
      on ∙ ap (λ t. t.1) drained,
      after.queue ∙ ap (λ (t : Log × Bool). t.0.queue) drained,
      after.logfile
          ∙ ap (λ (t : Log × Bool). t.0.logfile) drained
          ∙ ap (λ lines. file ++ lines)
              (lines_of-append format xs (o ∷ [])
                ∙ ap (λ l. lines_of format xs ++ l) (append-nil (line_of format o) ∙ last)),
    )
