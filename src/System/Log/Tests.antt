-- ===== src/System/Log/Tests.antt =====
-- A test of a line of a log.
use hft_demo.Common.{◌≡◌, refl, arith, true, List, [], ◌∷◌, replicate, ℕ}
use hft_demo.Common.Bytes.{codes}
use hft_demo.Common.Int.{pos}
use hft_demo.Common.Rounds.{rounds}
use hft_demo.Market.{ObserverData, info, message_size, observer_length}
use hft_demo.Ring.{Ring, new_ring}
use hft_demo.Ring.Queue.{view, live, new_ring-IsValid, new_ring_refines}
use hft_demo.Logger.{get_formatter, put_endl}
use hft_demo.Logger.Line.{Piece, literal, text, integer, puts, join, c_str}
use hft_demo.Logger.File.{line}
use hft_demo.Observer.{LogState, log_step}
use hft_demo.System.Log.{log_line_observed}

abbrev blank : ObserverData
blank = record { timestamp_ns = 0; level = info; message = replicate message_size 0 }

abbrev order_pieces : List Piece
order_pieces = literal (codes "qty=") ∷ integer (pos 10) [] ∷ text (codes " BUY") ∷ []

abbrev noon : ℕ → List ℕ
noon time = codes "2026-01-01 12:00:00"

abbrev new_log : Ring ObserverData
new_log = new_ring observer_length blank

abbrev logged : LogState
logged = record {
  ring = (put_endl (puts (get_formatter (replicate message_size 7) 5 info) order_pieces) new_log).1;
  data_read = blank;
  logfile = [];
}

log_line_observed_example :
    ((rounds (log_step noon) (true ∷ []) logged).1 ≡ true)
    × (view observer_length blank (rounds (log_step noon) (true ∷ []) logged).0.ring ≡ live [])
    × ((rounds (log_step noon) (true ∷ []) logged).0.logfile
        ≡ line noon 5 info (c_str (join [] order_pieces)))
log_line_observed_example =
    log_line_observed noon (replicate message_size 7) 5 info order_pieces new_log blank blank []
      (true ∷ []) [] refl (new_ring-IsValid 10 (omega arith) blank)
      (new_ring_refines 10 (omega arith) blank blank) (omega arith) refl
