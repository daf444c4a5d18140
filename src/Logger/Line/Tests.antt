-- ===== src/Logger/Line/Tests.antt =====
-- Tests of the logger.
use hft_demo.Common.{◌≡◌, refl, List, [], ◌∷◌, length, replicate}
use hft_demo.Common.Bytes.{codes}
use hft_demo.Common.Int.{pos}
use hft_demo.Market.{ObserverData, info, message_size, observer_length}
use hft_demo.Ring.{new_ring, write}
use hft_demo.Logger.{get_formatter, put_endl}
use hft_demo.Logger.Line.{Piece, literal, text, integer, puts, c_str, join, log_line_lem}

abbrev blank : ObserverData
blank = record { timestamp_ns = 0; level = info; message = replicate message_size 0 }

abbrev order_pieces : List Piece
order_pieces = literal (codes "qty=") ∷ integer (pos 10) [] ∷ text (codes " BUY") ∷ []

order_line : join [] order_pieces ≡ codes "qty=10 BUY"
order_line = refl

log_line_lem_example :
    (o : ObserverData) × ((put_endl
        (puts (get_formatter (replicate message_size 7) 5 info) order_pieces)
        (new_ring observer_length blank)).1
      ≡ write observer_length (new_ring observer_length blank) o)
    × (o.timestamp_ns ≡ 5)
    × (o.level ≡ info)
    × (length o.message ≡ message_size)
    × (c_str o.message ≡ c_str (join [] order_pieces))
log_line_lem_example =
    log_line_lem (replicate message_size 7) 5 info order_pieces (new_ring observer_length blank)
      refl
