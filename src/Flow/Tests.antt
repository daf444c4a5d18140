-- ===== src/Flow/Tests.antt =====
-- Tests of the trade flow window.
use hft_demo.Common.{◌≡◌, arith, true, false, List, [], ◌∷◌, ◌++◌}
use hft_demo.Flow.{new_window, on_trade, cutoff, trade_entry}
use hft_demo.Flow.Ring.{contents}
use hft_demo.Flow.Volumes.{IsValid, new_window-IsValid}
use hft_demo.Flow.Step.{drop_old, with_room, on_trade_lem}
use hft_demo.Flow.History.{Tick}

abbrev three_ticks : List Tick
three_ticks =
    record { event_ts_us = 1_000; is_buyer_maker = false; quantity = 7 }
    ∷ record { event_ts_us = 200_000; is_buyer_maker = true; quantity = 5 }
    ∷ record { event_ts_us = 260_000; is_buyer_maker = false; quantity = 3 }
    ∷ []

on_trade_lem_example :
    let w = new_window 250_000 in
    let w' = on_trade w 300_000 true 9 in
    IsValid w'
    × (contents w'
        ≡ with_room (drop_old (cutoff w.window_us 300_000) (contents w))
          ++ trade_entry 300_000 true 9 ∷ [])
    × (w'.window_us ≡ w.window_us)
on_trade_lem_example = on_trade_lem 300_000 true 9 (new_window-IsValid 250_000) (omega arith)
