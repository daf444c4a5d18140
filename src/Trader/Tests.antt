-- ===== src/Trader/Tests.antt =====
-- Tests of the trader.
use hft_demo.Common.{ℕ, ◌*◌, ◌<◌, u64_mod, ◌≡◌, refl, arith, true, [], ◌∷◌, ◌^◌, List}
use hft_demo.Market.{Trade, empty_trade, empty_order}
use hft_demo.Book.{Row, Book, get_best, top}
use hft_demo.Flow.{Window, new_window}
use hft_demo.Ring.{Ring}
use hft_demo.Ring.Queue.{view}
use hft_demo.Trader.{Stamps, process_trade, create_order, heavy, offer, depth_levels}
use hft_demo.Trader.Orders.{IsSent, total, create_order_sound}
use hft_demo.Trader.Trades.{queue_trade, seen_trade, process_trade_refines}

abbrev one_row : ℕ → ℕ → List Row
one_row p q = record { price = p; quantity = q } ∷ []

-- More on the bid side, and more aggressive buys.
abbrev leaning_book : Book
leaning_book = record {
  bids = record { rows = one_row 99 50; count = 1 };
  asks = record { rows = one_row 101 10; count = 1 };
  last_update_id = 7;
}

abbrev buying_window : Window
buying_window = record {
  ring = [];
  head = 0;
  tail = 2;
  size = 2;
  sum_aggressive_buy = 5;
  sum_aggressive_sell = 3;
  window_us = 250_000;
}

leaning_fits :
    (11 * total (top leaning_book.bids depth_levels) < u64_mod)
    × (11 * total (top leaning_book.asks depth_levels) < u64_mod)
unfolding top
leaning_fits = (omega arith, omega arith)

leaning_sent : (create_order leaning_book buying_window empty_order empty_order).2 ≡ true
unfolding create_order get_best top heavy offer
leaning_sent = refl

create_order_sound_example :
    let o = (create_order leaning_book buying_window empty_order empty_order).1 in
    ((create_order leaning_book buying_window empty_order empty_order).0 ≡ o)
    × IsSent leaning_book buying_window empty_order o
create_order_sound_example =
    create_order_sound leaning_book buying_window empty_order empty_order leaning_fits.0
      leaning_fits.1 leaning_sent

abbrev one_trade : Ring Trade
one_trade = record {
  head = 1;
  tail = 0;
  is_active_consumer = true;
  places = empty_trade ∷ record empty_trade { quantity = 4; is_buyer_maker = true } ∷ [];
}

abbrev no_stamps : Stamps
no_stamps = record {
  feeder_read_steady_ns = 0;
  feeder_write_steady_ns = 0;
  trader_read_steady_ns = 0;
}

process_trade_refines_example :
    seen_trade
      (2 ^ 1)
      empty_trade
      (process_trade (2 ^ 1) one_trade (new_window 250_000) no_stamps empty_trade 90)
    ≡ queue_trade (view (2 ^ 1) empty_trade one_trade) (new_window 250_000) no_stamps 90
process_trade_refines_example =
    process_trade_refines 1 one_trade (new_window 250_000) no_stamps empty_trade 90 (omega arith)
      (record { whole = refl; head_in = omega arith; tail_in = omega arith })
