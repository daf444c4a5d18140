-- ===== src/Flow.antt =====
-- lib/trade_flow_window.hpp and lib/trade_flow_window.cpp: the trades of the last `window_us`
-- microseconds in a ring of fixed capacity, with the two volumes kept as running sums.
pub mod Ring
pub mod Volumes
pub mod Step
pub mod History
mod Tests
use hft_demo.Common.{
  ℕ, zero, suc, ◌-◌, ◌%◌, Bool, ◌&&◌, List, ltb, ◌==◌, if◌then◌else◌, get_or, set, replicate, add32,
  sub32, add64, sub64,
}

-- `TradeFlowWindow::Entry`
pub record Entry : Type 0 where
  pub event_ts_us : ℕ
  pub aggressive_buy_qty : ℕ
  pub aggressive_sell_qty : ℕ

-- `kCapacity` and `kDefaultWindowUs`
abbrev pub capacity : ℕ
capacity = 2048

abbrev pub default_window_us : ℕ
default_window_us = 250_000

-- `TradeFlowWindow`
pub record Window : Type 0 where
  pub ring : List Entry
  pub head : ℕ
  pub tail : ℕ
  pub size : ℕ
  pub sum_aggressive_buy : ℕ
  pub sum_aggressive_sell : ℕ
  pub window_us : ℕ

abbrev pub empty_entry : Entry
empty_entry = record { event_ts_us = 0; aggressive_buy_qty = 0; aggressive_sell_qty = 0 }

abbrev pub entry_at : List Entry → ℕ → Entry
entry_at ring i = get_or ring i empty_entry

-- The constructor.
unfoldable pub new_window : ℕ → Window
new_window window_us = record {
  ring = replicate capacity empty_entry;
  head = 0;
  tail = 0;
  size = 0;
  sum_aggressive_buy = 0;
  sum_aggressive_sell = 0;
  window_us = window_us;
}

-- `PopOldest`
unfoldable pub pop_oldest : Window → Window
pop_oldest w =
    let oldest = entry_at w.ring w.head in
    record w {
      sum_aggressive_buy = sub64 w.sum_aggressive_buy oldest.aggressive_buy_qty;
      sum_aggressive_sell = sub64 w.sum_aggressive_sell oldest.aggressive_sell_qty;
      head = add32 w.head 1 % capacity;
      size = sub32 w.size 1;
    }

-- The loop of `EvictOlderThan`, with `fuel` rounds at most.
unfoldable pub evict : ℕ → Window → ℕ → Window
evict zero w min_ts_us = w
evict (suc fuel) w min_ts_us =
    if ltb 0 w.size && ltb (entry_at w.ring w.head).event_ts_us min_ts_us
    then evict fuel (pop_oldest w) min_ts_us
    else w

-- `EvictOlderThan`. Each round takes one entry, so as many rounds as entries are enough.
unfoldable pub evict_older_than : Window → ℕ → Window
evict_older_than w min_ts_us = evict w.size w min_ts_us

-- The `cutoff` of `OnTrade`.
abbrev pub cutoff : ℕ → ℕ → ℕ
cutoff window_us event_ts_us = if ltb window_us event_ts_us then event_ts_us - window_us else 0

abbrev pub trade_entry : ℕ → Bool → ℕ → Entry
trade_entry event_ts_us is_buyer_maker quantity = record {
  event_ts_us = event_ts_us;
  aggressive_buy_qty = if is_buyer_maker then 0 else quantity;
  aggressive_sell_qty = if is_buyer_maker then quantity else 0;
}

-- `OnTrade` behind the eviction.
unfoldable pub append : Window → Entry → Window
append w e = record w {
  ring = set w.ring w.tail e;
  tail = add32 w.tail 1 % capacity;
  size = add32 w.size 1;
  sum_aggressive_buy = add64 w.sum_aggressive_buy e.aggressive_buy_qty;
  sum_aggressive_sell = add64 w.sum_aggressive_sell e.aggressive_sell_qty;
}

unfoldable pub make_room : Window → Window
make_room w = if w.size == capacity then pop_oldest w else w

-- `OnTrade`
unfoldable pub on_trade : Window → ℕ → Bool → ℕ → Window
on_trade w event_ts_us is_buyer_maker quantity =
    append (make_room (evict_older_than w (cutoff w.window_us event_ts_us)))
      (trade_entry event_ts_us is_buyer_maker quantity)

-- `AggressiveBuyVolume`
abbrev pub aggressive_buy_volume : Window → ℕ
aggressive_buy_volume w = w.sum_aggressive_buy

-- `AggressiveSellVolume`
abbrev pub aggressive_sell_volume : Window → ℕ
aggressive_sell_volume w = w.sum_aggressive_sell
