-- ===== src/Flow/History.antt =====
-- A whole history of trades that come in the order of their times: the volumes are those of the
-- trades in the window that ends with the last one.
use hft_demo.Common.{ℕ, ◌≤◌, ◌<◌, ◌≡◌, Bool, List, [], ◌∷◌, u64_mod, ltb, if◌then◌else◌, All}
use hft_demo.Flow.{Entry, Window, trade_entry, on_trade, cutoff}
use hft_demo.Flow.Ring.{contents}
use hft_demo.Flow.Volumes.{IsValid}

-- The arguments of one call of `OnTrade`.
pub record Tick : Type 0 where
  pub event_ts_us : ℕ
  pub is_buyer_maker : Bool
  pub quantity : ℕ

abbrev pub tick_entry : Tick → Entry
tick_entry t = trade_entry t.event_ts_us t.is_buyer_maker t.quantity

pub run : Window → List Tick → Window
run w [] = w
run w (t ∷ ts) = run (on_trade w t.event_ts_us t.is_buyer_maker t.quantity) ts

-- All entries that are no older than `min_ts_us`, wherever they stand.
pub fresh_since : ℕ → List Entry → List Entry
fresh_since min_ts_us [] = []
fresh_since min_ts_us (e ∷ es) =
    if ltb e.event_ts_us min_ts_us then fresh_since min_ts_us es else e ∷ fresh_since min_ts_us es

-- The times do not fall, from `lo` on, and the quantities are uint64_t.
abbrev pub IsFeed : ℕ → List Tick → Type 0
IsFeed lo [] = Unit {0}
IsFeed lo (t ∷ ts) = (lo ≤ t.event_ts_us) × (t.quantity < u64_mod) × IsFeed t.event_ts_us ts

abbrev pub last_ts : ℕ → List Tick → ℕ
last_ts lo [] = lo
last_ts lo (t ∷ ts) = last_ts t.event_ts_us ts

abbrev IsRising : ℕ → List Entry → Type 0
IsRising lo [] = Unit {0}
IsRising lo (e ∷ es) = (lo ≤ e.event_ts_us) × IsRising e.event_ts_us es

-- The window against all the trades so far, the last at `last`.
record Covers (window_us last : ℕ) (past : List Entry) (w : Window) : Type 0 where
  valid : IsValid w
  same_window : w.window_us ≡ window_us
  held : contents w ≡ fresh_since (cutoff window_us last) past
  rising : IsRising 0 past
  upto : All (λ x. x.event_ts_us ≤ last) past
