-- ===== src/Parser/Depth/Invariant.antt =====
-- The bounds of the handler's state, kept by every event: nesting, the row buffer, and the counts of
-- levels, so that no write leaves its array.
use hft_demo.Common.{ℕ, ◌≤◌, ◌≡◌, List, [], ◌∷◌, Option, some, arith, length, length-set}
use hft_demo.Market.{price_shift, quantity_shift}
use hft_demo.Parser.Decimal.{parse_fixed_decimal_string}
use hft_demo.Parser.Events.{
  Event, null, bool, int, uint, int64, uint64, double, string, start_object, key, end_object,
  start_array, end_array, feed,
}
use hft_demo.Parser.Depth.{
  DepthSax, DepthPending, max_depth_levels_per_side, row0_cap, push_level, close_row, row_string,
  field_string, on_string, field_number, number, on_int64, on_uint64, on_start_object, on_key,
  on_end_object, start_side, on_start_array, on_end_array, handle,
}

pub record IsValid (h : DepthSax) : Type 0 where
  pub objects : h.object_depth ≤ 1
  pub arrays : h.array_depth ≤ 2
  pub row_index : h.row_string_idx ≤ 1
  pub row_buffer : length h.row0 ≤ row0_cap
  pub bids_in : h.bid_n ≤ max_depth_levels_per_side
  pub asks_in : h.ask_n ≤ max_depth_levels_per_side
  pub bid_prices_whole : length h.bid_prices ≡ max_depth_levels_per_side
  pub bid_qtys_whole : length h.bid_qtys ≡ max_depth_levels_per_side
  pub ask_prices_whole : length h.ask_prices ≡ max_depth_levels_per_side
  pub ask_qtys_whole : length h.ask_qtys ≡ max_depth_levels_per_side

push_level-IsValid : {h : DepthSax} (price qty : ℕ) → IsValid h → IsValid (push_level h price qty).0
unfolding push_level
push_level-IsValid {h} price qty v = ground (
  arith,
  length-set h.bid_prices h.bid_n price,
  length-set h.bid_qtys h.bid_n qty,
  length-set h.ask_prices h.ask_n price,
  length-set h.ask_qtys h.ask_n qty,
)

close_row-IsValid : {h : DepthSax} (p q : Option ℕ) → IsValid h → IsValid (close_row h p q).0
unfolding close_row
close_row-IsValid (some price) (some qty) v = push_level-IsValid price qty v
close_row-IsValid (some price) Option.none v = ground arith
close_row-IsValid Option.none q v = ground arith

row_string-IsValid : {h : DepthSax} (s : List ℕ) → IsValid h → IsValid (row_string h s).0
unfolding row_string
row_string-IsValid {h} s v = ground (
  arith,
  close_row-IsValid (parse_fixed_decimal_string h.row0 price_shift)
      (parse_fixed_decimal_string s quantity_shift) v,
)

field_string-IsValid :
    (p : DepthPending) {h : DepthSax} (s : List ℕ) → IsValid h → IsValid (field_string p h s).0
unfolding field_string
field_string-IsValid DepthPending.event_type {h} s v = ground arith
field_string-IsValid _ {h} s v = ground arith

field_number-IsValid :
    (p : DepthPending) {h : DepthSax} (n : ℕ) → IsValid h → IsValid (field_number p h n).0
unfolding field_number
field_number-IsValid DepthPending.event_time {h} n v = ground arith
field_number-IsValid _ {h} n v = ground arith

start_side-IsValid :
    (p : DepthPending) {h : DepthSax} → IsValid h → h.array_depth ≡ 0 → IsValid (start_side p h).0
unfolding start_side
start_side-IsValid DepthPending.bids v e = ground arith
start_side-IsValid _ v e = ground arith

-- Every event keeps the handler within its bounds, also an event that it refuses.
pub handle-IsValid : {h : DepthSax} (e : Event) → IsValid h → IsValid (handle h e).0
unfolding handle on_int64 on_uint64 number on_string on_start_object on_key on_end_object
    on_start_array on_end_array
handle-IsValid null v = v
handle-IsValid (bool b) v = v
handle-IsValid {h} (int i) v = field_number-IsValid h.pending _ v
handle-IsValid {h} (uint u) v = field_number-IsValid h.pending _ v
handle-IsValid {h} (int64 i) v = field_number-IsValid h.pending _ v
handle-IsValid {h} (uint64 u) v = field_number-IsValid h.pending _ v
handle-IsValid double v = v
handle-IsValid {h} (string s) v =
    ground (arith, row_string-IsValid s v, field_string-IsValid h.pending s v)
handle-IsValid start_object v = ground arith
handle-IsValid (key s) v = ground arith
handle-IsValid (end_object n) v = ground arith
handle-IsValid {h} start_array v = ground (arith, start_side-IsValid h.pending v)
handle-IsValid (end_array n) v = ground arith

-- Any sequence of events keeps a valid handler within its bounds.
pub feed-IsValid : (h : DepthSax) (es : List Event) → IsValid h → IsValid (feed handle h es).0
unfolding feed
feed-IsValid h [] v = v
feed-IsValid h (e ∷ es) v =
    ground (arith, handle-IsValid e v, feed-IsValid (handle h e).0 es (handle-IsValid e v))
