-- ===== src/Parser/Depth.antt =====
-- DepthSaxHandler of lib/binance/parser.cpp: from the events of a depth update to its levels.
pub mod Invariant
pub mod Release
pub mod Rows
pub mod Pushes
pub mod Document
use hft_demo.Common.{
  ℕ, zero, suc, ◌+◌, ◌-◌, Bool, true, false, ◌&&◌, ◌||◌, not, List, [], ◌∷◌, ◌++◌, Option, some,
  ltb, leb, ◌==◌, if◌then◌else◌, length, get_or, set, replicate,
}
use hft_demo.Common.Int.{ℤ, to_i64, to_u64}
use hft_demo.Common.Bytes.{codes, bytes_eq}
use hft_demo.Market.{
  Symbol, unknown, OrderBookUpdate, empty_update, bid, ask, BookSide, price_shift, quantity_shift,
}
use hft_demo.Parser.Fields.{symbol_from_string, get_uint64_from_mixed, event_time_to_microseconds}
use hft_demo.Parser.Decimal.{parse_fixed_decimal_string}
use hft_demo.Parser.Events.{
  Event, null, bool, int, uint, int64, uint64, double, string, start_object, key, end_object,
  start_array, end_array,
}

-- `kMaxDepthLevelsPerSide`
abbrev pub max_depth_levels_per_side : ℕ
max_depth_levels_per_side = 5000

-- `kRow0Cap`
abbrev pub row0_cap : ℕ
row0_cap = 95

-- `DepthPending`
pub data DepthPending : Type 0 where
  none event_type event_time symbol first_update_id last_update_id bids asks : DepthPending

-- The members of `DepthSaxHandler`. `row0` is the first `row0_len_` bytes of `row0_storage_`.
pub record DepthSax : Type 0 where
  pub object_depth : ℕ
  pub array_depth : ℕ
  pub pending : DepthPending
  pub valid_event_type : Bool
  pub event_timestamp_microseconds : ℕ
  pub first_update_id : ℕ
  pub last_update_id : ℕ
  pub symbol : Symbol
  pub current_side_is_bid : Bool
  pub stop_side_levels : Bool
  pub row_string_idx : ℕ
  pub row0 : List ℕ
  pub bid_n : ℕ
  pub ask_n : ℕ
  pub bid_prices : List ℕ
  pub bid_qtys : List ℕ
  pub ask_prices : List ℕ
  pub ask_qtys : List ℕ

-- `Reset`; the arrays keep what they hold.
abbrev pub reset : DepthSax → DepthSax
reset h = record h {
  object_depth = 0;
  array_depth = 0;
  pending = DepthPending.none;
  valid_event_type = false;
  event_timestamp_microseconds = 0;
  first_update_id = 0;
  last_update_id = 0;
  symbol = unknown;
  current_side_is_bid = false;
  stop_side_levels = false;
  row_string_idx = 0;
  row0 = [];
  bid_n = 0;
  ask_n = 0;
}

-- A level behind the last one of the current side, unless the side has all its places in use.
unfoldable pub push_level : DepthSax → ℕ → ℕ → DepthSax × Bool
push_level h price qty =
    if h.current_side_is_bid
    then (if leb max_depth_levels_per_side h.bid_n then (h, false) else (
      record h {
        bid_prices = set h.bid_prices h.bid_n price;
        bid_qtys = set h.bid_qtys h.bid_n qty;
        bid_n = h.bid_n + 1;
        row_string_idx = 0;
      },
      true,
    ))
    else if leb max_depth_levels_per_side h.ask_n
    then (h, false)
    else (
      record h {
        ask_prices = set h.ask_prices h.ask_n price;
        ask_qtys = set h.ask_qtys h.ask_n qty;
        ask_n = h.ask_n + 1;
        row_string_idx = 0;
      },
      true,
    )

-- The second string of a row, with what the two parses of the row returned.
unfoldable pub close_row : DepthSax → Option ℕ → Option ℕ → DepthSax × Bool
close_row h (some price) (some qty) = push_level h price qty
close_row h (some price) Option.none =
    (record h { stop_side_levels = true; row_string_idx = 0 }, true)
close_row h Option.none qty = (record h { stop_side_levels = true; row_string_idx = 0 }, true)

-- `String` inside a row.
unfoldable pub row_string : DepthSax → List ℕ → DepthSax × Bool
row_string h s =
    if h.stop_side_levels
    then (h, true)
    else if h.row_string_idx == 0
    then (if ltb row0_cap (length s)
        then (record h { stop_side_levels = true }, true)
        else (record h { row0 = s; row_string_idx = 1 }, true))
    else if h.row_string_idx == 1
    then close_row h (parse_fixed_decimal_string h.row0 price_shift)
        (parse_fixed_decimal_string s quantity_shift)
    else (h, false)

-- `String` outside a row, by what is pending.
unfoldable pub field_string : DepthPending → DepthSax → List ℕ → DepthSax × Bool
field_string DepthPending.event_type h s =
    if bytes_eq s (codes "depthUpdate")
    then (record h { pending = DepthPending.none; valid_event_type = true }, true)
    else (record h { pending = DepthPending.none }, false)
field_string DepthPending.symbol h s =
    (record h { pending = DepthPending.none; symbol = symbol_from_string (some s) }, true)
field_string _ h s = (record h { pending = DepthPending.none }, true)

-- `String`
unfoldable pub on_string : DepthSax → List ℕ → DepthSax × Bool
on_string h s = if h.array_depth == 2 then row_string h s else field_string h.pending h s

-- `Number`, by what is pending.
unfoldable pub field_number : DepthPending → DepthSax → ℕ → DepthSax × Bool
field_number DepthPending.event_time h v = (
  record h {
    pending = DepthPending.none;
    event_timestamp_microseconds = event_time_to_microseconds v;
  },
  true,
)
field_number DepthPending.first_update_id h v =
    (record h { pending = DepthPending.none; first_update_id = v }, true)
field_number DepthPending.last_update_id h v =
    (record h { pending = DepthPending.none; last_update_id = v }, true)
field_number _ h v = (record h { pending = DepthPending.none }, true)

-- `Number`
unfoldable pub number : DepthSax → ℤ → ℕ → Bool → DepthSax × Bool
number h i u is_int = field_number h.pending h (get_uint64_from_mixed i u is_int)

-- `Int64` and `Uint64`, which `Int` and `Uint` call.
unfoldable pub on_int64 : DepthSax → ℤ → DepthSax × Bool
on_int64 h i = number h i (to_u64 i) true

unfoldable pub on_uint64 : DepthSax → ℕ → DepthSax × Bool
on_uint64 h u = number h (to_i64 u) u false

-- `StartObject`
unfoldable pub on_start_object : DepthSax → DepthSax × Bool
on_start_object h =
    if ltb 0 h.object_depth
    then (h, false)
    else (record h { object_depth = h.object_depth + 1 }, true)

-- The pending field that a key announces.
unfoldable pub pending_of_key : List ℕ → DepthPending
pending_of_key s =
    if bytes_eq s (b'e' ∷ [])
    then DepthPending.event_type
    else if bytes_eq s (b'E' ∷ [])
    then DepthPending.event_time
    else if bytes_eq s (b's' ∷ [])
    then DepthPending.symbol
    else if bytes_eq s (b'U' ∷ [])
    then DepthPending.first_update_id
    else if bytes_eq s (b'u' ∷ [])
    then DepthPending.last_update_id
    else if bytes_eq s (b'b' ∷ [])
    then DepthPending.bids
    else if bytes_eq s (b'a' ∷ [])
    then DepthPending.asks
    else DepthPending.none

-- `Key`
unfoldable pub on_key : DepthSax → List ℕ → DepthSax × Bool
on_key h s =
    if not (h.object_depth == 1) || not (h.array_depth == 0)
    then (h, false)
    else (record h { pending = pending_of_key s }, true)

-- `EndObject`
unfoldable pub on_end_object : DepthSax → DepthSax × Bool
on_end_object h =
    if not (h.object_depth == 1)
    then (h, false)
    else (record h { object_depth = h.object_depth - 1 }, h.valid_event_type)

-- `StartArray` outside any array, by what is pending.
unfoldable pub start_side : DepthPending → DepthSax → DepthSax × Bool
start_side DepthPending.bids h = (
  record h {
    pending = DepthPending.none;
    current_side_is_bid = true;
    stop_side_levels = false;
    array_depth = h.array_depth + 1;
  },
  true,
)
start_side DepthPending.asks h = (
  record h {
    pending = DepthPending.none;
    current_side_is_bid = false;
    stop_side_levels = false;
    array_depth = h.array_depth + 1;
  },
  true,
)
start_side _ h = (h, false)

-- `StartArray`
unfoldable pub on_start_array : DepthSax → DepthSax × Bool
on_start_array h =
    if h.array_depth == 0
    then start_side h.pending h
    else if h.array_depth == 1
    then (record h { array_depth = h.array_depth + 1; row_string_idx = 0 }, true)
    else (h, false)

-- `EndArray`
unfoldable pub on_end_array : DepthSax → DepthSax × Bool
on_end_array h =
    if h.array_depth == 2
    then (
      record h {
        stop_side_levels = if not (h.row_string_idx == 0) then true else h.stop_side_levels;
        row_string_idx = 0;
        array_depth = h.array_depth - 1;
      },
      true,
    )
    else if h.array_depth == 1
    then (record h { array_depth = h.array_depth - 1 }, true)
    else (h, false)

-- The handler's method for an event.
unfoldable pub handle : DepthSax → Event → DepthSax × Bool
handle h null = (h, false)
handle h (bool b) = (h, false)
handle h (int i) = on_int64 h i
handle h (uint u) = on_uint64 h u
handle h (int64 i) = on_int64 h i
handle h (uint64 u) = on_uint64 h u
handle h double = (h, false)
handle h (string s) = on_string h s
handle h start_object = on_start_object h
handle h (key s) = on_key h s
handle h (end_object n) = on_end_object h
handle h start_array = on_start_array h
handle h (end_array n) = on_end_array h

-- The updates that the first loop of `Release` passes on, from index `i` on, `n` of them.
unfoldable pub release_bids : DepthSax → (i n : ℕ) → List OrderBookUpdate
release_bids h i zero = []
release_bids h i (suc n) =
    record empty_update {
      event_timestamp_microseconds = h.event_timestamp_microseconds;
      first_update_id = h.first_update_id;
      last_update_id = h.last_update_id;
      symbol = h.symbol;
      side = bid;
      price = get_or h.bid_prices i 0;
      quantity = get_or h.bid_qtys i 0;
      has_more = ltb 0 h.ask_n || ltb i (h.bid_n - 1);
    }
    ∷ release_bids h (i + 1) n

-- The second loop of `Release`.
unfoldable pub release_asks : DepthSax → (i n : ℕ) → List OrderBookUpdate
release_asks h i zero = []
release_asks h i (suc n) =
    record empty_update {
      event_timestamp_microseconds = h.event_timestamp_microseconds;
      first_update_id = h.first_update_id;
      last_update_id = h.last_update_id;
      symbol = h.symbol;
      side = ask;
      price = get_or h.ask_prices i 0;
      quantity = get_or h.ask_qtys i 0;
      has_more = ltb i (h.ask_n - 1);
    }
    ∷ release_asks h (i + 1) n

-- `Release`: the updates that the callback is called with, in order. Each loop runs only where its
-- count is positive, so `bid_n_ - 1` and `ask_n_ - 1` do not wrap.
unfoldable pub release : DepthSax → List OrderBookUpdate
release h = release_bids h 0 h.bid_n ++ release_asks h 0 h.ask_n
