-- ===== src/Parser/Snapshot.antt =====
-- SnapshotSaxHandler of lib/binance/parser.cpp: from the events of a REST snapshot to an
-- OrderBookSnapshot.
pub mod Bounds
pub mod Document
pub mod Pushes
pub mod Rows
use hft_demo.Common.{
  ℕ, ◌+◌, ◌-◌, Bool, true, false, ◌&&◌, ◌||◌, not, List, [], ◌∷◌, Option, none, some, ltb, leb,
  ◌==◌, if◌then◌else◌, length, set,
}
use hft_demo.Common.Int.{ℤ, to_i64, to_u64}
use hft_demo.Common.Bytes.{codes, bytes_eq}
use hft_demo.Market.{
  OrderBookSnapshot, empty_snapshot, order_book_depth, price_shift, quantity_shift,
}
use hft_demo.Parser.Fields.{get_uint64_from_mixed}
use hft_demo.Parser.Decimal.{parse_fixed_decimal_string}
use hft_demo.Parser.Events.{
  Event, null, bool, int, uint, int64, uint64, double, string, start_object, key, end_object,
  start_array, end_array,
}

-- `kRow0Cap`
abbrev pub row0_cap : ℕ
row0_cap = 95

-- The members of `SnapshotSaxHandler`. `row0` is the first `row0_len_` bytes of `row0_storage_`.
pub record SnapshotSax : Type 0 where
  pub object_depth : ℕ
  pub array_depth : ℕ
  pub pending_snapshot : ℕ
  pub in_bids : Bool
  pub in_asks : Bool
  pub bids_side_done : Bool
  pub asks_side_done : Bool
  pub row_string_idx : ℕ
  pub row0 : List ℕ
  pub out : OrderBookSnapshot

-- `Reset`
abbrev pub reset : SnapshotSax → SnapshotSax
reset h = record {
  object_depth = 0;
  array_depth = 0;
  pending_snapshot = 0;
  in_bids = false;
  in_asks = false;
  bids_side_done = false;
  asks_side_done = false;
  row_string_idx = 0;
  row0 = [];
  out = empty_snapshot;
}

-- `Release`: what a callback is called with; an empty std::function, which the processes never pass, is
-- not called.
abbrev pub release : SnapshotSax → OrderBookSnapshot
release h = h.out

-- The rest of a side is dropped.
unfoldable pub end_side : SnapshotSax → SnapshotSax
end_side h =
    if h.in_bids
    then record h { bids_side_done = true; row_string_idx = 0 }
    else record h { asks_side_done = true; row_string_idx = 0 }

-- A level behind the last one of the current side.
unfoldable pub push_level : SnapshotSax → ℕ → ℕ → SnapshotSax
push_level h price qty =
    if h.in_bids
    then (record h {
      out = record (h.out) {
        bids_prices = set h.out.bids_prices h.out.bids_depth price;
        bids_quantities = set h.out.bids_quantities h.out.bids_depth qty;
        bids_depth = h.out.bids_depth + 1;
      };
      row_string_idx = 0;
    })
    else record h {
      out = record (h.out) {
        asks_prices = set h.out.asks_prices h.out.asks_depth price;
        asks_quantities = set h.out.asks_quantities h.out.asks_depth qty;
        asks_depth = h.out.asks_depth + 1;
      };
      row_string_idx = 0;
    }

-- The second string of a row, with what the two parses of the row returned.
unfoldable pub close_row : SnapshotSax → Option ℕ → Option ℕ → SnapshotSax × Bool
close_row h (some price) (some qty) = (push_level h price qty, true)
close_row h (some price) none = (end_side h, true)
close_row h none qty = (end_side h, true)

-- Whether the strings of the current side are passed over, or are a fault.
unfoldable pub skips : SnapshotSax → Option Bool
skips h =
    if h.in_bids && h.bids_side_done
    then some true
    else if h.in_asks && h.asks_side_done
    then some true
    else if h.in_bids
    then some (leb order_book_depth h.out.bids_depth)
    else if h.in_asks
    then some (leb order_book_depth h.out.asks_depth)
    else none

-- A string of a row that is not passed over.
unfoldable pub row_text : SnapshotSax → List ℕ → SnapshotSax × Bool
row_text h s =
    if h.row_string_idx == 0
    then (if ltb row0_cap (length s)
        then (end_side h, true)
        else (record h { row0 = s; row_string_idx = 1 }, true))
    else if h.row_string_idx == 1
    then close_row h (parse_fixed_decimal_string h.row0 price_shift)
        (parse_fixed_decimal_string s quantity_shift)
    else (h, false)

-- `String` inside a row, with what `skips` says.
unfoldable pub row_string : Option Bool → SnapshotSax → List ℕ → SnapshotSax × Bool
row_string none h s = (h, false)
row_string (some true) h s = (h, true)
row_string (some false) h s = row_text h s

-- `String`
unfoldable pub on_string : SnapshotSax → List ℕ → SnapshotSax × Bool
on_string h s =
    if h.array_depth == 2
    then row_string (skips h) h s
    else (record h { pending_snapshot = 0 }, true)

-- `Number`
unfoldable pub number : SnapshotSax → ℤ → ℕ → Bool → SnapshotSax × Bool
number h i u is_int =
    if h.pending_snapshot == 1
    then (
      record h {
        pending_snapshot = 0;
        out = record (h.out) { last_update_id = get_uint64_from_mixed i u is_int };
      },
      true,
    )
    else (record h { pending_snapshot = 0 }, true)

-- `Int64` and `Uint64`, which `Int` and `Uint` call.
unfoldable pub on_int64 : SnapshotSax → ℤ → SnapshotSax × Bool
on_int64 h i = number h i (to_u64 i) true

unfoldable pub on_uint64 : SnapshotSax → ℕ → SnapshotSax × Bool
on_uint64 h u = number h (to_i64 u) u false

-- `StartObject`
unfoldable pub on_start_object : SnapshotSax → SnapshotSax × Bool
on_start_object h =
    if ltb 0 h.object_depth
    then (h, false)
    else (record h { object_depth = h.object_depth + 1 }, true)

-- The number of the field that a key announces.
unfoldable pub pending_of_key : List ℕ → ℕ
pending_of_key s =
    if bytes_eq s (codes "lastUpdateId")
    then 1
    else if bytes_eq s (codes "bids")
    then 2
    else if bytes_eq s (codes "asks")
    then 3
    else 0

-- `Key`
unfoldable pub on_key : SnapshotSax → List ℕ → SnapshotSax × Bool
on_key h s =
    if not (h.object_depth == 1) || not (h.array_depth == 0)
    then (h, false)
    else (record h { pending_snapshot = pending_of_key s }, true)

-- `EndObject`
unfoldable pub on_end_object : SnapshotSax → SnapshotSax × Bool
on_end_object h =
    if not (h.object_depth == 1)
    then (h, false)
    else (record h { object_depth = h.object_depth - 1 }, h.array_depth == 0)

-- `StartArray`
unfoldable pub on_start_array : SnapshotSax → SnapshotSax × Bool
on_start_array h =
    if not (h.object_depth == 1)
    then (h, false)
    else if h.pending_snapshot == 2
    then (
      record h {
        pending_snapshot = 0;
        in_bids = true;
        in_asks = false;
        array_depth = h.array_depth + 1;
      },
      true,
    )
    else if h.pending_snapshot == 3
    then (
      record h {
        pending_snapshot = 0;
        in_bids = false;
        in_asks = true;
        array_depth = h.array_depth + 1;
      },
      true,
    )
    else if h.array_depth == 1
    then (record h { array_depth = h.array_depth + 1; row_string_idx = 0 }, true)
    else (h, false)

-- `EndArray`
unfoldable pub on_end_array : SnapshotSax → SnapshotSax × Bool
on_end_array h =
    if h.array_depth == 2
    then (record h { row_string_idx = 0; array_depth = h.array_depth - 1 }, true)
    else if h.array_depth == 1
    then (record h { array_depth = h.array_depth - 1; in_bids = false; in_asks = false }, true)
    else (h, false)

-- The handler's method for an event.
unfoldable pub handle : SnapshotSax → Event → SnapshotSax × Bool
handle h null = (h, false)
handle h (bool b) = (h, false)
handle h (int i) = on_int64 h i
handle h (uint u) = on_uint64 h u
handle h (int64 i) = on_int64 h i
handle h (uint64 u) = on_uint64 h u
handle h double = (h, false)
handle h (string s) = on_string h s
handle h start_object = on_start_object h
handle h (key s) = on_key h s
handle h (end_object n) = on_end_object h
handle h start_array = on_start_array h
handle h (end_array n) = on_end_array h
