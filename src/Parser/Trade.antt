-- ===== src/Parser/Trade.antt =====
-- TradeSaxHandler of lib/binance/parser.cpp: from the events of a trade to a Trade.
pub mod Accepts
use hft_demo.Common.{
  ℕ, zero, suc, ◌+◌, ◌-◌, Bool, true, false, ◌&&◌, ◌||◌, not, List, [], ◌∷◌, Option, none, some,
  ltb, ◌==◌, if◌then◌else◌,
}
use hft_demo.Common.Int.{ℤ, to_i64, to_u64}
use hft_demo.Common.Bytes.{codes, bytes_eq}
use hft_demo.Market.{Trade, empty_trade, price_shift, quantity_shift}
use hft_demo.Parser.Fields.{symbol_from_string, get_uint64_from_mixed, event_time_to_microseconds}
use hft_demo.Parser.Decimal.{parse_fixed_decimal_string}
use hft_demo.Parser.Events.{
  Event, null, bool, int, uint, int64, uint64, double, string, start_object, key, end_object,
  start_array, end_array,
}

-- `TradePending`
pub data TradePending : Type 0 where
  nothing event_type event_time symbol price quantity buyer_maker : TradePending

-- The members of `TradeSaxHandler`.
pub record TradeSax : Type 0 where
  pub object_depth : ℕ
  pub pending : TradePending
  pub valid_event_type : Bool
  pub have_price : Bool
  pub have_qty : Bool
  pub have_buyer_maker : Bool
  pub out : Trade

-- `Reset`
abbrev pub reset : TradeSax → TradeSax
reset h = record {
  object_depth = 0;
  pending = TradePending.nothing;
  valid_event_type = false;
  have_price = false;
  have_qty = false;
  have_buyer_maker = false;
  out = empty_trade;
}

-- `Release`: what a callback is called with; an empty std::function, which the processes never pass, is
-- not called.
abbrev pub release : TradeSax → Trade
release h = h.out

-- `Bool`, by what is pending.
unfoldable pub on_bool : TradePending → TradeSax → Bool → TradeSax × Bool
on_bool TradePending.buyer_maker h b = (
  record h {
    pending = TradePending.nothing;
    out = record (h.out) { is_buyer_maker = b };
    have_buyer_maker = true;
  },
  true,
)
on_bool _ h b = (record h { pending = TradePending.nothing }, true)

-- `String` for the price and for the quantity, with what the parse of the text returned.
unfoldable pub price_string : TradeSax → Option ℕ → TradeSax × Bool
price_string h none = (record h { pending = TradePending.nothing }, false)
price_string h (some v) = (
  record h {
    pending = TradePending.nothing;
    out = record (h.out) { price = v };
    have_price = true;
  },
  true,
)

unfoldable pub quantity_string : TradeSax → Option ℕ → TradeSax × Bool
quantity_string h none = (record h { pending = TradePending.nothing }, false)
quantity_string h (some v) = (
  record h {
    pending = TradePending.nothing;
    out = record (h.out) { quantity = v };
    have_qty = true;
  },
  true,
)

-- `String`, by what is pending.
unfoldable pub on_string : TradePending → TradeSax → List ℕ → TradeSax × Bool
on_string TradePending.event_type h s =
    if bytes_eq s (codes "trade")
    then (record h { pending = TradePending.nothing; valid_event_type = true }, true)
    else (record h { pending = TradePending.nothing }, false)
on_string TradePending.symbol h s = (
  record h {
    pending = TradePending.nothing;
    out = record (h.out) { symbol = symbol_from_string (some s) };
  },
  true,
)
on_string TradePending.price h s = price_string h (parse_fixed_decimal_string s price_shift)
on_string TradePending.quantity h s =
    quantity_string h (parse_fixed_decimal_string s quantity_shift)
on_string _ h s = (record h { pending = TradePending.nothing }, true)

-- `Number`, by what is pending.
unfoldable pub field_number : TradePending → TradeSax → ℕ → TradeSax × Bool
field_number TradePending.event_time h v = (
  record h {
    pending = TradePending.nothing;
    out = record (h.out) { event_timestamp_microseconds = event_time_to_microseconds v };
  },
  true,
)
field_number _ h v = (record h { pending = TradePending.nothing }, true)

-- `Number`
unfoldable pub number : TradeSax → ℤ → ℕ → Bool → TradeSax × Bool
number h i u is_int = field_number h.pending h (get_uint64_from_mixed i u is_int)

-- `Int64` and `Uint64`, which `Int` and `Uint` call.
unfoldable pub on_int64 : TradeSax → ℤ → TradeSax × Bool
on_int64 h i = number h i (to_u64 i) true

unfoldable pub on_uint64 : TradeSax → ℕ → TradeSax × Bool
on_uint64 h u = number h (to_i64 u) u false

-- `StartObject`
unfoldable pub on_start_object : TradeSax → TradeSax × Bool
on_start_object h =
    if ltb 0 h.object_depth
    then (h, false)
    else (record h { object_depth = h.object_depth + 1 }, true)

-- The pending field that a key announces.
unfoldable pub pending_of_key : List ℕ → TradePending
pending_of_key s =
    if bytes_eq s (b'e' ∷ [])
    then TradePending.event_type
    else if bytes_eq s (b'E' ∷ [])
    then TradePending.event_time
    else if bytes_eq s (b's' ∷ [])
    then TradePending.symbol
    else if bytes_eq s (b'p' ∷ [])
    then TradePending.price
    else if bytes_eq s (b'q' ∷ [])
    then TradePending.quantity
    else if bytes_eq s (b'm' ∷ [])
    then TradePending.buyer_maker
    else TradePending.nothing

-- `Key`
unfoldable pub on_key : TradeSax → List ℕ → TradeSax × Bool
on_key h s =
    if not (h.object_depth == 1)
    then (h, false)
    else (record h { pending = pending_of_key s }, true)

-- `EndObject`
unfoldable pub on_end_object : TradeSax → TradeSax × Bool
on_end_object h = if not (h.object_depth == 1) then (h, false) else (
  record h { object_depth = h.object_depth - 1 },
  not (not h.valid_event_type || not h.have_price || not h.have_qty || not h.have_buyer_maker),
)

-- The handler's method for an event. Arrays go to methods that it inherits from
-- rapidjson::BaseReaderHandler: `arrays` is what those return.
unfoldable pub handle : Bool → TradeSax → Event → TradeSax × Bool
handle arrays h null = (h, false)
handle arrays h (bool b) = on_bool h.pending h b
handle arrays h (int i) = on_int64 h i
handle arrays h (uint u) = on_uint64 h u
handle arrays h (int64 i) = on_int64 h i
handle arrays h (uint64 u) = on_uint64 h u
handle arrays h double = (h, false)
handle arrays h (string s) = on_string h.pending h s
handle arrays h start_object = on_start_object h
handle arrays h (key s) = on_key h s
handle arrays h (end_object n) = on_end_object h
handle arrays h start_array = (h, arrays)
handle arrays h (end_array n) = (h, arrays)
