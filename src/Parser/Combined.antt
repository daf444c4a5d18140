-- ===== src/Parser/Combined.antt =====
-- CombinedSaxHandler of lib/binance/parser.cpp: the combined stream's wrapper, which forwards the
-- events of its data object to the depth handler or to the trade handler.
pub mod Forward
pub mod Inside
pub mod Trades
use hft_demo.Common.{
  ℕ, ◌+◌, ◌-◌, min, Bool, true, false, ◌&&◌, ◌||◌, not, List, [], ◌∷◌, Option, none, some, ltb,
  ◌==◌, if◌then◌else◌, take,
}
use hft_demo.Common.Bytes.{codes, bytes_eq}
use hft_demo.Market.{OrderBookUpdate, Trade}
use hft_demo.Parser.Fields.{is_depth_stream, is_trade_stream}
use hft_demo.Parser.Events.{
  Event, null, bool, int, uint, int64, uint64, double, string, start_object, key, end_object,
  start_array, end_array,
}
use hft_demo.Parser.Depth
use hft_demo.Parser.Depth.{DepthSax}
use hft_demo.Parser.Trade as TradeParser
use hft_demo.Parser.Trade.{TradeSax}

-- `sizeof(stream_buf_) - 1`
abbrev pub stream_cap : ℕ
stream_cap = 255

-- The members of `CombinedSaxHandler`. `stream` is the first `stream_len_` bytes of `stream_buf_`.
pub record CombinedSax : Type 0 where
  pub root_depth : ℕ
  pub pending_stream_string : Bool
  pub have_stream : Bool
  pub stream : List ℕ
  pub expect_data_object : Bool
  pub saw_data : Bool
  pub in_data : Bool
  pub data_is_depth : Bool
  pub pending_data_release : Bool
  pub pending_data_is_depth : Bool
  pub depth : DepthSax
  pub trade : TradeSax

-- `Reset`
abbrev pub reset : CombinedSax → CombinedSax
reset h = record {
  root_depth = 0;
  pending_stream_string = false;
  have_stream = false;
  stream = [];
  expect_data_object = false;
  saw_data = false;
  in_data = false;
  data_is_depth = false;
  pending_data_release = false;
  pending_data_is_depth = false;
  depth = Depth.reset h.depth;
  trade = TradeParser.reset h.trade;
}

-- What the two callbacks are called with.
abbrev pub Released : Type 0
Released = List OrderBookUpdate × Option Trade

-- `Release`
unfoldable pub release : CombinedSax → CombinedSax × Released
release h =
    if not h.pending_data_release
    then (h, ([], none))
    else if h.pending_data_is_depth
    then (record h { pending_data_release = false }, (Depth.release h.depth, none))
    else (record h { pending_data_release = false }, ([], some (TradeParser.release h.trade)))

-- The same method of the handler that the data belongs to.
unfoldable pub forward : Bool → CombinedSax → Event → CombinedSax × Bool
forward arrays h e =
    if h.data_is_depth
    then (let (d, ok) = Depth.handle h.depth e in (record h { depth = d }, ok))
    else (let (t, ok) = TradeParser.handle arrays h.trade e in (record h { trade = t }, ok))

-- `Bool`
unfoldable pub on_bool : Bool → CombinedSax → Bool → CombinedSax × Bool
on_bool arrays h b =
    if h.expect_data_object
    then (h, false)
    else if h.in_data
    then (if h.data_is_depth then (h, false) else forward arrays h (bool b))
    else (h, false)

-- `Int`, `Uint`, `Int64`, `Uint64` and `StartArray`: forwarded inside the data object only.
unfoldable pub on_inner : Bool → CombinedSax → Event → CombinedSax × Bool
on_inner arrays h e =
    if h.expect_data_object
    then (h, false)
    else if h.in_data
    then forward arrays h e
    else (h, false)

-- `String`
unfoldable pub on_string : Bool → CombinedSax → List ℕ → CombinedSax × Bool
on_string arrays h s =
    if h.expect_data_object
    then (h, false)
    else if h.in_data
    then forward arrays h (string s)
    else if h.pending_stream_string
    then (
      record h { pending_stream_string = false; stream = take stream_cap s; have_stream = true },
      true,
    )
    else (h, true)

-- `StartObject`
unfoldable pub on_start_object : Bool → CombinedSax → CombinedSax × Bool
on_start_object arrays h =
    if h.expect_data_object
    then (if not h.have_stream
        then (record h { expect_data_object = false }, false)
        else if not (is_depth_stream h.stream) && not (is_trade_stream h.stream)
        then (record h { expect_data_object = false }, false)
        else forward arrays
            (record h {
              expect_data_object = false;
              saw_data = true;
              in_data = true;
              data_is_depth = is_depth_stream h.stream;
            })
            start_object)
    else if h.in_data
    then (h, false)
    else (record h { root_depth = h.root_depth + 1 }, true)

-- `Key`
unfoldable pub on_key : Bool → CombinedSax → List ℕ → CombinedSax × Bool
on_key arrays h s =
    if h.in_data
    then forward arrays h (key s)
    else if bytes_eq s (codes "stream")
    then (record h { pending_stream_string = true }, true)
    else if bytes_eq s (codes "data")
    then (record h { expect_data_object = true }, true)
    else (h, true)

-- `EndObject`
unfoldable pub on_end_object : Bool → CombinedSax → ℕ → CombinedSax × Bool
on_end_object arrays h n =
    if h.in_data
    then (let (h', ok) = forward arrays h (end_object n) in
        if not ok then (h', false) else (
          record h' {
            pending_data_release = true;
            pending_data_is_depth = h'.data_is_depth;
            in_data = false;
          },
          true,
        ))
    else if ltb 0 h.root_depth
    then (record h { root_depth = h.root_depth - 1 }, true)
    else (h, true)

-- `EndArray`
unfoldable pub on_end_array : Bool → CombinedSax → ℕ → CombinedSax × Bool
on_end_array arrays h n = if h.in_data then forward arrays h (end_array n) else (h, false)

-- The handler's method for an event. `arrays` is what the array methods that the trade handler
-- inherits from rapidjson::BaseReaderHandler return.
unfoldable pub handle : Bool → CombinedSax → Event → CombinedSax × Bool
handle arrays h null = (h, false)
handle arrays h (bool b) = on_bool arrays h b
handle arrays h (int i) = on_inner arrays h (int i)
handle arrays h (uint u) = on_inner arrays h (uint u)
handle arrays h (int64 i) = on_inner arrays h (int64 i)
handle arrays h (uint64 u) = on_inner arrays h (uint64 u)
handle arrays h double = (h, false)
handle arrays h (string s) = on_string arrays h s
handle arrays h start_object = on_start_object arrays h
handle arrays h (key s) = on_key arrays h s
handle arrays h (end_object n) = on_end_object arrays h n
handle arrays h start_array = on_inner arrays h start_array
handle arrays h (end_array n) = on_end_array arrays h n
