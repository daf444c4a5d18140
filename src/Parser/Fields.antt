-- ===== src/Parser/Fields.antt =====
-- The helpers that the handlers of lib/binance/parser.cpp share.
use hft_demo.Common.{
  ℕ, ◌-◌, Bool, false, ◌&&◌, ◌||◌, List, [], ◌∷◌, Option, none, some, leb, ◌==◌, if◌then◌else◌,
  length, drop, mul64,
}
use hft_demo.Common.Int.{ℤ, to_u64}
use hft_demo.Common.Bytes.{codes, bytes_eq}
use hft_demo.Market.{Symbol, unknown, btc_usdt, eth_usdt}

-- `SymbolFromString`; `none` is the null pointer.
unfoldable pub symbol_from_string : Option (List ℕ) → Symbol
unfolding bytes_eq
symbol_from_string none = unknown
symbol_from_string (some s) =
    if bytes_eq s (codes "BTCUSDT")
    then btc_usdt
    else if bytes_eq s (codes "ETHUSDT")
    then eth_usdt
    else unknown

-- `GetUint64FromMixed`
abbrev pub get_uint64_from_mixed : ℤ → ℕ → Bool → ℕ
get_uint64_from_mixed i u is_int = if is_int then to_u64 i else u

-- `kEventTimeMicrosecondThreshold`
abbrev pub event_time_microsecond_threshold : ℕ
event_time_microsecond_threshold = 1_000_000_000_000_000

-- `EventTimeToMicroseconds`
abbrev pub event_time_to_microseconds : ℕ → ℕ
event_time_to_microseconds raw =
    if leb event_time_microsecond_threshold raw then raw else mul64 raw 1000

-- std::string_view::ends_with
unfoldable pub ends_with : List ℕ → List ℕ → Bool
unfolding bytes_eq
ends_with s suffix =
    leb (length suffix) (length s) && bytes_eq (drop (length s - length suffix) s) suffix

-- `IsDepthStream`
unfoldable pub is_depth_stream : List ℕ → Bool
unfolding ends_with
is_depth_stream stream =
    leb 6 (length stream)
    && (ends_with stream (codes "@depth@100ms") || ends_with stream (codes "@depth"))

-- `IsTradeStream`
unfoldable pub is_trade_stream : List ℕ → Bool
unfolding ends_with
is_trade_stream stream = leb 6 (length stream) && ends_with stream (codes "@trade")

-- `JsonRootIsObject`
unfoldable pub json_root_is_object : List ℕ → Bool
json_root_is_object [] = false
json_root_is_object (c ∷ s) =
    if c == b' ' || c == b'\t' || c == b'\n' || c == b'\r' then json_root_is_object s else c == b'{'
