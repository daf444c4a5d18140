-- ===== src/Parser/Calls.antt =====
-- ParseDepthEvent, ParseTradeEvent, ParseOrderBookSnapshot and ParseEvent of lib/binance/parser.cpp.
-- The handlers are static, so each call gets what the last one left and returns what it leaves.
pub mod Event
pub mod TradeEvent
use hft_demo.Common.{Bool, true, false, ◌&&◌, List, Option, none, some, not, ℕ, if◌then◌else◌}
use hft_demo.Market.{OrderBookUpdate, OrderBookSnapshot, Trade}
use hft_demo.Parser.Fields.{json_root_is_object}
use hft_demo.Parser.Events.{Reader, parse}
use hft_demo.Parser.Depth
use hft_demo.Parser.Depth.{DepthSax}
use hft_demo.Parser.Trade as TradeParser
use hft_demo.Parser.Trade.{TradeSax}
use hft_demo.Parser.Snapshot
use hft_demo.Parser.Snapshot.{SnapshotSax}
use hft_demo.Parser.Combined
use hft_demo.Parser.Combined.{CombinedSax, Released}

-- `ParseDepthEvent`: what the callback is called with, or that the call returned false.
unfoldable pub parse_depth_event :
    Reader → DepthSax → List ℕ → DepthSax × Option (List OrderBookUpdate)
unfolding parse
parse_depth_event reader h json =
    let (h', ok) = parse Depth.handle reader (Depth.reset h) json in
    (h', if ok then some (Depth.release h') else none)

-- `ParseTradeEvent`
unfoldable pub parse_trade_event : Bool → Reader → TradeSax → List ℕ → TradeSax × Option Trade
unfolding parse
parse_trade_event arrays reader h json =
    let (h', ok) = parse (TradeParser.handle arrays) reader (TradeParser.reset h) json in
    (h', if ok then some (TradeParser.release h') else none)

-- `ParseOrderBookSnapshot`
unfoldable pub parse_order_book_snapshot :
    Reader → SnapshotSax → List ℕ → SnapshotSax × Option OrderBookSnapshot
unfolding parse
parse_order_book_snapshot reader h json =
    if not (json_root_is_object json)
    then (h, none)
    else (let (h', ok) = parse Snapshot.handle reader (Snapshot.reset h) json in
        (h', if ok then some (Snapshot.release h') else none))

-- `ParseEvent`
unfoldable pub parse_event : Bool → Reader → CombinedSax → List ℕ → CombinedSax × Option Released
unfolding parse
parse_event arrays reader h json =
    let (h', ok) = parse (Combined.handle arrays) reader (Combined.reset h) json in
    if ok && (h'.have_stream && h'.saw_data)
    then (let (h'', released) = Combined.release h' in (h'', some released))
    else (h', none)
