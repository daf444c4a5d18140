-- ===== src/Trader/Main.antt =====
-- A round of the main loop of RunTrader in trader/trader.cpp.
pub mod Refine
use hft_demo.Common.{ℕ, Bool, true, false, not, List, Option, none, some, if◌then◌else◌}
use hft_demo.Market.{
  Symbol, OrderBookUpdate, Trade, Order, empty_update, empty_trade, market_data_length,
  order_length,
}
use hft_demo.Flow.{Window}
use hft_demo.Ring.{Ring, write}
use hft_demo.Ring.Queue.{IsValid}
use hft_demo.Parser.Events.{Reader}
use hft_demo.Feeder.{TraderId}
use hft_demo.Trader.{set_to_order, process_trade, create_order}
use hft_demo.Trader.Loop.{Processor, process_update}

-- `SymbolForTrader`
abbrev pub symbol_for_trader : TraderId → Symbol
symbol_for_trader TraderId.btc_usdt = Symbol.btc_usdt
symbol_for_trader TraderId.eth_usdt = Symbol.eth_usdt

-- What `RunTrader` keeps from round to round, with the rings that it shares with others.
pub record TraderState : Type 0 where
  pub updates : Ring OrderBookUpdate
  pub trades : Ring Trade
  pub orders : Ring Order
  pub processor : Processor
  pub window : Window
  pub last_order : Order
  pub order : Order

-- What a round finds: whether the feeder is alive, what the exchange answers, and the times.
pub record Surroundings : Type 0 where
  pub is_producer_alive : Bool
  pub responses : ℕ → List ℕ
  pub clock : ℕ → ℕ
  pub trade_time : ℕ
  pub write_time : ℕ

-- The call of `CreateOrder` and the order that it sends.
unfoldable pub order_step : TraderId → (write_time : ℕ) → TraderState → TraderState
order_step id write_time s =
    let (last, order, is_sent) =
      create_order s.processor.order_book s.window s.last_order s.order in
    let sent =
      record (set_to_order s.processor.stamps (record order { symbol = symbol_for_trader id })) {
        trader_write_steady_ns = write_time;
      } in
    if is_sent
    then record s { last_order = last; order = sent; orders = write order_length s.orders sent }
    else record s { last_order = last; order = order }

-- The call of `ProcessTrade` and what follows it; false ends the process.
unfoldable pub trade_step : TraderId → Surroundings → TraderState → TraderState × Bool
trade_step id env s =
    let (trades, window, stamps, ok) =
      process_trade market_data_length s.trades s.window s.processor.stamps empty_trade
        env.trade_time in
    let s' = record s {
      trades = trades;
      window = window;
      processor = record s.processor { stamps = stamps };
    } in
    if ok then (order_step id env.write_time s', true) else (s', false)

-- What follows the call of `ProcessUpdate`.
unfoldable pub update_step :
    TraderId
    → Surroundings
    → TraderState
    → Option ((Ring OrderBookUpdate × Processor) × Bool)
    → Option (TraderState × Bool)
update_step id env s none = none
update_step id env s (some ((updates, p), ok)) =
    let s' = record s { updates = updates; processor = p } in
    some (if ok then trade_step id env s' else (s', false))

-- A round of the loop; the call of `ProcessUpdate` gets as much fuel as its ring has places.
unfoldable pub trader_step :
    Reader → TraderId → Surroundings → TraderState → Option (TraderState × Bool)
trader_step reader id env s =
    if not env.is_producer_alive
    then some (s, false)
    else update_step id env s (
        process_update reader env.responses env.clock empty_update market_data_length
          market_data_length 0 (s.updates, s.processor))

-- The rings of a trader are valid.
pub record IsReady (s : TraderState) : Type 0 where
  pub updates : IsValid market_data_length s.updates
  pub trades : IsValid market_data_length s.trades
  pub orders : IsValid order_length s.orders
