-- ===== src/Feeder.antt =====
-- feeder/feeder.cpp, with lib/interprocess/trader_id.hpp: which ring an update or a trade goes to.
pub mod Loop
pub mod Message
pub mod Routing
use hft_demo.Common.{ℕ, Option, none, some}
use hft_demo.Market.{Symbol, OrderBookUpdate, Trade}
use hft_demo.Ring.{Ring, write}

-- `TraderId`
pub data TraderId : Type 0 where
  btc_usdt eth_usdt : TraderId

-- `ArrayByTraderId`
pub record ByTraderId (A : Type 0) : Type 0 where
  pub of_btc_usdt : A
  pub of_eth_usdt : A

-- `operator[]`, read and written.
abbrev pub at : {A : Type 0} → ByTraderId A → TraderId → A
at elems TraderId.btc_usdt = elems.of_btc_usdt
at elems TraderId.eth_usdt = elems.of_eth_usdt

abbrev pub put_at : {A : Type 0} → ByTraderId A → TraderId → A → ByTraderId A
put_at elems TraderId.btc_usdt a = record elems { of_btc_usdt = a }
put_at elems TraderId.eth_usdt a = record elems { of_eth_usdt = a }

-- `MarketDataBuffers`, with the rings that its members point to.
pub record MarketDataBuffers : Type 0 where
  pub order_book_updates : Ring OrderBookUpdate
  pub trades : Ring Trade

-- `TraderIdForSymbol`
abbrev pub trader_id_for_symbol : Symbol → Option TraderId
trader_id_for_symbol Symbol.btc_usdt = some TraderId.btc_usdt
trader_id_for_symbol Symbol.eth_usdt = some TraderId.eth_usdt
trader_id_for_symbol Symbol.unknown = none

-- The update as `order_book_update_callback` stamps it, at the time `now`.
abbrev pub stamped_update : (read_ns now : ℕ) → OrderBookUpdate → OrderBookUpdate
stamped_update read_ns now u = record u {
  feeder_read_steady_ns = read_ns;
  feeder_write_steady_ns = now;
}

-- `order_book_update_callback` behind the choice of the trader, for rings of `n` places.
unfoldable pub send_update :
    ℕ
    → Option TraderId
    → ByTraderId MarketDataBuffers
    → OrderBookUpdate
    → ByTraderId MarketDataBuffers
send_update n none md u = md
send_update n (some id) md u =
    put_at md id
      (record (at md id) { order_book_updates = write n (at md id).order_book_updates u })

-- `order_book_update_callback`
unfoldable pub order_book_update_callback :
    ℕ
    → (read_ns now : ℕ) → ByTraderId MarketDataBuffers
    → OrderBookUpdate
    → ByTraderId MarketDataBuffers
order_book_update_callback n read_ns now md u =
    send_update n (trader_id_for_symbol u.symbol) md (stamped_update read_ns now u)

-- The trade as `trade_callback` stamps it, at the time `now`.
abbrev pub stamped_trade : (read_ns now : ℕ) → Trade → Trade
stamped_trade read_ns now t = record t {
  feeder_read_steady_ns = read_ns;
  feeder_write_steady_ns = now;
}

-- `trade_callback` behind the choice of the trader.
unfoldable pub send_trade :
    ℕ → Option TraderId → ByTraderId MarketDataBuffers → Trade → ByTraderId MarketDataBuffers
send_trade n none md t = md
send_trade n (some id) md t =
    put_at md id (record (at md id) { trades = write n (at md id).trades t })

-- `trade_callback`
unfoldable pub trade_callback :
    ℕ → (read_ns now : ℕ) → ByTraderId MarketDataBuffers → Trade → ByTraderId MarketDataBuffers
trade_callback n read_ns now md t =
    send_trade n (trader_id_for_symbol t.symbol) md (stamped_trade read_ns now t)
