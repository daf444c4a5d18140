-- ===== src/Trader/Symbols.antt =====
-- The names and numbers of a trader's symbol, as the processes pass them on.
use hft_demo.Common.{◌≡◌, refl, List, ℕ, some}
use hft_demo.Common.Bytes.{codes, bytes_eq}
use hft_demo.Parser.Fields.{symbol_from_string}
use hft_demo.Feeder.{TraderId, trader_id_for_symbol}
use hft_demo.Executor.{symbol_label}
use hft_demo.Trader.Main.{symbol_for_trader}

-- `BinanceSymbol`
unfoldable pub binance_symbol : TraderId → List ℕ
binance_symbol TraderId.btc_usdt = codes "BTCUSDT"
binance_symbol TraderId.eth_usdt = codes "ETHUSDT"

-- The name under which a trader asks the exchange is read by the parser as the symbol of its orders,
-- the feeder routes this symbol back to the trader, and the executor labels it with that name.
pub symbol_round_trip :
    (id : TraderId)
    → (symbol_from_string (some (binance_symbol id)) ≡ symbol_for_trader id)
      × (trader_id_for_symbol (symbol_for_trader id) ≡ some id)
      × (symbol_label (symbol_for_trader id) ≡ binance_symbol id)
unfolding symbol_from_string bytes_eq binance_symbol symbol_label
symbol_round_trip TraderId.btc_usdt = (refl, refl, refl)
symbol_round_trip TraderId.eth_usdt = (refl, refl, refl)
