-- ===== src/Feeder/Loop.antt =====
-- A round of the main loop of RunFeeder in feeder/feeder.cpp: a message is read, parsed, and what
-- was found is written to the rings.
pub mod Refine
use hft_demo.Common.{ℕ, ◌+◌, Bool, List, [], ◌∷◌, Option, none, some, if◌then◌else◌}
use hft_demo.Market.{OrderBookUpdate, Trade}
use hft_demo.Parser.Events.{Reader}
use hft_demo.Parser.Combined.{CombinedSax, Released}
use hft_demo.Parser.Calls.{parse_event}
use hft_demo.Feeder.{
  TraderId, ByTraderId, MarketDataBuffers, stamped_update, order_book_update_callback,
  stamped_trade, trade_callback,
}
use hft_demo.Feeder.Routing.{is_traded_by}

module _ (n read_ns : ℕ) (clock : ℕ → ℕ) where
  -- The calls of `order_book_update_callback`; the `i`-th reads the time `clock i`.
  abbrev pub send_updates :
      (i : ℕ) → ByTraderId MarketDataBuffers → List OrderBookUpdate → ByTraderId MarketDataBuffers
  send_updates i md [] = md
  send_updates i md (u ∷ us) =
      send_updates (i + 1) (order_book_update_callback n read_ns (clock i) md u) us

  -- The calls that `ParseEvent` makes of the two callbacks.
  abbrev pub send_released :
      ByTraderId MarketDataBuffers → Option Released → ByTraderId MarketDataBuffers
  send_released md none = md
  send_released md (some (us, none)) = send_updates 0 md us
  send_released md (some (us, some t)) = trade_callback n read_ns (clock 0) (send_updates 0 md us) t

  -- The round; nothing is written where the message cannot be parsed.
  unfoldable pub feeder_step :
      Bool
      → Reader
      → (message : List ℕ) → CombinedSax × ByTraderId MarketDataBuffers
      → CombinedSax × ByTraderId MarketDataBuffers
  feeder_step arrays reader message (h, md) =
      let (h', released) = parse_event arrays reader h message in (h', send_released md released)

  -- What a trader is sent of a list of updates, and of a trade.
  abbrev pub own_updates : TraderId → (i : ℕ) → List OrderBookUpdate → List OrderBookUpdate
  own_updates id i [] = []
  own_updates id i (u ∷ us) =
      let rest = own_updates id (i + 1) us in
      if is_traded_by id u.symbol then stamped_update read_ns (clock i) u ∷ rest else rest

  abbrev pub own_trades : TraderId → Option Trade → List Trade
  own_trades id none = []
  own_trades id (some t) =
      if is_traded_by id t.symbol then stamped_trade read_ns (clock 0) t ∷ [] else []
