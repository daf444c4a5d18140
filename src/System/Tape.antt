-- ===== src/System/Tape.antt =====
-- A trade message of the exchange, from the feeder's reading of it to the window of the trader.
mod Tests
use native.Mathlib.Nat.{pow-le-pow_right}
use hft_demo.Common.{
  ℕ, ◌≤◌, ◌^◌, ◌≡◌, refl, ap, ap₂, sym, ◌∙◌, Bool, true, false, List, [], ◌∷◌, Option, none, some,
  take, if◌then◌else◌, arith, u32_mod, ◌==◌, length, ◌+◌,
}
use hft_demo.Market.{
  Trade, Symbol, empty_trade, empty_update, OrderBookUpdate, price_shift, quantity_shift,
}
use hft_demo.Flow.{Window, on_trade}
use hft_demo.Ring.Queue.{Queue, live, queue_write, view, IsValid}
use hft_demo.Parser.Fields.{
  is_depth_stream, is_trade_stream, symbol_from_string, event_time_to_microseconds,
}
use hft_demo.Parser.Decimal.{parse_fixed_decimal_string}
use hft_demo.Parser.Events.{Reader}
use hft_demo.Parser.Trade.Accepts.{Message, trade_body, with_amounts}
use hft_demo.Parser.Combined.{CombinedSax, Released, stream_cap}
use hft_demo.Parser.Combined.Inside.{wrapped}
use hft_demo.Parser.Calls.TradeEvent.{released_trade, parse_event_trade_lem}
use hft_demo.Feeder.{TraderId, ByTraderId, at, MarketDataBuffers, stamped_trade}
use hft_demo.Feeder.Routing.{is_traded_by, IsReady}
use hft_demo.Feeder.Loop.{feeder_step, own_updates, own_trades}
use hft_demo.Feeder.Loop.Refine.{queue_writes, updates_of, trade_of, held, feeder_step_lem}
use hft_demo.Trader.{Stamps, update_stamps, process_trade}
use hft_demo.Trader.Trades.{queue_trade, seen_trade, process_trade_refines}

trades-IsValid :
    (k : ℕ) (md : ByTraderId MarketDataBuffers) (id : TraderId)
    → IsReady k md
    → IsValid (2 ^ k) (at md id).trades
trades-IsValid k md TraderId.btc_usdt v = v.btc_trades
trades-IsValid k md TraderId.eth_usdt v = v.eth_trades

-- The trade that a message with this price and quantity stands for.
abbrev pub trade_of_message : Message → (price quantity : ℕ) → Trade
trade_of_message m p q = record empty_trade {
  event_timestamp_microseconds = event_time_to_microseconds m.event_time;
  price = p;
  quantity = q;
  symbol = symbol_from_string (some m.symbol_text);
  is_buyer_maker = m.buyer_maker;
}

module _ (k : ℕ) (small : 2 ^ k ≤ u32_mod) (room : 1 ≤ k) (read_ns : ℕ) (clock : ℕ → ℕ)
    (id : TraderId) where
  -- Where the feeder finds in a message a trade of the trader's symbol with a good price and a good
  -- quantity, all rings are valid, of one length that is a power of two from 2 up to 2^32, and the
  -- trader's queue of trades is empty, a round of the feeder and then one `ProcessTrade` put the
  -- trade's time, side and quantity into the window and its stamps into those of the trader, and
  -- leave the queue of trades empty and that of updates as it was.
  pub trade_observed :
      (arrays : Bool) (reader : Reader) (message stream : List ℕ) (h : CombinedSax)
      (md : ByTraderId MarketDataBuffers) (m : Message) (p q : ℕ) (w : Window) (t : Stamps)
      (now : ℕ)
      → IsReady k md
      → is_depth_stream (take stream_cap stream) ≡ false
      → is_trade_stream (take stream_cap stream) ≡ true
      → reader message ≡ (wrapped stream (trade_body m) 9, true)
      → parse_fixed_decimal_string m.price_text price_shift ≡ some p
      → parse_fixed_decimal_string m.quantity_text quantity_shift ≡ some q
      → is_traded_by id (symbol_from_string (some m.symbol_text)) ≡ true
      → view (2 ^ k) empty_trade (at md id).trades ≡ live []
      → let after = (feeder_step (2 ^ k) read_ns clock arrays reader message (h, md)).1 in
        (view (2 ^ k) empty_update (at after id).order_book_updates
          ≡ view (2 ^ k) empty_update (at md id).order_book_updates)
        × (seen_trade
              (2 ^ k)
              empty_trade
              (process_trade (2 ^ k) (at after id).trades w t empty_trade now)
            ≡ (
              live [],
              on_trade w (event_time_to_microseconds m.event_time) m.buyer_maker q,
              update_stamps t read_ns (clock 0) now,
              true,
            ))
  trade_observed arrays reader message stream h md m p q w t now ready not_depth is reads price
        quantity traded idle =
      let after = (feeder_step (2 ^ k) read_ns clock arrays reader message (h, md)).1 in
      let x = trade_of_message m p q in
      let stepped =
        feeder_step_lem k small empty_update empty_trade read_ns clock arrays reader message h md id
          ready in
      let parsed =
        parse_event_trade_lem arrays reader h message stream m not_depth is reads
        ∙ ap₂ (λ a b. released_trade (with_amounts m a b)) price quantity in
      let own : own_trades (2 ^ k) read_ns clock id (some x)
          ≡ stamped_trade read_ns (clock 0) x ∷ [] =
        rw (traded) refl in
      let queues =
        stepped.0
        ∙ ap
            (λ (r : Option Released). (
              queue_writes (2 ^ k) (view (2 ^ k) empty_update (at md id).order_book_updates)
                  (own_updates (2 ^ k) read_ns clock id 0 (updates_of r)),
              queue_writes (2 ^ k) (view (2 ^ k) empty_trade (at md id).trades)
                  (own_trades (2 ^ k) read_ns clock id (trade_of r)),
            ))
            parsed in
      let large : 2 ^ 1 ≤ 2 ^ k = pow-le-pow_right {n = 2} (omega arith) {i = 1} {j = k} room in
      let free : (1 == 2 ^ k) ≡ false = ground (arith, large) in
      let queued : view (2 ^ k) empty_trade (at after id).trades
          ≡ live (stamped_trade read_ns (clock 0) x ∷ []) =
        ap (λ (r : Queue OrderBookUpdate × Queue Trade). r.1) queues
        ∙ ap₂ (queue_writes (2 ^ k)) idle own
        ∙ rw (free) refl in
      (
        ap (λ (r : Queue OrderBookUpdate × Queue Trade). r.0) queues,
        process_trade_refines k (at after id).trades w t empty_trade now small
              (trades-IsValid k after id stepped.1)
            ∙ ap (λ s. queue_trade s w t now) queued,
      )
