-- ===== src/Parser/Calls/TradeEvent.antt =====
-- A message of the combined stream with a trade, from the call of ParseEvent to its callbacks.
use hft_demo.Common.{
  ℕ, ◌≡◌, refl, ap, ◌∙◌, Bool, true, false, List, [], Option, none, some, take, inl, inr,
  Bool-cases, ltb, u32_mod,
}
use hft_demo.Market.{Trade, price_shift, quantity_shift}
use hft_demo.Parser.Fields.{is_depth_stream, is_trade_stream}
use hft_demo.Parser.Decimal.{parse_fixed_decimal_string}
use hft_demo.Parser.Events.{Reader, feed, whole_number}
use hft_demo.Parser.Trade as TradeParser
use hft_demo.Parser.Trade.{TradeSax}
use hft_demo.Parser.Trade.Accepts
use hft_demo.Parser.Trade.Accepts.{Message, trade_body, document, with_amounts, trade_document_lem}
use hft_demo.Parser.Combined.{CombinedSax, Released, stream_cap}
use hft_demo.Parser.Combined.Inside.{is_flat, all_flat, wrapped}
use hft_demo.Parser.Combined.Trades.{trade_outcome, trade_combined_lem}
use hft_demo.Parser.Calls.{parse_event}
use hft_demo.Parser.Calls.Event.{parse-outcome}

whole_number-is_flat : (n : ℕ) → is_flat (whole_number n) ≡ true
whole_number-is_flat n = elim (Bool-cases (ltb n u32_mod)) [
  | inl small ↦ rw (small) refl
  | inr large ↦ rw (large) refl
]

trade_body-all_flat : (m : Message) → all_flat (trade_body m) ≡ true
trade_body-all_flat m =
    let event = whole_number-is_flat m.event_time in
    let id = whole_number-is_flat m.trade_id in
    let trade = whole_number-is_flat m.trade_time in rw (event, id, trade) refl

-- The calls of the callbacks for a trade, if there is one.
abbrev pub released_trade : Option Trade → Option Released
released_trade none = none
released_trade (some t) = some ([], some t)

trade_outcome-released :
    (r : TradeSax × Bool) → trade_outcome r ≡ released_trade (Accepts.outcome r)
trade_outcome-released (h, true) = refl
trade_outcome-released (h, false) = refl

-- Where the reader finds in a text a combined message on a trade stream, `ParseEvent` passes on the
-- trade in it if its price and its quantity are good, and else fails; it passes on no update.
pub parse_event_trade_lem :
    (arrays : Bool) (reader : Reader) (h : CombinedSax) (json stream : List ℕ) (m : Message)
    → is_depth_stream (take stream_cap stream) ≡ false
    → is_trade_stream (take stream_cap stream) ≡ true
    → reader json ≡ (wrapped stream (trade_body m) 9, true)
    → (parse_event arrays reader h json).1
      ≡ released_trade (
          with_amounts m
            (parse_fixed_decimal_string m.price_text price_shift)
            (parse_fixed_decimal_string m.quantity_text quantity_shift))
parse_event_trade_lem arrays reader h json stream m not_depth is reads =
    parse-outcome arrays reader h json reads
    ∙ trade_combined_lem arrays h stream (trade_body m) 9 not_depth is (trade_body-all_flat m)
    ∙ trade_outcome-released
        (feed (TradeParser.handle arrays) (TradeParser.reset h.trade) (document m))
    ∙ ap released_trade (trade_document_lem arrays h.trade m)
