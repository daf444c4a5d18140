-- ===== src/System/Tape/Tests.antt =====
-- A test of a trade's way.
use hft_demo.Common.{ℕ, ◌+◌, ◌^◌, ◌≡◌, refl, arith, true, false, [], some, take}
use hft_demo.Common.Bytes.{codes, bytes_eq}
use hft_demo.Market.{empty_update, empty_trade, price_shift, quantity_shift}
use hft_demo.Flow.{new_window, on_trade}
use hft_demo.Ring.{new_ring}
use hft_demo.Ring.Queue.{live, view, new_ring-IsValid, new_ring_refines}
use hft_demo.Parser.Fields.{
  symbol_from_string, is_depth_stream, is_trade_stream, ends_with, event_time_to_microseconds,
}
use hft_demo.Parser.Decimal.{
  parse_fixed_decimal_string, scan, scan_char, push_digit, finish, assemble, scaled_term, sum_terms,
  pow10,
}
use hft_demo.Parser.Events.{Reader}
use hft_demo.Parser.Trade.Accepts.{Message, trade_body}
use hft_demo.Parser.Combined.{stream_cap}
use hft_demo.Parser.Combined.Inside.{wrapped}
use hft_demo.Parser.Fixtures.{fresh_combined}
use hft_demo.Feeder.{TraderId, ByTraderId, at, MarketDataBuffers}
use hft_demo.Feeder.Routing.{is_traded_by, IsReady}
use hft_demo.Feeder.Loop.{feeder_step}
use hft_demo.Trader.{Stamps, update_stamps, process_trade}
use hft_demo.Trader.Trades.{seen_trade}
use hft_demo.System.Tape.{trade_observed}

abbrev new_buffers : MarketDataBuffers
new_buffers = record {
  order_book_updates = new_ring (2 ^ 3) empty_update;
  trades = new_ring (2 ^ 3) empty_trade;
}

abbrev both_buffers : ByTraderId MarketDataBuffers
both_buffers = record { of_btc_usdt = new_buffers; of_eth_usdt = new_buffers }

both_buffers-IsReady : IsReady 3 both_buffers
both_buffers-IsReady = record {
  btc_updates = new_ring-IsValid 3 (omega arith) empty_update;
  btc_trades = new_ring-IsValid 3 (omega arith) empty_trade;
  eth_updates = new_ring-IsValid 3 (omega arith) empty_update;
  eth_trades = new_ring-IsValid 3 (omega arith) empty_trade;
}

abbrev one_trade : Message
one_trade = record {
  event_time = 1_700_000_000_000;
  symbol_text = codes "BTCUSDT";
  trade_id = 12;
  price_text = codes "9.5";
  quantity_text = codes "2";
  trade_time = 1_700_000_000_000;
  buyer_maker = true;
}

abbrev trade_reader : Reader
trade_reader json = (wrapped (codes "btcusdt@trade") (trade_body one_trade) 9, true)

trade_stream :
    (is_depth_stream (take stream_cap (codes "btcusdt@trade")) ≡ false)
    × (is_trade_stream (take stream_cap (codes "btcusdt@trade")) ≡ true)
unfolding is_depth_stream is_trade_stream ends_with bytes_eq
trade_stream = (refl, refl)

amounts :
    (parse_fixed_decimal_string (codes "9.5") price_shift ≡ some 950_000_000)
    × (parse_fixed_decimal_string (codes "2") quantity_shift ≡ some 200_000_000)
unfolding parse_fixed_decimal_string scan scan_char push_digit finish assemble scaled_term sum_terms
    pow10
amounts = (refl, refl)

is_btc : is_traded_by TraderId.btc_usdt (symbol_from_string (some one_trade.symbol_text)) ≡ true
unfolding symbol_from_string bytes_eq
is_btc = refl

abbrev ticks : ℕ → ℕ
ticks i = 60 + i

abbrev no_stamps : Stamps
no_stamps = record {
  feeder_read_steady_ns = 0;
  feeder_write_steady_ns = 0;
  trader_read_steady_ns = 0;
}

trade_observed_example :
    let after =
      (feeder_step
        (2 ^ 3)
        50
        ticks
        true
        trade_reader
        (codes "{}")
        (fresh_combined, both_buffers)).1 in
    (view (2 ^ 3) empty_update (at after TraderId.btc_usdt).order_book_updates
      ≡ view (2 ^ 3) empty_update (at both_buffers TraderId.btc_usdt).order_book_updates)
    × (seen_trade (2 ^ 3) empty_trade (
          process_trade
            (2 ^ 3)
            (at after TraderId.btc_usdt).trades
            (new_window 250_000)
            no_stamps
            empty_trade
            90)
        ≡ (
          live [],
          on_trade
              (new_window 250_000)
              (event_time_to_microseconds 1_700_000_000_000)
              true
              200_000_000,
          update_stamps no_stamps 50 60 90,
          true,
        ))
trade_observed_example =
    trade_observed 3 (omega arith) (omega arith) 50 ticks TraderId.btc_usdt true trade_reader
      (codes "{}") (codes "btcusdt@trade") fresh_combined both_buffers one_trade 950_000_000
      200_000_000 (new_window 250_000) no_stamps 90 both_buffers-IsReady trade_stream.0
      trade_stream.1 refl amounts.0 amounts.1 is_btc
      (new_ring_refines 3 (omega arith) empty_trade empty_trade)
