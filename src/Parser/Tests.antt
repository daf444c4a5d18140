-- ===== src/Parser/Tests.antt =====
-- Tests of the parser.
use hft_demo.Common.{◌≡◌, ◌≤◌, refl, arith, true, [], ◌∷◌, ◌++◌, none, some, map, max_u64}
use hft_demo.Common.Bytes.{codes}
use hft_demo.Market.{bid, ask, price_shift, quantity_shift}
use hft_demo.Parser.Decimal.{
  parse_fixed_decimal_string, scan, scan_char, push_digit, finish, assemble, scaled_term, sum_terms,
  pow10,
}
use hft_demo.Parser.Decimal.Exact.{Number, text, IsNumber, scaled, fit, parse_exact}
use hft_demo.Parser.Decimal.Sound.{parse_sound}
use hft_demo.Parser.Decimal.Print.{printed, parse-printed}
use hft_demo.Parser.Events.{feed, start_object, end_object, null, start_array, string, key}
use hft_demo.Parser.Depth
use hft_demo.Parser.Depth.{DepthSax, release}
use hft_demo.Parser.Depth.Invariant
use hft_demo.Parser.Depth.Release.{batch}
use hft_demo.Parser.Rows.{good_rows}
use hft_demo.Parser.Depth.Document.{sent}
use hft_demo.Parser.Trade
use hft_demo.Parser.Trade.{TradeSax}
use hft_demo.Parser.Trade.Accepts
use hft_demo.Parser.Trade.Accepts.{Message, with_amounts, trade_document_lem}
use hft_demo.Parser.Snapshot
use hft_demo.Parser.Snapshot.{SnapshotSax}
use hft_demo.Parser.Snapshot.Bounds
use hft_demo.Parser.Combined
use hft_demo.Parser.Combined.{CombinedSax, stream_cap}
use hft_demo.Parser.Combined.Inside.{wrapped, outcome}
use hft_demo.Parser.Combined.Forward.{depth_outcome, combined_lem}
use hft_demo.Parser.Calls.{parse_event}
use hft_demo.Parser.Calls.Event.{parse_event_lem}
use hft_demo.Parser.Fixtures.{
  fresh_depth, fresh_depth-IsValid, one_update, few_bids, few_asks, fresh_trade, fresh_snapshot,
  fresh_combined, depth_stream, one_reader,
}

abbrev twelve_and_a_half : Number
twelve_and_a_half = record { whole = b'1' ∷ b'2' ∷ []; fraction = some (b'5' ∷ []) }

twelve_and_a_half-IsNumber : IsNumber twelve_and_a_half
twelve_and_a_half-IsNumber = record {
  whole = ground arith;
  fraction = ground arith;
  some_digit = omega arith;
}

parse_exact_example :
    parse_fixed_decimal_string (text twelve_and_a_half) 8 ≡ fit (scaled 8 twelve_and_a_half)
parse_exact_example = parse_exact 8 twelve_and_a_half (omega arith) twelve_and_a_half-IsNumber

parse_runs : parse_fixed_decimal_string (codes "12.5") 8 ≡ some 1_250_000_000
unfolding parse_fixed_decimal_string scan scan_char push_digit finish assemble scaled_term sum_terms
    pow10
parse_runs = refl

parse_sound_example :
    (x : Number) × IsNumber x
    × (codes "12.5" ≡ text x)
    × (1_250_000_000 ≡ scaled 8 x)
    × (1_250_000_000 ≤ max_u64)
parse_sound_example = parse_sound 8 (codes "12.5") (omega arith) parse_runs

feed-IsValid_example :
    Invariant.IsValid
      (feed Depth.handle fresh_depth (start_object ∷ key (codes "b") ∷ start_array ∷ null ∷ [])).0
feed-IsValid_example =
    Invariant.feed-IsValid fresh_depth (start_object ∷ key (codes "b") ∷ start_array ∷ null ∷ [])
      fresh_depth-IsValid

abbrev two_levels : DepthSax
two_levels = record fresh_depth {
  bid_n = 1;
  ask_n = 1;
  bid_prices = 7 ∷ [];
  bid_qtys = 1 ∷ [];
  ask_prices = 9 ∷ [];
  ask_qtys = 2 ∷ [];
}

abbrev in_bids : DepthSax
in_bids = record fresh_depth { object_depth = 1; array_depth = 1; current_side_is_bid = true }

abbrev one_message : Message
one_message = record {
  event_time = 1_700_000_000_000;
  symbol_text = codes "ETHUSDT";
  trade_id = 12;
  price_text = codes "3000.5";
  quantity_text = codes "0.25";
  trade_time = 1_700_000_000_000;
  buyer_maker = true;
}

trade_document_lem_example :
    Accepts.outcome
      (feed (Trade.handle true) (Trade.reset fresh_trade) (Accepts.document one_message))
    ≡ with_amounts one_message
        (parse_fixed_decimal_string one_message.price_text price_shift)
        (parse_fixed_decimal_string one_message.quantity_text quantity_shift)
trade_document_lem_example = trade_document_lem true fresh_trade one_message

snapshot_bounds_example :
    Bounds.IsValid
      (feed Snapshot.handle (Snapshot.reset fresh_snapshot) (
        start_object
        ∷ key (codes "bids")
        ∷ start_array
        ∷ start_array
        ∷ string (codes "1")
        ∷ string (codes "2")
        ∷ [])).0
snapshot_bounds_example = Bounds.snapshot_bounds fresh_snapshot (
    start_object
    ∷ key (codes "bids")
    ∷ start_array
    ∷ start_array
    ∷ string (codes "1")
    ∷ string (codes "2")
    ∷ [])

combined_lem_example :
    outcome (
      feed
        (Combined.handle true)
        (Combined.reset fresh_combined)
        (wrapped (codes "btcusdt@depth") (key (codes "e") ∷ string (codes "depthUpdate") ∷ []) 1))
    ≡ depth_outcome (
        feed Depth.handle
          (Depth.reset fresh_combined.depth)
          (start_object ∷ (key (codes "e") ∷ string (codes "depthUpdate") ∷ end_object 1 ∷ [])))
combined_lem_example =
    combined_lem true fresh_combined (codes "btcusdt@depth")
      (key (codes "e") ∷ string (codes "depthUpdate") ∷ []) 1 depth_stream refl

parse_event_lem_example :
    (parse_event true one_reader fresh_combined (codes "{}")).1
    ≡ some (
      batch (
          map (sent one_update bid) (good_rows one_update.bid_rows)
          ++ map (sent one_update ask) (good_rows one_update.ask_rows)),
      none,
    )
parse_event_lem_example =
    parse_event_lem true one_reader fresh_combined (codes "{}") (codes "btcusdt@depth") one_update
      fresh_depth-IsValid depth_stream refl few_bids few_asks

-- 67123.45 at eight decimal places, with seven digits before the point.
parse-printed_example :
    parse_fixed_decimal_string (printed 7 8 6_712_345_000_000) 8 ≡ some 6_712_345_000_000
parse-printed_example =
    parse-printed 7 8 6_712_345_000_000 (omega arith) (omega arith) (omega arith) (omega arith)
