-- ===== src/Parser/Fixtures.antt =====
-- Handlers as the program starts with them, and a depth message, for the tests.
use hft_demo.Common.{
  ℕ, ◌≡◌, ◌≤◌, refl, arith, true, false, [], ◌∷◌, length, length-replicate, take, replicate,
}
use hft_demo.Common.Bytes.{codes, bytes_eq}
use hft_demo.Market.{empty_trade, empty_snapshot, unknown}
use hft_demo.Parser.Fields.{is_depth_stream, ends_with}
use hft_demo.Parser.Events.{Reader}
use hft_demo.Parser.Depth
use hft_demo.Parser.Depth.{DepthSax, release}
use hft_demo.Parser.Depth.Invariant
use hft_demo.Parser.Rows.{good_rows, length-good_rows}
use hft_demo.Parser.Depth.Document.{Update}
use hft_demo.Parser.Trade
use hft_demo.Parser.Trade.{TradeSax}
use hft_demo.Parser.Snapshot.{SnapshotSax}
use hft_demo.Parser.Combined.{CombinedSax, stream_cap}
use hft_demo.Parser.Combined.Inside.{wrapped}
use hft_demo.Parser.Calls.Event.{body}

abbrev pub fresh_depth : DepthSax
fresh_depth = record {
  object_depth = 0;
  array_depth = 0;
  pending = Depth.DepthPending.none;
  valid_event_type = false;
  event_timestamp_microseconds = 0;
  first_update_id = 0;
  last_update_id = 0;
  symbol = unknown;
  current_side_is_bid = false;
  stop_side_levels = false;
  row_string_idx = 0;
  row0 = [];
  bid_n = 0;
  ask_n = 0;
  bid_prices = replicate 5000 0;
  bid_qtys = replicate 5000 0;
  ask_prices = replicate 5000 0;
  ask_qtys = replicate 5000 0;
}

pub fresh_depth-IsValid : Invariant.IsValid fresh_depth
fresh_depth-IsValid = record {
  objects = omega arith;
  arrays = omega arith;
  row_index = omega arith;
  row_buffer = omega arith;
  bids_in = omega arith;
  asks_in = omega arith;
  bid_prices_whole = length-replicate {A = ℕ} 5000 0;
  bid_qtys_whole = length-replicate {A = ℕ} 5000 0;
  ask_prices_whole = length-replicate {A = ℕ} 5000 0;
  ask_qtys_whole = length-replicate {A = ℕ} 5000 0;
}

abbrev pub one_update : Update
one_update = record {
  event_time = 1_700_000_000_000;
  symbol_text = codes "BTCUSDT";
  first_id = 5;
  last_id = 6;
  bid_rows = (codes "9.5", codes "1") ∷ (codes "9.x", codes "1") ∷ [];
  ask_rows = (codes "9.6", codes "2") ∷ [];
}

pub few_bids : length (good_rows one_update.bid_rows) ≤ 5000
few_bids = omega (arith, length-good_rows one_update.bid_rows)

pub few_asks : length (good_rows one_update.ask_rows) ≤ 5000
few_asks = omega (arith, length-good_rows one_update.ask_rows)

abbrev pub fresh_trade : TradeSax
fresh_trade = record {
  object_depth = 0;
  pending = Trade.TradePending.nothing;
  valid_event_type = false;
  have_price = false;
  have_qty = false;
  have_buyer_maker = false;
  out = empty_trade;
}

abbrev pub fresh_snapshot : SnapshotSax
fresh_snapshot = record {
  object_depth = 0;
  array_depth = 0;
  pending_snapshot = 0;
  in_bids = false;
  in_asks = false;
  bids_side_done = false;
  asks_side_done = false;
  row_string_idx = 0;
  row0 = [];
  out = empty_snapshot;
}

abbrev pub fresh_combined : CombinedSax
fresh_combined = record {
  root_depth = 0;
  pending_stream_string = false;
  have_stream = false;
  stream = [];
  expect_data_object = false;
  saw_data = false;
  in_data = false;
  data_is_depth = false;
  pending_data_release = false;
  pending_data_is_depth = false;
  depth = fresh_depth;
  trade = fresh_trade;
}

pub depth_stream : is_depth_stream (take stream_cap (codes "btcusdt@depth")) ≡ true
unfolding is_depth_stream ends_with bytes_eq
depth_stream = refl

-- A reader that finds the same message in every text.
abbrev pub one_reader : Reader
one_reader json = (wrapped (codes "btcusdt@depth") (body one_update) 7, true)
