-- ===== src/Trader/Times/Tests.antt =====
-- Tests of the times that a trader keeps.
use hft_demo.Common.{◌≡◌, sym, subst, ap, arith, ◌∙◌, false, true, Bool, some, [], ◌∷◌}
use hft_demo.Market.{
  OrderBookUpdate, Trade, empty_update, empty_trade, empty_snapshot, market_data_length,
  order_book_depth,
}
use hft_demo.Book.Top.{empty_book-IsBook}
use hft_demo.Ring.{Ring, new_ring, write, reset_consumer}
use hft_demo.Ring.Queue.{
  view, live, queue_write, new_ring-IsValid, write_refines, reset_refines, reset-IsValid,
}
use hft_demo.Parser.Events.{Reader}
use hft_demo.Parser.Snapshot.{SnapshotSax}
use hft_demo.Feeder.{TraderId}
use hft_demo.Trader.Main.{TraderState, Surroundings, trader_step, IsReady}
use hft_demo.Trader.Invariant.{started, started-IsReady, Step-IsReady, feeds_update}
use hft_demo.Trader.Times.{AreOrdered, UpdatesBy, TradesBy, trader_step-AreOrdered}

abbrev unread : Reader
unread json = ([], false)

abbrev handler : SnapshotSax
handler = record {
  object_depth = 0;
  array_depth = 0;
  pending_snapshot = 0;
  in_bids = false;
  in_asks = false;
  bids_side_done = false;
  asks_side_done = false;
  row_string_idx = 0;
  row0 = [];
  out = empty_snapshot;
}

abbrev surroundings : Surroundings
surroundings = record {
  is_producer_alive = true;
  responses = λ i. [];
  clock = λ i. 40;
  trade_time = 50;
  write_time = 60;
}

abbrev update : OrderBookUpdate
update = record empty_update {
  first_update_id = 1;
  last_update_id = 1;
  price = 7;
  quantity = 2;
  feeder_read_steady_ns = 20;
  feeder_write_steady_ns = 30;
}

abbrev new_updates : Ring OrderBookUpdate
new_updates = new_ring market_data_length empty_update

abbrev new_trades : Ring Trade
new_trades = new_ring market_data_length empty_trade

abbrev first : TraderState
first = started handler new_updates new_trades

abbrev fed : TraderState
fed = record first { updates = write market_data_length first.updates update }

fed-IsReady : IsReady fed
fed-IsReady =
    (Step-IsReady {reader = unread} {id = TraderId.btc_usdt} (feeds_update {runs = true} update)
      (started-IsReady handler new_updates new_trades
        (new_ring-IsValid 12 (omega arith) empty_update)
        (new_ring-IsValid 12 (omega arith) empty_trade))
      (empty_book-IsBook order_book_depth)).0

waiting : view market_data_length empty_update fed.updates ≡ live (update ∷ [])
waiting =
    write_refines 12 (omega arith) empty_update (reset_consumer new_updates) update
      (reset-IsValid 12 (omega arith) new_updates (new_ring-IsValid 12 (omega arith) empty_update))
    ∙ ap (λ q. queue_write market_data_length q update)
        (reset_refines 12 (omega arith) empty_update new_updates)

trader_step-AreOrdered_example :
    (s' : TraderState) × (ok : Bool) × (trader_step unread TraderId.btc_usdt surroundings fed
      ≡ some (s', ok))
    × AreOrdered 50 s'.processor.stamps
trader_step-AreOrdered_example =
    trader_step-AreOrdered unread TraderId.btc_usdt surroundings 35 (omega arith) (λ i. omega arith)
      (λ i. omega arith) fed fed-IsReady
      (record { sent = omega arith; queued = omega arith; taken = omega arith })
      (subst (UpdatesBy 35) (sym waiting) ((omega arith, omega arith), tt))
      (subst (TradesBy 35) (sym (reset_refines 12 (omega arith) empty_trade new_trades)) tt)
