-- ===== src/Feeder/Message/Tests.antt =====
-- Tests of the feeder's loop.
use hft_demo.Common.{ℕ, ◌+◌, ◌^◌, ◌≡◌, refl, arith, true}
use hft_demo.Common.Bytes.{codes}
use hft_demo.Market.{empty_update, empty_trade}
use hft_demo.Ring.{new_ring}
use hft_demo.Ring.Queue.{new_ring-IsValid}
use hft_demo.Parser.Fixtures.{
  fresh_combined, fresh_depth-IsValid, one_reader, one_update, depth_stream, few_bids, few_asks,
}
use hft_demo.Feeder.{TraderId, ByTraderId, MarketDataBuffers}
use hft_demo.Feeder.Routing.{IsReady}
use hft_demo.Feeder.Loop.{feeder_step, own_updates}
use hft_demo.Feeder.Loop.Refine.{queue_writes, held}
use hft_demo.Feeder.Message.{levels_batch, message_lem}

abbrev new_buffers : MarketDataBuffers
new_buffers = record {
  order_book_updates = new_ring (2 ^ 3) empty_update;
  trades = new_ring (2 ^ 3) empty_trade;
}

abbrev both_buffers : ByTraderId MarketDataBuffers
both_buffers = record { of_btc_usdt = new_buffers; of_eth_usdt = new_buffers }

both_buffers-IsReady : IsReady 3 both_buffers
both_buffers-IsReady = record {
  btc_updates = new_ring-IsValid 3 (omega arith) empty_update;
  btc_trades = new_ring-IsValid 3 (omega arith) empty_trade;
  eth_updates = new_ring-IsValid 3 (omega arith) empty_update;
  eth_trades = new_ring-IsValid 3 (omega arith) empty_trade;
}

abbrev ticks : ℕ → ℕ
ticks i = 60 + i

message_lem_example :
    let after =
      (feeder_step
        (2 ^ 3)
        50
        ticks
        true
        one_reader
        (codes "{}")
        (fresh_combined, both_buffers)).1 in
    held 3 (omega arith) empty_update empty_trade after TraderId.btc_usdt ≡ (
      queue_writes
          (2 ^ 3)
          (held 3 (omega arith) empty_update empty_trade both_buffers TraderId.btc_usdt).0
          (own_updates (2 ^ 3) 50 ticks TraderId.btc_usdt 0 (levels_batch one_update)),
      (held 3 (omega arith) empty_update empty_trade both_buffers TraderId.btc_usdt).1,
    )
message_lem_example =
    message_lem 3 (omega arith) empty_update empty_trade 50 ticks true one_reader (codes "{}")
      (codes "btcusdt@depth") fresh_combined both_buffers one_update TraderId.btc_usdt
      both_buffers-IsReady fresh_depth-IsValid depth_stream refl few_bids few_asks
