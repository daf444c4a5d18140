-- ===== src/Feeder/Message.antt =====
-- A depth update of the combined stream, from the message to the queues of the traders.
mod Tests
use hft_demo.Common.{
  ℕ, ◌^◌, ◌≤◌, ◌≡◌, refl, ap, ◌∙◌, Bool, true, List, ◌++◌, Option, none, some, map, length, take,
  u32_mod,
}
use hft_demo.Market.{OrderBookUpdate, Trade, bid, ask}
use hft_demo.Ring.Queue.{Queue}
use hft_demo.Parser.Fields.{is_depth_stream}
use hft_demo.Parser.Events.{Reader}
use hft_demo.Parser.Depth.{max_depth_levels_per_side}
use hft_demo.Parser.Depth.Invariant.{IsValid}
use hft_demo.Parser.Depth.Release.{batch}
use hft_demo.Parser.Rows.{good_rows}
use hft_demo.Parser.Depth.Document.{Update, sent}
use hft_demo.Parser.Combined.{CombinedSax, Released, stream_cap}
use hft_demo.Parser.Combined.Inside.{wrapped}
use hft_demo.Parser.Calls.{parse_event}
use hft_demo.Parser.Calls.Event.{body, parse_event_lem}
use hft_demo.Feeder.{TraderId, ByTraderId, MarketDataBuffers}
use hft_demo.Feeder.Routing.{IsReady}
use hft_demo.Feeder.Loop.{feeder_step, own_updates, own_trades}
use hft_demo.Feeder.Loop.Refine.{queue_writes, updates_of, trade_of, held, feeder_step_lem}

-- The updates that a depth message stands for: its good levels, as one batch.
abbrev pub levels_batch : Update → List OrderBookUpdate
levels_batch u =
    batch (map (sent u bid) (good_rows u.bid_rows) ++ map (sent u ask) (good_rows u.ask_rows))

module _ (k : ℕ) (small : 2 ^ k ≤ u32_mod) (d : OrderBookUpdate) (d' : Trade) (read_ns : ℕ)
    (clock : ℕ → ℕ) where
  -- Where all rings are valid, of one length that is a power of two up to 2^32, and the reader finds
  -- in the message a combined message on a depth stream, a round with a valid depth handler writes
  -- the batch of its good levels, stamped, to the queue of updates of the trader of its symbol, and
  -- changes no other queue, given that each side has at most as many good rows as the handler has
  -- places.
  pub message_lem :
      (arrays : Bool) (reader : Reader) (message stream : List ℕ) (h : CombinedSax)
      (md : ByTraderId MarketDataBuffers) (u : Update) (id : TraderId)
      → IsReady k md
      → IsValid h.depth
      → is_depth_stream (take stream_cap stream) ≡ true
      → reader message ≡ (wrapped stream (body u) 7, true)
      → length (good_rows u.bid_rows) ≤ max_depth_levels_per_side
      → length (good_rows u.ask_rows) ≤ max_depth_levels_per_side
      → let after = (feeder_step (2 ^ k) read_ns clock arrays reader message (h, md)).1 in
        held k small d d' after id ≡ (
          queue_writes
              (2 ^ k)
              (held k small d d' md id).0
              (own_updates (2 ^ k) read_ns clock id 0 (levels_batch u)),
          (held k small d d' md id).1,
        )
  message_lem arrays reader message stream h md u id ready v is reads bids_fit asks_fit =
      let parsed = parse_event_lem arrays reader h message stream u v is reads bids_fit asks_fit in
      (feeder_step_lem k small d d' read_ns clock arrays reader message h md id ready).0
      ∙ ap
          (λ (r : Option Released). (
            queue_writes (2 ^ k) (held k small d d' md id).0
                (own_updates (2 ^ k) read_ns clock id 0 (updates_of r)),
            queue_writes (2 ^ k) (held k small d d' md id).1
                (own_trades (2 ^ k) read_ns clock id (trade_of r)),
          ))
          parsed
