-- ===== src/System/Order.antt =====
-- An order, from the trader's decision to the executor's latency sample.
mod Tests
use hft_demo.Common.{
  ℕ, ◌+◌, ◌-◌, ◌<◌, ◌≤◌, ◌≡◌, refl, ap, ap₂, sym, ◌∙◌, Bool, true, false, List, [], ◌∷◌, ◌++◌,
  arith, ◌==◌, if◌then◌else◌, length,
}
use hft_demo.Market.{Order, LatencyNsSample, empty_order, order_length, latency_length}
use hft_demo.Ring.{Ring, write}
use hft_demo.Ring.Queue.{Queue, live, queue_write, view, IsValid, write_refines}
use hft_demo.Feeder.{TraderId, ByTraderId, at, put_at}
use hft_demo.Trader.{set_to_order, create_order}
use hft_demo.Trader.Times.{AreOrdered}
use hft_demo.Trader.Main
use hft_demo.Trader.Main.{TraderState, symbol_for_trader, order_step}
use hft_demo.Executor.{sample_of, monotonic_delta_ns, IsInOrder, sample_of_lem}
use hft_demo.Executor.Loop.{
  ExecutorState, Visit, IsReady, QueueState, no_sample, view_state, take_order, queue_visit, visit,
}
use hft_demo.Executor.Loop.Refine.{visit_refines, at-view}

-- The order that `CreateOrder` leaves, as it is sent.
abbrev pub sent_order : TraderId → (write_time : ℕ) → TraderState → Order
sent_order id write_time s =
    let (last, order, is_sent) =
      create_order s.processor.order_book s.window s.last_order s.order in
    record (set_to_order s.processor.stamps (record order { symbol = symbol_for_trader id })) {
      trader_write_steady_ns = write_time;
    }

order_step-orders :
    (id : TraderId) (write_time : ℕ) (s : TraderState)
    → (create_order s.processor.order_book s.window s.last_order s.order).2 ≡ true
    → (order_step id write_time s).orders ≡ write order_length s.orders (sent_order id write_time s)
unfolding order_step
order_step-orders id write_time s is_sent = rw (is_sent) refl

taken-latency :
    (id : TraderId) (now : ℕ) (s : QueueState) (o : Order) (os : List Order)
    → (take_order id now s (live (o ∷ os))).0.latency
      ≡ queue_write latency_length s.latency (sample_of now o)
taken-latency id now s o os = refl

-- Where `CreateOrder` decides for an order, the trader's ring of orders is empty, the ring of samples
-- has room, the trader's times are in order from a time other than 0 to the time of the write, and
-- the visit is not before the write, the executor's visit of the trader takes that order from the
-- shared ring and writes its sample, whose total is the time since the feeder's read and the sum of
-- its four parts.
pub order_measured :
    (id : TraderId) (write_time now : ℕ) (s : TraderState) (x : ExecutorState)
    (samples : List LatencyNsSample)
    → Main.IsReady s
    → IsReady x
    → at x.orders id ≡ (order_step id write_time s).orders
    → view order_length empty_order s.orders ≡ live []
    → view latency_length no_sample x.latency ≡ live samples
    → length samples + 1 < latency_length
    → (create_order s.processor.order_book s.window s.last_order s.order).2 ≡ true
    → 0 < s.processor.stamps.feeder_read_steady_ns
    → AreOrdered write_time s.processor.stamps
    → write_time ≤ now
    → let (x', ok) = visit id (record { is_producer_alive = true; now = now }) x in
      let sample = sample_of now (sent_order id write_time s) in
      (ok ≡ true)
      × (x'.order ≡ sent_order id write_time s)
      × (view latency_length no_sample x'.latency ≡ live (samples ++ sample ∷ []))
      × (sample.delta_total ≡ now - s.processor.stamps.feeder_read_steady_ns)
      × (sample.delta_total
          ≡ sample.delta_feeder_ns + sample.delta_md_queue_ns + sample.delta_trader_ns
            + sample.delta_order_queue_ns)
unfolding sample_of monotonic_delta_ns
order_measured id write_time now s x samples ready ready' shared idle sampled room is_sent begun
      ordered sent =
    let o = sent_order id write_time s in
    let in_order : IsInOrder now o = record {
      started = begun;
      feeder = ordered.sent;
      queued = ordered.queued;
      decided = ordered.taken;
      sent = sent;
    } in
    let w : Visit = record { is_producer_alive = true; now = now } in
    let queued : at (view_state x).orders id ≡ live (o ∷ []) =
      at-view id x
      ∙ ap (view order_length empty_order) (shared ∙ order_step-orders id write_time s is_sent)
      ∙ write_refines 10 (omega arith) empty_order s.orders o ready.orders
      ∙ ap (λ q. queue_write order_length q o) idle in
    let (same, ready'') = visit_refines id w x ready' in
    let taken = same ∙ ap (take_order id now (view_state x)) queued in
    let free : (length samples + 1 == latency_length) ≡ false = ground (arith, room) in
    (
      ap (λ t. t.1) taken,
      ap (λ (t : QueueState × Bool). t.0.order) taken,
      ap (λ (t : QueueState × Bool). t.0.latency) taken
          ∙ ap (λ q. queue_write latency_length q (sample_of now o)) sampled
          ∙ rw (free) refl,
      ground (arith, in_order),
      sample_of_lem now o in_order,
    )
