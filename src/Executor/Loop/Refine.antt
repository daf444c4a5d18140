-- ===== src/Executor/Loop/Refine.antt =====
-- The rounds of the executor, on queues.
mod Tests
use hft_demo.Common.{
  ℕ, zero, suc, ◌*◌, ◌≡◌, refl, ap, sym, ◌∙◌, Bool, true, false, not, List, [], ◌∷◌, inl, inr,
  Bool-cases, arith, if◌then◌else◌,
}
use hft_demo.Market.{
  Symbol, Order, LatencyNsSample, empty_order, order_length, latency_length, price_shift,
}
use hft_demo.Ring.{Ring, ReadResult, success, buffer_is_empty, consumer_is_disabled, read, write}
use hft_demo.Ring.Queue.{
  Queue, live, lost, queue_read, queue_write, view, IsValid, read_refines, read-IsValid,
  write_refines, write-IsValid,
}
use hft_demo.Ring.Default.{read_default}
use hft_demo.Feeder.{TraderId, ByTraderId, at, put_at}
use hft_demo.Executor.{sample_of}
use hft_demo.Executor.Loop.{
  ExecutorState, Visit, after_order_read, visit, executor_step, IsReady, QueueState, no_sample,
  view_state, take_order, queue_visit, queue_step,
}

-- The contents of a trader's ring.
orders-IsValid :
    (id : TraderId) (s : ExecutorState) → IsReady s → IsValid order_length (at s.orders id)
orders-IsValid TraderId.btc_usdt s v = v.btc_orders
orders-IsValid TraderId.eth_usdt s v = v.eth_orders

-- What follows the read, for any result of it.
abbrev read_on_queue :
    TraderId → (now : ℕ) → QueueState → Queue Order × ReadResult × Order → QueueState × Bool
read_on_queue id now s (q, success, o) = (
  record {
    orders = put_at s.orders id q;
    latency = queue_write latency_length s.latency (sample_of now o);
    order = o;
  },
  true,
)
read_on_queue id now s (q, consumer_is_disabled, o) =
    (record { orders = put_at s.orders id q; latency = s.latency; order = o }, false)
read_on_queue id now s (q, buffer_is_empty, o) =
    (record { orders = put_at s.orders id q; latency = s.latency; order = o }, true)

put_at-same :
    {A : Type 0} (id : TraderId) (elems : ByTraderId A) {a : A}
    → at elems id ≡ a
    → put_at elems id a ≡ elems
put_at-same TraderId.btc_usdt elems e = ap (λ a. record elems { of_btc_usdt = a }) (sym e)
put_at-same TraderId.eth_usdt elems e = ap (λ a. record elems { of_eth_usdt = a }) (sym e)

read_on_queue_lem :
    (id : TraderId) (now : ℕ) (s : QueueState) (q : Queue Order)
    → at s.orders id ≡ q
    → read_on_queue id now s (queue_read q s.order) ≡ take_order id now s q
read_on_queue_lem id now s (live []) e =
    ap (λ (qs : ByTraderId (Queue Order)). (record s { orders = qs }, true))
      (put_at-same id s.orders e)
read_on_queue_lem id now s (live (o ∷ os)) e = refl
read_on_queue_lem id now s lost e =
    ap (λ (qs : ByTraderId (Queue Order)). (record s { orders = qs }, false))
      (put_at-same id s.orders e)

put_at-view :
    (id : TraderId) (s : ExecutorState) (ring : Ring Order) (latency : Ring LatencyNsSample)
    (o : Order)
    → view_state (record { orders = put_at s.orders id ring; latency = latency; order = o })
      ≡ record {
        orders = put_at (view_state s).orders id (view order_length empty_order ring);
        latency = view latency_length no_sample latency;
        order = o;
      }
put_at-view TraderId.btc_usdt s ring latency o = refl
put_at-view TraderId.eth_usdt s ring latency o = refl

put_at-IsReady :
    (id : TraderId) (s : ExecutorState) (ring : Ring Order) (latency : Ring LatencyNsSample)
    (o : Order)
    → IsReady s
    → IsValid order_length ring
    → IsValid latency_length latency
    → IsReady (record { orders = put_at s.orders id ring; latency = latency; order = o })
put_at-IsReady TraderId.btc_usdt s ring latency o v v' v'' = record {
  btc_orders = v';
  eth_orders = v.eth_orders;
  latency = v'';
}
put_at-IsReady TraderId.eth_usdt s ring latency o v v' v'' = record {
  btc_orders = v.btc_orders;
  eth_orders = v';
  latency = v'';
}

-- The branches behind the read.
read_lem :
    (id : TraderId) (now : ℕ) (s : ExecutorState) (r : Ring Order × ReadResult × Order)
    → IsReady s
    → IsValid order_length r.0
    → ((view_state (after_order_read id now s r).0, (after_order_read id now s r).1)
        ≡ read_on_queue id now (view_state s) (view order_length empty_order r.0, r.1, r.2))
      × IsReady (after_order_read id now s r).0
unfolding after_order_read
read_lem id now s (ring, success, o) v v' = (
  ap (λ (q : QueueState). (q, true))
      (put_at-view id s ring (write latency_length s.latency (sample_of now o)) o
        ∙ ap
            (λ (l : Queue LatencyNsSample). record {
              orders = put_at (view_state s).orders id (view order_length empty_order ring);
              latency = l;
              order = o;
            })
            (write_refines 14 (omega arith) no_sample s.latency (sample_of now o) v.latency)),
  put_at-IsReady id s ring (write latency_length s.latency (sample_of now o)) o v v'
      (write-IsValid 14 (omega arith) s.latency (sample_of now o) v.latency),
)
read_lem id now s (ring, consumer_is_disabled, o) v v' = (
  ap (λ (q : QueueState). (q, false)) (put_at-view id s ring s.latency o),
  put_at-IsReady id s ring s.latency o v v' v.latency,
)
read_lem id now s (ring, buffer_is_empty, o) v v' = (
  ap (λ (q : QueueState). (q, true)) (put_at-view id s ring s.latency o),
  put_at-IsReady id s ring s.latency o v v' v.latency,
)

pub at-view :
    (id : TraderId) (s : ExecutorState)
    → at (view_state s).orders id ≡ view order_length empty_order (at s.orders id)
at-view TraderId.btc_usdt s = refl
at-view TraderId.eth_usdt s = refl

pub visit_refines :
    (id : TraderId) (w : Visit) (s : ExecutorState)
    → IsReady s
    → ((view_state (visit id w s).0, (visit id w s).1) ≡ queue_visit id w (view_state s))
      × IsReady (visit id w s).0
unfolding visit
visit_refines id w s v =
    let r = read order_length (at s.orders id) s.order in
    let valid = orders-IsValid id s v in
    let (same, ready) =
      read_lem id w.now s r v (read-IsValid 10 (omega arith) (at s.orders id) s.order valid) in
    elim (Bool-cases w.is_producer_alive) [
      | inr dead ↦ rw (dead) (refl, v)
      | inl lives ↦ rw (lives) (
        same
            ∙ ap (read_on_queue id w.now (view_state s)) (
                read_default 10 (omega arith) empty_order (at s.orders id) s.order valid
                ∙ ap (λ q. queue_read q s.order) (sym (at-view id s)))
            ∙ read_on_queue_lem id w.now (view_state s) (at (view_state s).orders id) refl,
        ready,
      )
    ]

-- The second visit, which the first one's result allows or not.
abbrev second : Visit → QueueState × Bool → QueueState × Bool
second w (s, ok) = let last = queue_visit TraderId.eth_usdt w s in if ok then last else (s, false)

second_refines :
    (w : Visit) (s : ExecutorState) (ok : Bool)
    → IsReady s
    → let after = if ok then visit TraderId.eth_usdt w s else (s, false) in
      ((view_state after.0, after.1) ≡ second w (view_state s, ok)) × IsReady after.0
second_refines w s true v = visit_refines TraderId.eth_usdt w s v
second_refines w s false v = (refl, v)

-- Where its rings are valid, a round of the executor's loop leaves them valid and does on them what
-- the round does on queues: it takes the oldest order of each trader in turn and writes its sample,
-- and stops at the first trader that is dead or whose queue is lost.
pub executor_step_refines :
    (vs : ByTraderId Visit) (s : ExecutorState)
    → IsReady s
    → ((view_state (executor_step vs s).0, (executor_step vs s).1) ≡ queue_step vs (view_state s))
      × IsReady (executor_step vs s).0
unfolding executor_step
executor_step_refines vs s v =
    let (first, ready) = visit_refines TraderId.btc_usdt vs.of_btc_usdt s v in
    let s' = visit TraderId.btc_usdt vs.of_btc_usdt s in
    let (last, ready') = second_refines vs.of_eth_usdt s'.0 s'.1 ready in
    (last ∙ ap (second vs.of_eth_usdt) first, ready')
