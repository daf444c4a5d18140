-- ===== src/Trader/Invariant.antt =====
-- A trader beside its neighbours: the feeder writes to its rings and the executor reads from one
-- while the trader goes round its loop in trader/trader.cpp.
mod Tests
use hft_demo.Common.{
  ℕ, ◌+◌, ◌≡◌, refl, ap, subst, sym, ◌∙◌, Bool, true, false, not, List, [], ◌∷◌, Option, none, some,
  inl, inr, Bool-cases, arith, if◌then◌else◌,
}
use hft_demo.Market.{
  OrderBookUpdate, Trade, Order, OrderBookSnapshot, empty_update, empty_order, market_data_length,
  order_length, order_book_depth,
}
use hft_demo.Book.{Book, empty_book}
use hft_demo.Book.Top.{IsBook, empty_book-IsBook}
use hft_demo.Flow.{Window, new_window, default_window_us}
use hft_demo.Ring.{Ring, new_ring, write, read, reset_consumer}
use hft_demo.Ring.Queue.{
  Queue, live, lost, view, IsValid, write-IsValid, read-IsValid, reset-IsValid, new_ring-IsValid,
}
use hft_demo.Parser.Events.{Reader}
use hft_demo.Parser.Snapshot.{SnapshotSax}
use hft_demo.Parser.Calls.{parse_order_book_snapshot}
use hft_demo.Feeder.{TraderId}
use hft_demo.Trader.{Stamps, create_order}
use hft_demo.Trader.Updates.{IsOrderly, apply_update-IsBook}
use hft_demo.Trader.Trades.{queue_trade}
use hft_demo.Trader.Loop.{
  Processor, Verdict, again, returns, take_update, stopped, alive, consume, consume-nil,
  consume-step, queue_update,
}
use hft_demo.Trader.Main.{TraderState, Surroundings, trader_step, IsReady}
use hft_demo.Trader.Main.Refine.{
  QueueState, view_state, queue_order_step, queue_trade_step, queue_step, trader_step_refines,
}

-- The state of `RunTrader` before its loop, on the rings that the feeder has made and on a new ring
-- of orders, with both consumers reset.
abbrev pub started : SnapshotSax → Ring OrderBookUpdate → Ring Trade → TraderState
started h updates trades = record {
  updates = reset_consumer updates;
  trades = reset_consumer trades;
  orders = new_ring order_length empty_order;
  processor = record {
    handler = h;
    order_book = empty_book order_book_depth;
    stamps = record {
      feeder_read_steady_ns = 0;
      feeder_write_steady_ns = 0;
      trader_read_steady_ns = 0;
    };
  };
  window = new_window default_window_us;
  last_order = empty_order;
  order = empty_order;
}

-- Every snapshot that the exchange answers has its levels in strict price order.
abbrev pub AnswersOrderly : Reader → Surroundings → Type 0
AnswersOrderly reader env =
    (i : ℕ) (h : SnapshotSax) (s : OrderBookSnapshot)
    → (parse_order_book_snapshot reader h (env.responses i)).1 ≡ some s
    → IsOrderly s

-- A step of the feeder, of the executor, or of the trader itself while its process runs.
pub data Step (reader : Reader) (id : TraderId) (s : TraderState)
    : Bool → TraderState → Bool → Type 0 where
  feeds_update :
      {runs : Bool} (u : OrderBookUpdate)
      → Step reader id s runs (record s { updates = write market_data_length s.updates u }) runs
  feeds_trade :
      {runs : Bool} (t : Trade)
      → Step reader id s runs (record s { trades = write market_data_length s.trades t }) runs
  reads_order :
      {runs : Bool} (out : Order)
      → Step reader id s runs (record s { orders = (read order_length s.orders out).0 }) runs
  goes_round :
      {s' : TraderState} {ok : Bool} (env : Surroundings)
      → AnswersOrderly reader env
      → trader_step reader id env s ≡ some (s', ok)
      → Step reader id s true s' ok

pub data Steps (reader : Reader) (id : TraderId) (s : TraderState)
    : TraderState → Bool → Type 0 where
  here : Steps reader id s s true
  later :
      {t u : TraderState} {runs runs' : Bool}
      → Steps reader id s t runs
      → Step reader id t runs u runs'
      → Steps reader id s u runs'

module _ (reader : Reader) (id : TraderId) (env : Surroundings)
    (orderly : AnswersOrderly reader env) where
  stopped-IsBook :
      (us : List OrderBookUpdate) (step : Processor × Verdict)
      (next : (List OrderBookUpdate × Processor) × Bool)
      → IsBook order_book_depth step.0.order_book
      → IsBook order_book_depth next.0.1.order_book
      → IsBook order_book_depth (stopped us step next).0.1.order_book
  stopped-IsBook us (p, again) next v v' = v'
  stopped-IsBook us (p, returns ok) next v v' = v

  consume-IsBook :
      (i : ℕ) (us : List OrderBookUpdate) (p : Processor)
      → IsBook order_book_depth p.order_book
      → IsBook order_book_depth
          (consume reader env.responses env.clock empty_update i us p).0.1.order_book
  unfolding take_update
  consume-IsBook i [] p v = rw (consume-nil reader env.responses env.clock empty_update i p) v
  consume-IsBook i (u ∷ us) p v =
      let v' =
        apply_update-IsBook reader (env.responses i) p.handler p.order_book u (orderly i p.handler)
          v in
      rw (consume-step reader env.responses env.clock empty_update i u us p)
        (stopped-IsBook us _ _ v' (consume-IsBook (i + 1) us _ v'))

  queue_update-IsBook :
      (q : Queue OrderBookUpdate) (p : Processor)
      → IsBook order_book_depth p.order_book
      → IsBook order_book_depth
          (queue_update reader env.responses env.clock empty_update 0 q p).0.1.order_book
  queue_update-IsBook (live us) p v = consume-IsBook 0 us p v
  queue_update-IsBook lost p v = v

  queue_order_step-book :
      (now : ℕ) (s : QueueState) → (queue_order_step id now s).processor ≡ s.processor
  queue_order_step-book now s = ground arith

  queue_trade_step-book :
      (s : QueueState) → (queue_trade_step id env s).0.processor.order_book ≡ s.processor.order_book
  queue_trade_step-book s = ground arith

  queue_step-IsBook :
      (s : QueueState)
      → IsBook order_book_depth s.processor.order_book
      → IsBook order_book_depth (queue_step reader id env s).0.processor.order_book
  queue_step-IsBook s v =
      let after =
        queue_update reader env.responses env.clock empty_update 0 s.updates s.processor in
      let v' = queue_update-IsBook s.updates s.processor v in
      let s' = record s { updates = after.0.0; processor = after.0.1 } in
      elim (Bool-cases env.is_producer_alive) [
        | inr dead ↦ rw (dead) v
        | inl lives ↦ elim (Bool-cases after.1) [
          | inr failed ↦ rw (lives, failed) v'
          | inl ok ↦
              rw (lives, ok) (subst (IsBook order_book_depth) (sym (queue_trade_step-book s')) v')
        ]
      ]

  -- A round of the trader returns, with its rings and its book valid.
  pub trader_step-IsReady :
      (s : TraderState)
      → IsReady s
      → IsBook order_book_depth s.processor.order_book
      → (s' : TraderState) × (ok : Bool) × (trader_step reader id env s ≡ some (s', ok))
        × IsReady s'
        × IsBook order_book_depth s'.processor.order_book
  trader_step-IsReady s ready v =
      let (s', ok, e, same, ready') = trader_step_refines reader id env s ready in
      (
        s',
        ok,
        e,
        ready',
        subst (λ (t : QueueState × Bool). IsBook order_book_depth t.0.processor.order_book)
            (sym same) (queue_step-IsBook (view_state s) v),
      )

module _ {reader : Reader} {id : TraderId} where
  pub Step-IsReady :
      {s t : TraderState} {runs runs' : Bool}
      → Step reader id s runs t runs'
      → IsReady s
      → IsBook order_book_depth s.processor.order_book
      → IsReady t × IsBook order_book_depth t.processor.order_book
  Step-IsReady {s} (feeds_update u) ready v = (
    record {
      updates = write-IsValid 12 (omega arith) s.updates u ready.updates;
      trades = ready.trades;
      orders = ready.orders;
    },
    v,
  )
  Step-IsReady {s} (feeds_trade t) ready v = (
    record {
      updates = ready.updates;
      trades = write-IsValid 12 (omega arith) s.trades t ready.trades;
      orders = ready.orders;
    },
    v,
  )
  Step-IsReady {s} (reads_order out) ready v = (
    record {
      updates = ready.updates;
      trades = ready.trades;
      orders = read-IsValid 10 (omega arith) s.orders out ready.orders;
    },
    v,
  )
  Step-IsReady {s} (goes_round {s' = t} {ok} env orderly e) ready v =
      let (s', ok', e', ready', v') = trader_step-IsReady reader id env orderly s ready v in
      let same : s' ≡ t = cc (e, e') in
      (
        subst IsReady same ready',
        subst (λ (t : TraderState). IsBook order_book_depth t.processor.order_book) same v',
      )

  Steps-IsReady :
      {s t : TraderState} {runs : Bool}
      → Steps reader id s t runs
      → IsReady s
      → IsBook order_book_depth s.processor.order_book
      → IsReady t × IsBook order_book_depth t.processor.order_book
  Steps-IsReady here ready v = (ready, v)
  Steps-IsReady (later r st) ready v =
      let (ready', v') = Steps-IsReady r ready v in Step-IsReady st ready' v'

pub started-IsReady :
    (h : SnapshotSax) (updates : Ring OrderBookUpdate) (trades : Ring Trade)
    → IsValid market_data_length updates
    → IsValid market_data_length trades
    → IsReady (started h updates trades)
started-IsReady h updates trades v v' = record {
  updates = reset-IsValid 12 (omega arith) updates v;
  trades = reset-IsValid 12 (omega arith) trades v';
  orders = new_ring-IsValid 10 (omega arith) empty_order;
}

-- However the feeder's writes, the executor's reads and the trader's rounds follow each other, from
-- a start on valid rings and with an exchange whose snapshots have their levels in strict price order,
-- the trader's rings and its book stay valid, and a further round with such an exchange returns.
pub trader_invariant :
    (reader : Reader) (id : TraderId) (h : SnapshotSax) (updates : Ring OrderBookUpdate)
    (trades : Ring Trade) (t : TraderState) (runs : Bool) (env : Surroundings)
    → IsValid market_data_length updates
    → IsValid market_data_length trades
    → Steps reader id (started h updates trades) t runs
    → AnswersOrderly reader env
    → IsReady t
      × IsBook order_book_depth t.processor.order_book
      × (s' : TraderState) × (ok : Bool) × (trader_step reader id env t ≡ some (s', ok))
      × IsReady s'
      × IsBook order_book_depth s'.processor.order_book
trader_invariant reader id h updates trades t runs env v v' steps orderly =
    let (ready, valid) =
      Steps-IsReady steps (started-IsReady h updates trades v v')
        (empty_book-IsBook order_book_depth) in
    let (s', ok, e, ready', valid') = trader_step-IsReady reader id env orderly t ready valid in
    (ready, valid, s', ok, e, ready', valid')
