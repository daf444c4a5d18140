-- ===== src/Trader/Main/Refine.antt =====
-- The rounds of a trader, on queues.
mod Tests
use hft_demo.Common.{
  ℕ, ◌≡◌, refl, ap, sym, ◌∙◌, inl, inr, Bool, true, false, not, List, Option, none, some, arith,
  Bool-cases, if◌then◌else◌,
}
use hft_demo.Market.{
  Symbol, OrderBookUpdate, Trade, Order, empty_update, empty_trade, empty_order, market_data_length,
  order_length,
}
use hft_demo.Flow.{Window}
use hft_demo.Ring.{Ring, ReadResult, success, buffer_is_empty, consumer_is_disabled, write, read}
use hft_demo.Ring.Queue.{
  Queue, queue_write, view, IsValid, write_refines, write-IsValid, read-IsValid,
}
use hft_demo.Parser.Events.{Reader}
use hft_demo.Feeder.{TraderId}
use hft_demo.Trader.{Stamps, set_to_order, after_read, process_trade, create_order}
use hft_demo.Trader.Loop.{
  Processor, process_update, queue_update, process_update_returns, size-view,
}
use hft_demo.Trader.Trades.{queue_trade, seen_trade, process_trade_refines}
use hft_demo.Trader.Main.{
  symbol_for_trader, TraderState, Surroundings, order_step, trade_step, update_step, trader_step,
  IsReady,
}

-- The same rounds on queues.
pub record QueueState : Type 0 where
  pub updates : Queue OrderBookUpdate
  pub trades : Queue Trade
  pub orders : Queue Order
  pub processor : Processor
  pub window : Window
  pub last_order : Order
  pub order : Order

abbrev pub view_state : TraderState → QueueState
view_state s = record {
  updates = view market_data_length empty_update s.updates;
  trades = view market_data_length empty_trade s.trades;
  orders = view order_length empty_order s.orders;
  processor = s.processor;
  window = s.window;
  last_order = s.last_order;
  order = s.order;
}

-- An order that is sent is the one that `CreateOrder` leaves, with the trader's symbol, the stamps
-- and the time.
abbrev pub queue_order_step : TraderId → (write_time : ℕ) → QueueState → QueueState
queue_order_step id write_time s =
    let (last, order, is_sent) =
      create_order s.processor.order_book s.window s.last_order s.order in
    let sent =
      record (set_to_order s.processor.stamps (record order { symbol = symbol_for_trader id })) {
        trader_write_steady_ns = write_time;
      } in
    if is_sent
    then record s {
      last_order = last;
      order = sent;
      orders = queue_write order_length s.orders sent;
    }
    else record s { last_order = last; order = order }

abbrev pub queue_trade_step : TraderId → Surroundings → QueueState → QueueState × Bool
queue_trade_step id env s =
    let (trades, window, stamps, ok) =
      queue_trade s.trades s.window s.processor.stamps env.trade_time in
    let s' = record s {
      trades = trades;
      window = window;
      processor = record s.processor { stamps = stamps };
    } in
    if ok then (queue_order_step id env.write_time s', true) else (s', false)

abbrev pub queue_step : Reader → TraderId → Surroundings → QueueState → QueueState × Bool
queue_step reader id env s =
    let ((updates, p), ok) =
      queue_update reader env.responses env.clock empty_update 0 s.updates s.processor in
    let s' = record s { updates = updates; processor = p } in
    if not env.is_producer_alive
    then (s, false)
    else if ok
    then queue_trade_step id env s'
    else (s', false)

order_step_refines :
    (id : TraderId) (now : ℕ) (s : TraderState)
    → IsReady s
    → (view_state (order_step id now s) ≡ queue_order_step id now (view_state s))
      × IsReady (order_step id now s)
unfolding order_step
order_step_refines id now s v =
    let made = create_order s.processor.order_book s.window s.last_order s.order in
    let sent =
      record (set_to_order s.processor.stamps (record made.1 { symbol = symbol_for_trader id })) {
        trader_write_steady_ns = now;
      } in
    elim (Bool-cases made.2) [
      | inl is_sent ↦ rw (is_sent) (
        ap
            (λ (q : Queue Order). record (view_state s) {
              last_order = made.0;
              order = sent;
              orders = q;
            })
            (write_refines 10 (omega arith) empty_order s.orders sent v.orders),
        record {
          updates = v.updates;
          trades = v.trades;
          orders = write-IsValid 10 (omega arith) s.orders sent v.orders;
        },
      )
      | inr is_not ↦
          rw (is_not) (refl, record { updates = v.updates; trades = v.trades; orders = v.orders })
    ]

-- The rest of a round behind `ProcessTrade`.
traded :
    (id : TraderId) (env : Surroundings) (s : TraderState) (r : Ring Trade × Window × Stamps × Bool)
    → IsReady s
    → IsValid market_data_length r.0
    → process_trade market_data_length s.trades s.window s.processor.stamps empty_trade
        env.trade_time
      ≡ r
    → queue_trade
        (view market_data_length empty_trade s.trades)
        s.window
        s.processor.stamps
        env.trade_time
      ≡ seen_trade market_data_length empty_trade r
    → ((view_state (trade_step id env s).0, (trade_step id env s).1)
        ≡ queue_trade_step id env (view_state s))
      × IsReady (trade_step id env s).0
unfolding trade_step
traded id env s (trades, w, t, true) v v' e e' =
    rw (e, e')
      (let s' = record s {
        trades = trades;
        window = w;
        processor = record s.processor { stamps = t };
      } in
        let (same, ready) =
          order_step_refines id env.write_time s'
            (record { updates = v.updates; trades = v'; orders = v.orders }) in
        (ap (λ (q : QueueState). (q, true)) same, ready))
traded id env s (trades, w, t, false) v v' e e' =
    rw (e, e') (refl, record { updates = v.updates; trades = v'; orders = v.orders })

after_read-ring :
    (w : Window) (t : Stamps) (now : ℕ) (r : Ring Trade × ReadResult × Trade)
    → (after_read w t now r).0 ≡ r.0
unfolding after_read
after_read-ring w t now (ring, success, x) = refl
after_read-ring w t now (ring, consumer_is_disabled, x) = refl
after_read-ring w t now (ring, buffer_is_empty, x) = refl

process_trade-IsValid :
    (ring : Ring Trade) (w : Window) (t : Stamps) (now : ℕ)
    → IsValid market_data_length ring
    → IsValid market_data_length (process_trade market_data_length ring w t empty_trade now).0
unfolding process_trade
process_trade-IsValid ring w t now v =
    rw (after_read-ring w t now (read market_data_length ring empty_trade))
      (read-IsValid 12 (omega arith) ring empty_trade v)

trade_step_refines :
    (id : TraderId) (env : Surroundings) (s : TraderState)
    → IsReady s
    → ((view_state (trade_step id env s).0, (trade_step id env s).1)
        ≡ queue_trade_step id env (view_state s))
      × IsReady (trade_step id env s).0
trade_step_refines id env s v =
    let step =
      process_trade market_data_length s.trades s.window s.processor.stamps empty_trade
        env.trade_time in
    traded id env s step v
      (process_trade-IsValid s.trades s.window s.processor.stamps env.trade_time v.trades) refl
      (sym (
        process_trade_refines 12 s.trades s.window s.processor.stamps empty_trade env.trade_time
          (omega arith) v.trades))

-- The rest of a round behind `ProcessUpdate`.
updated :
    (id : TraderId) (env : Surroundings) (s : TraderState) (ring : Ring OrderBookUpdate)
    (p : Processor) (ok : Bool) {q : Queue OrderBookUpdate}
    → IsReady s
    → IsValid market_data_length ring
    → view market_data_length empty_update ring ≡ q
    → let sq = record (view_state s) { updates = q; processor = p } in
      (s' : TraderState) × (ok' : Bool) × (update_step id env s (some ((ring, p), ok))
        ≡ some (s', ok'))
      × ((view_state s', ok') ≡ (if ok then queue_trade_step id env sq else (sq, false)))
      × IsReady s'
unfolding update_step
updated id env s ring p true v v' same =
    let s' = record s { updates = ring; processor = p } in
    let (e, ready) =
      trade_step_refines id env s'
        (record { updates = v'; trades = v.trades; orders = v.orders }) in
    (
      (trade_step id env s').0,
      (trade_step id env s').1,
      refl,
      e
          ∙ ap (λ q. queue_trade_step id env (record (view_state s) { updates = q; processor = p }))
              same,
      ready,
    )
updated id env s ring p false v v' same = (
  record s { updates = ring; processor = p },
  false,
  refl,
  ap (λ q. (record (view_state s) { updates = q; processor = p }, false)) same,
  record { updates = v'; trades = v.trades; orders = v.orders },
)

-- Where its rings are valid, a round of the trader's loop ends within its fuel, leaves them valid,
-- and does on them what the round does on three queues: it stops at once for a dead feeder,
-- consumes updates, takes a trade, and sends the order that `CreateOrder` makes, if any.
pub trader_step_refines :
    (reader : Reader) (id : TraderId) (env : Surroundings) (s : TraderState)
    → IsReady s
    → (s' : TraderState) × (ok : Bool) × (trader_step reader id env s ≡ some (s', ok))
      × ((view_state s', ok) ≡ queue_step reader id env (view_state s))
      × IsReady s'
unfolding trader_step update_step
trader_step_refines reader id env s v =
    let (ring, e, same, valid) =
      process_update_returns reader env.responses env.clock empty_update 12 (omega arith)
        market_data_length 0 s.updates s.processor v.updates
        (size-view reader env.responses env.clock empty_update 12 (omega arith) s.updates
          v.updates) in
    let ((q, p), ok) =
      queue_update reader env.responses env.clock empty_update 0
        (view market_data_length empty_update s.updates) s.processor in
    elim (Bool-cases env.is_producer_alive) [
      | inr dead ↦ rw (dead) (s, false, refl, refl, v)
      | inl lives ↦
          rw (lives, e)
            (updated id (record env { is_producer_alive = true }) s ring p ok v valid same)
    ]
