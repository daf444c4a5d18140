-- ===== src/Trader/Times.antt =====
-- The times that TimestampHandler of trader/trader.cpp keeps, through the rounds of a trader.
mod Tests
use hft_demo.Common.{
  ℕ, ◌+◌, ◌≤◌, ◌≡◌, refl, sym, subst, max, Bool, true, false, not, List, [], ◌∷◌, Option, some, inl,
  inr, Bool-cases, All, arith, if◌then◌else◌,
}
use hft_demo.Market.{OrderBookUpdate, Trade, empty_update, empty_trade, market_data_length}
use hft_demo.Ring.Queue.{Queue, live, lost, view}
use hft_demo.Parser.Events.{Reader}
use hft_demo.Feeder.{TraderId}
use hft_demo.Trader.{Stamps, update_stamps, create_order}
use hft_demo.Trader.Trades.{queue_trade}
use hft_demo.Trader.Loop.{
  Processor, Verdict, again, returns, take_update, stopped, alive, consume, consume-nil,
  consume-step, queue_update,
}
use hft_demo.Trader.Main.{TraderState, Surroundings, trader_step, IsReady}
use hft_demo.Trader.Main.Refine.{
  QueueState, view_state, queue_order_step, queue_trade_step, queue_step, trader_step_refines,
}

-- The three times are in order, and none is later than `now`.
pub record AreOrdered (now : ℕ) (t : Stamps) : Type 0 where
  pub sent : t.feeder_read_steady_ns ≤ t.feeder_write_steady_ns
  pub queued : t.feeder_write_steady_ns ≤ t.trader_read_steady_ns
  pub taken : t.trader_read_steady_ns ≤ now

-- What the feeder has written, by the time `now`.
abbrev pub WrittenBy : (now read_ns write_ns : ℕ) → Type 0
WrittenBy now read_ns write_ns = (read_ns ≤ write_ns) × (write_ns ≤ now)

abbrev pub QueuedBy : {A : Type 0} → (A → Type 0) → Queue A → Type 0
QueuedBy P (live xs) = All P xs
QueuedBy P lost = Unit {0}

abbrev pub UpdatesBy : ℕ → Queue OrderBookUpdate → Type 0
UpdatesBy now = QueuedBy (λ u. WrittenBy now u.feeder_read_steady_ns u.feeder_write_steady_ns)

abbrev pub TradesBy : ℕ → Queue Trade → Type 0
TradesBy now = QueuedBy (λ t. WrittenBy now t.feeder_read_steady_ns t.feeder_write_steady_ns)

later-AreOrdered : {now now' : ℕ} {t : Stamps} → now ≤ now' → AreOrdered now t → AreOrdered now' t
later-AreOrdered h v = record { sent = v.sent; queued = v.queued; taken = omega (arith, v.taken) }

update_stamps-AreOrdered :
    (t : Stamps) (start now read_ns write_ns : ℕ)
    → start ≤ now
    → AreOrdered now t
    → WrittenBy start read_ns write_ns
    → AreOrdered now (update_stamps t read_ns write_ns now)
update_stamps-AreOrdered t start now read_ns write_ns h v w = record {
  sent = omega (arith, v.sent, v.queued, v.taken, w);
  queued = omega (arith, v.sent, v.queued, v.taken, w);
  taken = omega arith;
}

module _ (reader : Reader) (id : TraderId) (env : Surroundings) (start : ℕ)
    (begins : start ≤ env.clock 0) (ticks : (i : ℕ) → env.clock i ≤ env.clock (i + 1))
    (ends : (i : ℕ) → env.clock i ≤ env.trade_time) where
  stopped-AreOrdered :
      (us : List OrderBookUpdate) (step : Processor × Verdict)
      (next : (List OrderBookUpdate × Processor) × Bool)
      → AreOrdered env.trade_time step.0.stamps
      → AreOrdered env.trade_time next.0.1.stamps
      → AreOrdered env.trade_time (stopped us step next).0.1.stamps
  stopped-AreOrdered us (p, again) next v v' = v'
  stopped-AreOrdered us (p, returns ok) next v v' = v

  consume-AreOrdered :
      (i : ℕ) (us : List OrderBookUpdate) (p : Processor)
      → start ≤ env.clock i
      → AreOrdered (env.clock i) p.stamps
      → UpdatesBy start (live us)
      → AreOrdered env.trade_time
          (consume reader env.responses env.clock empty_update i us p).0.1.stamps
  unfolding take_update
  consume-AreOrdered i [] p h v ws =
      rw (consume-nil reader env.responses env.clock empty_update i p) (later-AreOrdered (ends i) v)
  consume-AreOrdered i (u ∷ us) p h v ws =
      let v' =
        update_stamps-AreOrdered p.stamps start (env.clock i) u.feeder_read_steady_ns
          u.feeder_write_steady_ns h v ws.0 in
      rw (consume-step reader env.responses env.clock empty_update i u us p) (
        stopped-AreOrdered us _ _ (later-AreOrdered (ends i) v') (
          consume-AreOrdered (i + 1) us _ (omega (arith, ticks i)) (later-AreOrdered (ticks i) v')
            ws.1))

  queue_update-AreOrdered :
      (q : Queue OrderBookUpdate) (p : Processor)
      → AreOrdered start p.stamps
      → UpdatesBy start q
      → AreOrdered env.trade_time
          (queue_update reader env.responses env.clock empty_update 0 q p).0.1.stamps
  queue_update-AreOrdered (live us) p v ws =
      consume-AreOrdered 0 us p begins (later-AreOrdered begins v) ws
  queue_update-AreOrdered lost p v ws = later-AreOrdered (omega (arith, begins, ends 0)) v

  queue_trade-AreOrdered :
      (q : Queue Trade) (s : QueueState)
      → AreOrdered env.trade_time s.processor.stamps
      → TradesBy start q
      → AreOrdered env.trade_time (queue_trade q s.window s.processor.stamps env.trade_time).2
  queue_trade-AreOrdered (live []) s v ws = v
  queue_trade-AreOrdered (live (x ∷ xs)) s v ws =
      update_stamps-AreOrdered s.processor.stamps start env.trade_time x.feeder_read_steady_ns
        x.feeder_write_steady_ns (omega (arith, begins, ends 0)) v ws.0
  queue_trade-AreOrdered lost s v ws = v

  traded-stamps :
      (s : QueueState)
      → (queue_trade_step id env s).0.processor.stamps
        ≡ (queue_trade s.trades s.window s.processor.stamps env.trade_time).2
  traded-stamps s = ground arith

  queue_step-AreOrdered :
      (s : QueueState)
      → AreOrdered start s.processor.stamps
      → UpdatesBy start s.updates
      → TradesBy start s.trades
      → AreOrdered env.trade_time (queue_step reader id env s).0.processor.stamps
  queue_step-AreOrdered s v us ts =
      let after =
        queue_update reader env.responses env.clock empty_update 0 s.updates s.processor in
      let v' = queue_update-AreOrdered s.updates s.processor v us in
      let s' = record s { updates = after.0.0; processor = after.0.1 } in
      let v'' = queue_trade-AreOrdered s.trades s' v' ts in
      elim (Bool-cases env.is_producer_alive) [
        | inr dead ↦ rw (dead) (later-AreOrdered (omega (arith, begins, ends 0)) v)
        | inl lives ↦ elim (Bool-cases after.1) [
          | inr failed ↦ rw (lives, failed) v'
          | inl ok ↦ rw (lives, ok) (subst (AreOrdered env.trade_time) (sym (traded-stamps s')) v'')
        ]
      ]

  -- Where every update and trade in the queues of a trader was written by the feeder behind its read
  -- and before the round, and the clock does not go back, a round on valid rings that starts with its
  -- times in order returns with them in order: the feeder's read, its write, the trader's read, and
  -- the time of the call of `ProcessTrade`.
  pub trader_step-AreOrdered :
      (s : TraderState)
      → IsReady s
      → AreOrdered start s.processor.stamps
      → UpdatesBy start (view market_data_length empty_update s.updates)
      → TradesBy start (view market_data_length empty_trade s.trades)
      → (s' : TraderState) × (ok : Bool) × (trader_step reader id env s ≡ some (s', ok))
        × AreOrdered env.trade_time s'.processor.stamps
  trader_step-AreOrdered s ready v us ts =
      let (s', ok, e, same, ready') = trader_step_refines reader id env s ready in
      (
        s',
        ok,
        e,
        subst (λ (t : QueueState × Bool). AreOrdered env.trade_time t.0.processor.stamps) (sym same)
            (queue_step-AreOrdered (view_state s) v us ts),
      )
