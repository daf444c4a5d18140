-- ===== src/Feeder/Loop/Refine.antt =====
-- The rounds of the feeder, on queues.
use hft_demo.Common.{
  ℕ, ◌+◌, ◌^◌, ◌≤◌, ◌≡◌, refl, ap, ◌∙◌, Bool, true, false, List, [], ◌∷◌, Option, none, some,
  if◌then◌else◌, u32_mod,
}
use hft_demo.Market.{Symbol, OrderBookUpdate, Trade}
use hft_demo.Ring.Queue.{Queue, queue_write, view, write_refines, write-IsValid}
use hft_demo.Parser.Events.{Reader}
use hft_demo.Parser.Combined.{CombinedSax, Released}
use hft_demo.Parser.Calls.{parse_event}
use hft_demo.Feeder.{
  TraderId, ByTraderId, at, MarketDataBuffers, trader_id_for_symbol, stamped_update, send_update,
  order_book_update_callback, stamped_trade, send_trade, trade_callback,
}
use hft_demo.Feeder.Routing.{is_traded_by, IsReady}
use hft_demo.Feeder.Loop.{send_updates, send_released, feeder_step, own_updates, own_trades}

-- A queue behind a sequence of writes.
abbrev pub queue_writes : {A : Type 0} → ℕ → Queue A → List A → Queue A
queue_writes n q [] = q
queue_writes n q (x ∷ xs) = queue_writes n (queue_write n q x) xs

queue_writes-if :
    {A : Type 0} (n : ℕ) (q : Queue A) (x : A) (xs : List A) (b : Bool)
    → queue_writes n (queue_writes n q (if b then x ∷ [] else [])) xs
      ≡ queue_writes n q (if b then x ∷ xs else xs)
queue_writes-if n q x xs true = refl
queue_writes-if n q x xs false = refl

-- What a round passes on to a trader.
abbrev pub updates_of : Option Released → List OrderBookUpdate
updates_of none = []
updates_of (some (us, t)) = us

abbrev pub trade_of : Option Released → Option Trade
trade_of none = none
trade_of (some (us, t)) = t

module _ (k : ℕ) (small : 2 ^ k ≤ u32_mod) where
  send_update-IsReady :
      (id : Option TraderId) (md : ByTraderId MarketDataBuffers) (u : OrderBookUpdate)
      → IsReady k md
      → IsReady k (send_update (2 ^ k) id md u)
  unfolding send_update
  send_update-IsReady none md u v = v
  send_update-IsReady (some TraderId.btc_usdt) md u v = record {
    btc_updates = write-IsValid k small _ u v.btc_updates;
    btc_trades = v.btc_trades;
    eth_updates = v.eth_updates;
    eth_trades = v.eth_trades;
  }
  send_update-IsReady (some TraderId.eth_usdt) md u v = record {
    btc_updates = v.btc_updates;
    btc_trades = v.btc_trades;
    eth_updates = write-IsValid k small _ u v.eth_updates;
    eth_trades = v.eth_trades;
  }

  send_trade-IsReady :
      (id : Option TraderId) (md : ByTraderId MarketDataBuffers) (t : Trade)
      → IsReady k md
      → IsReady k (send_trade (2 ^ k) id md t)
  unfolding send_trade
  send_trade-IsReady none md t v = v
  send_trade-IsReady (some TraderId.btc_usdt) md t v = record {
    btc_updates = v.btc_updates;
    btc_trades = write-IsValid k small _ t v.btc_trades;
    eth_updates = v.eth_updates;
    eth_trades = v.eth_trades;
  }
  send_trade-IsReady (some TraderId.eth_usdt) md t v = record {
    btc_updates = v.btc_updates;
    btc_trades = v.btc_trades;
    eth_updates = v.eth_updates;
    eth_trades = write-IsValid k small _ t v.eth_trades;
  }

  module _ (d : OrderBookUpdate) (d' : Trade) where
    -- What the rings of a trader hold.
    abbrev pub held : ByTraderId MarketDataBuffers → TraderId → Queue OrderBookUpdate × Queue Trade
    held md id = (view (2 ^ k) d (at md id).order_book_updates, view (2 ^ k) d' (at md id).trades)

    sent_update :
        (md : ByTraderId MarketDataBuffers) (u : OrderBookUpdate) (s : Symbol) (id : TraderId)
        → IsReady k md
        → held (send_update (2 ^ k) (trader_id_for_symbol s) md u) id ≡ (
          queue_writes (2 ^ k) (held md id).0 (if is_traded_by id s then u ∷ [] else []),
          (held md id).1,
        )
    unfolding send_update
    sent_update md u Symbol.unknown TraderId.btc_usdt v = refl
    sent_update md u Symbol.unknown TraderId.eth_usdt v = refl
    sent_update md u Symbol.btc_usdt TraderId.btc_usdt v =
        ap (λ (q : Queue OrderBookUpdate). (q, (held md TraderId.btc_usdt).1))
          (write_refines k small d _ u v.btc_updates)
    sent_update md u Symbol.btc_usdt TraderId.eth_usdt v = refl
    sent_update md u Symbol.eth_usdt TraderId.btc_usdt v = refl
    sent_update md u Symbol.eth_usdt TraderId.eth_usdt v =
        ap (λ (q : Queue OrderBookUpdate). (q, (held md TraderId.eth_usdt).1))
          (write_refines k small d _ u v.eth_updates)

    sent_trade :
        (md : ByTraderId MarketDataBuffers) (t : Trade) (s : Symbol) (id : TraderId)
        → IsReady k md
        → held (send_trade (2 ^ k) (trader_id_for_symbol s) md t) id ≡ (
          (held md id).0,
          queue_writes (2 ^ k) (held md id).1 (if is_traded_by id s then t ∷ [] else []),
        )
    unfolding send_trade
    sent_trade md t Symbol.unknown TraderId.btc_usdt v = refl
    sent_trade md t Symbol.unknown TraderId.eth_usdt v = refl
    sent_trade md t Symbol.btc_usdt TraderId.btc_usdt v =
        ap (λ (q : Queue Trade). ((held md TraderId.btc_usdt).0, q))
          (write_refines k small d' _ t v.btc_trades)
    sent_trade md t Symbol.btc_usdt TraderId.eth_usdt v = refl
    sent_trade md t Symbol.eth_usdt TraderId.btc_usdt v = refl
    sent_trade md t Symbol.eth_usdt TraderId.eth_usdt v =
        ap (λ (q : Queue Trade). ((held md TraderId.eth_usdt).0, q))
          (write_refines k small d' _ t v.eth_trades)

    module _ (read_ns : ℕ) (clock : ℕ → ℕ) where
      sent_updates :
          (i : ℕ) (md : ByTraderId MarketDataBuffers) (us : List OrderBookUpdate) (id : TraderId)
          → IsReady k md
          → (held (send_updates (2 ^ k) read_ns clock i md us) id ≡ (
            queue_writes (2 ^ k) (held md id).0 (own_updates (2 ^ k) read_ns clock id i us),
            (held md id).1,
          ))
            × IsReady k (send_updates (2 ^ k) read_ns clock i md us)
      unfolding order_book_update_callback
      sent_updates i md [] id v = (refl, v)
      sent_updates i md (u ∷ us) id v =
          let sent = stamped_update read_ns (clock i) u in
          let here = sent_update md sent u.symbol id v in
          let (rest, ready) =
            sent_updates (i + 1) (order_book_update_callback (2 ^ k) read_ns (clock i) md u) us id
              (send_update-IsReady (trader_id_for_symbol u.symbol) md sent v) in
          (
            rest
                ∙ ap
                    (λ (t : Queue OrderBookUpdate × Queue Trade). (
                      queue_writes (2 ^ k) t.0 (own_updates (2 ^ k) read_ns clock id (i + 1) us),
                      t.1,
                    ))
                    here
                ∙ ap (λ (q : Queue OrderBookUpdate). (q, (held md id).1))
                    (queue_writes-if (2 ^ k) (held md id).0 sent
                      (own_updates (2 ^ k) read_ns clock id (i + 1) us) (is_traded_by id u.symbol)),
            ready,
          )

      sent_released :
          (md : ByTraderId MarketDataBuffers) (released : Option Released) (id : TraderId)
          → IsReady k md
          → (held (send_released (2 ^ k) read_ns clock md released) id ≡ (
            queue_writes
                (2 ^ k)
                (held md id).0
                (own_updates (2 ^ k) read_ns clock id 0 (updates_of released)),
            queue_writes
                (2 ^ k)
                (held md id).1
                (own_trades (2 ^ k) read_ns clock id (trade_of released)),
          ))
            × IsReady k (send_released (2 ^ k) read_ns clock md released)
      unfolding trade_callback
      sent_released md none id v = (refl, v)
      sent_released md (some (us, none)) id v = sent_updates 0 md us id v
      sent_released md (some (us, some t)) id v =
          let (e, ready) = sent_updates 0 md us id v in
          let md' = send_updates (2 ^ k) read_ns clock 0 md us in
          let sent = stamped_trade read_ns (clock 0) t in
          (
            sent_trade md' sent t.symbol id ready
                ∙ ap
                    (λ (q : Queue OrderBookUpdate × Queue Trade). (
                      q.0,
                      queue_writes (2 ^ k) q.1 (if is_traded_by id t.symbol then sent ∷ [] else []),
                    ))
                    e,
            send_trade-IsReady (trader_id_for_symbol t.symbol) md' sent ready,
          )

      -- Where all rings are valid, of one length that is a power of two up to 2^32, a round leaves
      -- them valid, and writes to the queues of each trader the updates and the trade of its symbol
      -- that `ParseEvent` passes on, stamped and in their order, and nothing else; a message that
      -- cannot be parsed changes no queue.
      pub feeder_step_lem :
          (arrays : Bool) (reader : Reader) (message : List ℕ) (h : CombinedSax)
          (md : ByTraderId MarketDataBuffers) (id : TraderId)
          → IsReady k md
          → let released = (parse_event arrays reader h message).1 in
            let after = (feeder_step (2 ^ k) read_ns clock arrays reader message (h, md)).1 in
            (held after id ≡ (
              queue_writes
                  (2 ^ k)
                  (held md id).0
                  (own_updates (2 ^ k) read_ns clock id 0 (updates_of released)),
              queue_writes
                  (2 ^ k)
                  (held md id).1
                  (own_trades (2 ^ k) read_ns clock id (trade_of released)),
            ))
            × IsReady k after
      unfolding feeder_step
      feeder_step_lem arrays reader message h md id v =
          sent_released md (parse_event arrays reader h message).1 id v
