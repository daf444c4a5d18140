-- ===== src/Feeder/Routing.antt =====
-- Where updates and trades go, through the contract of the rings.
use hft_demo.Common.{ℕ, ◌^◌, ◌≤◌, ◌≡◌, refl, Bool, true, false, if◌then◌else◌, u32_mod}
use hft_demo.Market.{Symbol, OrderBookUpdate, Trade}
use hft_demo.Ring.Queue.{queue_write, view, IsValid, write_refines}
use hft_demo.Feeder.{
  TraderId, ByTraderId, at, MarketDataBuffers, trader_id_for_symbol, stamped_update, send_update,
  order_book_update_callback,
}

-- Whether a symbol is the one that a trader trades.
abbrev pub is_traded_by : TraderId → Symbol → Bool
is_traded_by TraderId.btc_usdt Symbol.btc_usdt = true
is_traded_by TraderId.btc_usdt Symbol.eth_usdt = false
is_traded_by TraderId.btc_usdt Symbol.unknown = false
is_traded_by TraderId.eth_usdt Symbol.eth_usdt = true
is_traded_by TraderId.eth_usdt Symbol.btc_usdt = false
is_traded_by TraderId.eth_usdt Symbol.unknown = false

-- Every trader's rings are valid.
pub record IsReady (k : ℕ) (md : ByTraderId MarketDataBuffers) : Type 0 where
  pub btc_updates : IsValid (2 ^ k) md.of_btc_usdt.order_book_updates
  pub btc_trades : IsValid (2 ^ k) md.of_btc_usdt.trades
  pub eth_updates : IsValid (2 ^ k) md.of_eth_usdt.order_book_updates
  pub eth_trades : IsValid (2 ^ k) md.of_eth_usdt.trades

module _ (k : ℕ) (small : 2 ^ k ≤ u32_mod) (md : ByTraderId MarketDataBuffers)
    (ready : IsReady k md) where
  -- Where all rings are valid, of one length that is a power of two up to 2^32, a book update is
  -- written, stamped, to the queue of updates of the trader of its symbol, and no other queue of
  -- updates and no queue of trades changes.
  pub update_routed :
      (d : OrderBookUpdate) (d' : Trade) (read_ns now : ℕ) (u : OrderBookUpdate) (id : TraderId)
      → let before = at md id in
        let after = at (order_book_update_callback (2 ^ k) read_ns now md u) id in
        (view (2 ^ k) d after.order_book_updates ≡ (
          if is_traded_by id u.symbol
          then queue_write
              (2 ^ k)
              (view (2 ^ k) d before.order_book_updates)
              (stamped_update read_ns now u)
          else view (2 ^ k) d before.order_book_updates))
        × (view (2 ^ k) d' after.trades ≡ view (2 ^ k) d' before.trades)
  unfolding order_book_update_callback send_update
  update_routed d d' read_ns now u id = by_symbol u.symbol id
    where
      v : OrderBookUpdate
      v = stamped_update read_ns now u

      by_symbol :
          (s : Symbol) (id : TraderId)
          → (view
                (2 ^ k)
                d
                (at (send_update (2 ^ k) (trader_id_for_symbol s) md v) id).order_book_updates
              ≡ (if is_traded_by id s
                  then queue_write (2 ^ k) (view (2 ^ k) d (at md id).order_book_updates) v
                  else view (2 ^ k) d (at md id).order_book_updates))
            × (view (2 ^ k) d' (at (send_update (2 ^ k) (trader_id_for_symbol s) md v) id).trades
                ≡ view (2 ^ k) d' (at md id).trades)
      by_symbol Symbol.unknown TraderId.btc_usdt = (refl, refl)
      by_symbol Symbol.unknown TraderId.eth_usdt = (refl, refl)
      by_symbol Symbol.btc_usdt TraderId.btc_usdt =
          (write_refines k small d _ v ready.btc_updates, refl)
      by_symbol Symbol.btc_usdt TraderId.eth_usdt = (refl, refl)
      by_symbol Symbol.eth_usdt TraderId.btc_usdt = (refl, refl)
      by_symbol Symbol.eth_usdt TraderId.eth_usdt =
          (write_refines k small d _ v ready.eth_updates, refl)
