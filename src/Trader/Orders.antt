-- ===== src/Trader/Orders.antt =====
-- When an order is sent, and what it says.
use hft_demo.Common.{
  ℕ, ◌+◌, ◌*◌, ◌<◌, ◌≡◌, ◌⊎◌, true, false, ◌&&◌, arith, ◌==◌, u64_mod, List, [], ◌∷◌,
}
use hft_demo.Market.{Order, buy, sell}
use hft_demo.Book.{Book, Row, get_best, top}
use hft_demo.Flow.{Window, aggressive_buy_volume, aggressive_sell_volume}
use hft_demo.Trader.{depth_levels, order_qty, sum_quantities, heavy, same_type, offer, create_order}

-- The quantities of rows as numbers that do not wrap.
abbrev pub total : List Row → ℕ
total [] = 0
total (r ∷ rs) = r.quantity + total rs

-- More than 55% of both sums.
abbrev pub Outweighs : ℕ → ℕ → Type 0
Outweighs sum other = 11 * other < 9 * sum

sum-total :
    (sum : ℕ) (rs : List Row) → sum + total rs < u64_mod → sum_quantities sum rs ≡ sum + total rs
sum-total sum [] h = omega arith
sum-total sum (r ∷ rs) h = ground (arith, sum-total (sum + r.quantity) rs)

heavy_lem :
    (sum other : ℕ)
    → 11 * sum < u64_mod
    → 11 * other < u64_mod
    → heavy sum other ≡ true
    → Outweighs sum other
unfolding heavy
heavy_lem sum other fits fits' h = ground arith

-- What a sent order says: the side that both the book and the flow lean to, at the other side's best
-- price.
pub record IsSent (b : Book) (w : Window) (last o : Order) : Type 0 where
  pub spread : (get_best b.bids).price < (get_best b.asks).price
  pub amount : o.quantity ≡ order_qty
  pub fresh : (same_type last.kind o.kind && last.price == o.price) ≡ false
  pub signal :
      ((o.kind ≡ buy)
        × (o.price ≡ (get_best b.asks).price)
        × (aggressive_sell_volume w < aggressive_buy_volume w)
        × Outweighs (total (top b.bids depth_levels)) (total (top b.asks depth_levels)))
      ⊎ ((o.kind ≡ sell)
          × (o.price ≡ (get_best b.bids).price)
          × (aggressive_buy_volume w < aggressive_sell_volume w)
          × Outweighs (total (top b.asks depth_levels)) (total (top b.bids depth_levels)))

-- Where `CreateOrder` returns true, it leaves its order as the last one, and the order buys at the
-- best ask, or sells at the best bid, with the book and the flow on that side, given that 11 times
-- the quantities of the top levels fit 64 bits.
pub create_order_sound :
    (b : Book) (w : Window) (last order : Order)
    → 11 * total (top b.bids depth_levels) < u64_mod
    → 11 * total (top b.asks depth_levels) < u64_mod
    → (create_order b w last order).2 ≡ true
    → let o = (create_order b w last order).1 in
      ((create_order b w last order).0 ≡ o) × IsSent b w last o
unfolding create_order offer
create_order_sound b w last order bids_fit asks_fit h =
    let bids = sum-total 0 (top b.bids depth_levels) (omega arith) in
    let asks = sum-total 0 (top b.asks depth_levels) (omega arith) in
    ground (
      arith,
      heavy_lem (sum_quantities 0 (top b.bids depth_levels))
          (sum_quantities 0 (top b.asks depth_levels)),
      heavy_lem (sum_quantities 0 (top b.asks depth_levels))
          (sum_quantities 0 (top b.bids depth_levels)),
    )
