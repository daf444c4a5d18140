-- ===== src/Trader/Trades.antt =====
-- The trades that a trader reads, through the contract of the ring.
use hft_demo.Common.{ℕ, ◌^◌, ◌≤◌, ◌≡◌, refl, ap, ◌∙◌, Bool, true, false, [], ◌∷◌, u32_mod}
use hft_demo.Market.{Trade}
use hft_demo.Flow.{Window, on_trade}
use hft_demo.Ring.{Ring, ReadResult, success, buffer_is_empty, consumer_is_disabled, read}
use hft_demo.Ring.Queue.{Queue, live, lost, queue_read, view, IsValid, read_refines}
use hft_demo.Trader.{Stamps, update_stamps, after_read, process_trade}

-- `ProcessTrade` on a queue of trades.
abbrev pub queue_trade :
    Queue Trade → Window → Stamps → (now : ℕ) → Queue Trade × Window × Stamps × Bool
queue_trade (live []) w t now = (live [], w, t, true)
queue_trade (live (x ∷ xs)) w t now = (
  live xs,
  on_trade w x.event_timestamp_microseconds x.is_buyer_maker x.quantity,
  update_stamps t x.feeder_read_steady_ns x.feeder_write_steady_ns now,
  true,
)
queue_trade lost w t now = (lost, w, t, false)

-- The ring of what `process_trade` returns, seen as a queue.
abbrev pub seen_trade :
    ℕ → Trade → Ring Trade × Window × Stamps × Bool → Queue Trade × Window × Stamps × Bool
seen_trade n out (r, w, t, ok) = (view n out r, w, t, ok)

-- What follows the read.
abbrev taken :
    Window → Stamps → ℕ → Queue Trade × ReadResult × Trade → Queue Trade × Window × Stamps × Bool
taken w t now (q, success, x) = (
  q,
  on_trade w x.event_timestamp_microseconds x.is_buyer_maker x.quantity,
  update_stamps t x.feeder_read_steady_ns x.feeder_write_steady_ns now,
  true,
)
taken w t now (q, consumer_is_disabled, x) = (q, w, t, false)
taken w t now (q, buffer_is_empty, x) = (q, w, t, true)

taken-queue :
    (q : Queue Trade) (w : Window) (t : Stamps) (out : Trade) (now : ℕ)
    → taken w t now (queue_read q out) ≡ queue_trade q w t now
taken-queue (live []) w t out now = refl
taken-queue (live (x ∷ xs)) w t out now = refl
taken-queue lost w t out now = refl

taken-after_read :
    (n : ℕ) (w : Window) (t : Stamps) (out : Trade) (now : ℕ) (r : Ring Trade × ReadResult × Trade)
    → seen_trade n out (after_read w t now r) ≡ taken w t now (view n out r.0, r.1, r.2)
unfolding after_read
taken-after_read n w t out now (ring, success, x) = refl
taken-after_read n w t out now (ring, consumer_is_disabled, x) = refl
taken-after_read n w t out now (ring, buffer_is_empty, x) = refl

-- On a valid ring, whose length is a power of two up to 2^32, `ProcessTrade` takes the first trade of
-- the queue into the window and the stamps; an empty queue changes nothing, and a lost one is its
-- only failure.
pub process_trade_refines :
    (k : ℕ) (ring : Ring Trade) (w : Window) (t : Stamps) (out : Trade) (now : ℕ)
    → 2 ^ k ≤ u32_mod
    → IsValid (2 ^ k) ring
    → seen_trade (2 ^ k) out (process_trade (2 ^ k) ring w t out now)
      ≡ queue_trade (view (2 ^ k) out ring) w t now
unfolding process_trade
process_trade_refines k ring w t out now small v =
    taken-after_read (2 ^ k) w t out now (read (2 ^ k) ring out)
    ∙ ap (taken w t now) (read_refines k small ring out v)
    ∙ taken-queue (view (2 ^ k) out ring) w t out now
