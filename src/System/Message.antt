-- ===== src/System/Message.antt =====
-- A depth message of the exchange, from the feeder's reading of it to the levels of the trader's book.
mod Tests
use hft_demo.Common.{
  ℕ, zero, suc, ◌+◌, ◌<◌, ◌≤◌, ◌^◌, ◌≡◌, refl, ap, ap₂, sym, ◌∙◌, Bool, true, false, List, [], ◌∷◌,
  ◌++◌, append-nil, append_assoc, Option, none, some, map, arith, ◌==◌, if◌then◌else◌, length, take,
  length-append, length-map, add64, u32_mod,
}
use hft_demo.Market.{
  Symbol, empty_update, OrderBookUpdate, Trade, BookSide, bid, ask, order_book_depth,
}
use hft_demo.Book.{Row, SideOrder, levels, price_descending, price_ascending}
use hft_demo.Book.Top.{IsBook}
use hft_demo.Ring.{Ring}
use hft_demo.Ring.Queue.{Queue, live, queue_write, view, IsValid}
use hft_demo.Parser.Fields.{symbol_from_string, is_depth_stream}
use hft_demo.Parser.Events.{Reader}
use hft_demo.Parser.Depth.{max_depth_levels_per_side}
use hft_demo.Parser.Depth.Invariant
use hft_demo.Parser.Depth.Release.{Level, batch}
use hft_demo.Parser.Rows.{good_rows}
use hft_demo.Parser.Depth.Document.{Update, sent}
use hft_demo.Parser.Combined.{CombinedSax, stream_cap}
use hft_demo.Parser.Combined.Inside.{wrapped}
use hft_demo.Parser.Calls.Event.{body}
use hft_demo.Feeder.{TraderId, ByTraderId, at, MarketDataBuffers, stamped_update}
use hft_demo.Feeder.Routing.{is_traded_by, IsReady}
use hft_demo.Feeder.Loop.{feeder_step, own_updates}
use hft_demo.Feeder.Loop.Refine.{queue_writes, held, feeder_step_lem}
use hft_demo.Feeder.Message.{levels_batch, message_lem}
use hft_demo.Trader.Loop.{Processor, process_update}
use hft_demo.Trader.Batch.{IsBatch, put_one, put_bids, put_asks, process_update-batch}

-- Writes that leave a place free.
queue_writes-live :
    {A : Type 0} (n : ℕ) (ys xs : List A)
    → length ys + length xs < n
    → queue_writes n (live ys) xs ≡ live (ys ++ xs)
queue_writes-live n ys [] fits = ap live (sym (append-nil ys))
queue_writes-live n ys (x ∷ xs) fits =
    let room : (length ys + 1 == n) ≡ false = ground arith in
    rw (room) (
      queue_writes-live n (ys ++ x ∷ []) xs (omega (arith, length-append ys (x ∷ [])))
      ∙ ap live (append_assoc ys (x ∷ []) xs))

-- The levels of a message, put into a side one by one.
abbrev pub put_levels : SideOrder → List Level → List Row → List Row
put_levels o [] rs = rs
put_levels o (l ∷ ls) rs = put_levels o ls (put_one o l.0 l.1 rs)

-- The updates are of one event and of a symbol that the trader trades.
abbrev Shares : TraderId → (f l : ℕ) → List OrderBookUpdate → Type 0
Shares id f l [] = Unit {0}
Shares id f l (u ∷ us) =
    (u.first_update_id ≡ f)
    × (u.last_update_id ≡ l)
    × (is_traded_by id u.symbol ≡ true)
    × Shares id f l us

Shares-append :
    (id : TraderId) (f l : ℕ) (us vs : List OrderBookUpdate)
    → Shares id f l us
    → Shares id f l vs
    → Shares id f l (us ++ vs)
Shares-append id f l [] vs h h' = h'
Shares-append id f l (u ∷ us) vs (a, b, c, h) h' = (a, b, c, Shares-append id f l us vs h h')

Shares-map :
    (id : TraderId) (u : Update) (side : BookSide) (ls : List Level)
    → is_traded_by id (symbol_from_string (some u.symbol_text)) ≡ true
    → Shares id u.first_id u.last_id (map (sent u side) ls)
Shares-map id u side [] traded = tt
Shares-map id u side (l ∷ ls) traded = (refl, refl, traded, Shares-map id u side ls traded)

module _ (n read_ns : ℕ) (clock : ℕ → ℕ) (id : TraderId) (f l : ℕ) where
  abbrev stamp_all : (i : ℕ) → List OrderBookUpdate → List OrderBookUpdate
  stamp_all i [] = []
  stamp_all i (u ∷ us) =
      let rest = stamp_all (i + 1) us in stamped_update read_ns (clock i) u ∷ rest

  own-stamp_all :
      (i : ℕ) (us : List OrderBookUpdate)
      → Shares id f l us
      → own_updates n read_ns clock id i (batch us) ≡ stamp_all i (batch us)
  own-stamp_all i [] h = refl
  own-stamp_all i (u ∷ []) (first, last, traded, h) = rw (traded) refl
  own-stamp_all i (u ∷ u' ∷ us) (first, last, traded, h) = rw (traded) (
      ap
        (λ (t : List OrderBookUpdate).
          stamped_update read_ns (clock i) (record u { has_more = true }) ∷ t)
        (own-stamp_all (i + 1) (u' ∷ us) h))

  -- What a trader is sent of a batch is a batch.
  stamp_all-IsBatch :
      (i : ℕ) (u : OrderBookUpdate) (us : List OrderBookUpdate)
      → Shares id f l (u ∷ us)
      → IsBatch f l (stamp_all i (batch (u ∷ us)))
  stamp_all-IsBatch i u [] (first, last, traded, h) = (first, last, refl)
  stamp_all-IsBatch i u (u' ∷ []) (first, last, traded, h) =
      (first, last, refl, stamp_all-IsBatch (i + 1) u' [] h)
  stamp_all-IsBatch i u (u' ∷ u'' ∷ us) (first, last, traded, h) =
      (first, last, refl, stamp_all-IsBatch (i + 1) u' (u'' ∷ us) h)

  length-stamp_all :
      (i : ℕ) (us : List OrderBookUpdate) → length (stamp_all i (batch us)) ≡ length us
  length-stamp_all i [] = refl
  length-stamp_all i (u ∷ []) = refl
  length-stamp_all i (u ∷ u' ∷ us) = ap suc (length-stamp_all (i + 1) (u' ∷ us))

  put_bids-stamp_all :
      (i : ℕ) (us : List OrderBookUpdate) (rs : List Row)
      → put_bids (stamp_all i (batch us)) rs ≡ put_bids us rs
  put_bids-stamp_all i [] rs = refl
  put_bids-stamp_all i (u ∷ []) rs = refl
  put_bids-stamp_all i (u ∷ u' ∷ us) rs = put_bids-stamp_all (i + 1) (u' ∷ us) _

  put_asks-stamp_all :
      (i : ℕ) (us : List OrderBookUpdate) (rs : List Row)
      → put_asks (stamp_all i (batch us)) rs ≡ put_asks us rs
  put_asks-stamp_all i [] rs = refl
  put_asks-stamp_all i (u ∷ []) rs = refl
  put_asks-stamp_all i (u ∷ u' ∷ us) rs = put_asks-stamp_all (i + 1) (u' ∷ us) _

-- The sides of a message in the updates that it stands for.
abbrev both_sides : Update → List OrderBookUpdate
both_sides u = map (sent u bid) (good_rows u.bid_rows) ++ map (sent u ask) (good_rows u.ask_rows)

module _ (u : Update) where
  asks_only-bids : (as_ : List Level) (rs : List Row) → put_bids (map (sent u ask) as_) rs ≡ rs
  asks_only-bids [] rs = refl
  asks_only-bids (l ∷ as_) rs = asks_only-bids as_ rs

  asks_only-asks :
      (as_ : List Level) (rs : List Row)
      → put_asks (map (sent u ask) as_) rs ≡ put_levels price_ascending as_ rs
  asks_only-asks [] rs = refl
  asks_only-asks (l ∷ as_) rs = asks_only-asks as_ _

  put_bids-sides :
      (bs as_ : List Level) (rs : List Row)
      → put_bids (map (sent u bid) bs ++ map (sent u ask) as_) rs
        ≡ put_levels price_descending bs rs
  put_bids-sides [] as_ rs = asks_only-bids as_ rs
  put_bids-sides (l ∷ bs) as_ rs = put_bids-sides bs as_ _

  put_asks-sides :
      (bs as_ : List Level) (rs : List Row)
      → put_asks (map (sent u bid) bs ++ map (sent u ask) as_) rs
        ≡ put_levels price_ascending as_ rs
  put_asks-sides [] as_ rs = asks_only-asks as_ rs
  put_asks-sides (l ∷ bs) as_ rs = put_asks-sides bs as_ rs

-- A batch of one update or more.
batched :
    (n read_ns : ℕ) (clock : ℕ → ℕ) (id : TraderId) (f l : ℕ) (us : List OrderBookUpdate)
    → Shares id f l us
    → 0 < length us
    → IsBatch f l (stamp_all n read_ns clock id f l 0 (batch us))
batched n read_ns clock id f l [] h some_update = absurd (omega arith)
batched n read_ns clock id f l (u ∷ us) h some_update =
    stamp_all-IsBatch n read_ns clock id f l 0 u us h

updates-IsValid :
    (k : ℕ) (md : ByTraderId MarketDataBuffers) (id : TraderId)
    → IsReady k md
    → IsValid (2 ^ k) (at md id).order_book_updates
updates-IsValid k md TraderId.btc_usdt v = v.btc_updates
updates-IsValid k md TraderId.eth_usdt v = v.eth_updates

module _ (k : ℕ) (small : 2 ^ k ≤ u32_mod) (d' : Trade) (read_ns : ℕ) (clock : ℕ → ℕ)
    (id : TraderId) where
  -- Where the feeder finds in a message a depth update of the trader's symbol with one good row or
  -- more, all rings are valid, of one length that is a power of two up to 2^32, the trader's queue of
  -- updates is empty and has room for the good rows, which fit the depth handler too, and both ids are
  -- in step with a valid book of the trader, a round of the feeder and then one `ProcessUpdate` put
  -- the good rows of each side into the levels of that side one by one, and leave the queue empty and
  -- the book valid.
  pub message_applied :
      (arrays : Bool) (reader trader_reader : Reader) (message stream : List ℕ) (h : CombinedSax)
      (md : ByTraderId MarketDataBuffers) (u : Update) (responses : ℕ → List ℕ)
      (trader_clock : ℕ → ℕ) (p : Processor)
      → IsReady k md
      → Invariant.IsValid h.depth
      → is_depth_stream (take stream_cap stream) ≡ true
      → reader message ≡ (wrapped stream (body u) 7, true)
      → length (good_rows u.bid_rows) ≤ max_depth_levels_per_side
      → length (good_rows u.ask_rows) ≤ max_depth_levels_per_side
      → is_traded_by id (symbol_from_string (some u.symbol_text)) ≡ true
      → 0 < length (good_rows u.bid_rows) + length (good_rows u.ask_rows)
      → length (good_rows u.bid_rows) + length (good_rows u.ask_rows) < 2 ^ k
      → view (2 ^ k) empty_update (at md id).order_book_updates ≡ live []
      → u.first_id ≤ add64 u.last_id 1
      → u.first_id ≤ add64 p.order_book.last_update_id 1
      → p.order_book.last_update_id ≤ u.last_id
      → IsBook order_book_depth p.order_book
      → let after = (feeder_step (2 ^ k) read_ns clock arrays reader message (h, md)).1 in
        (ring : Ring OrderBookUpdate) × (p' : Processor) × (process_update trader_reader responses
            trader_clock empty_update
            (2 ^ k)
            (2 ^ k)
            0
            ((at after id).order_book_updates, p)
          ≡ some ((ring, p'), true))
        × (view (2 ^ k) empty_update ring ≡ live [])
        × (levels p'.order_book.bids
            ≡ put_levels price_descending (good_rows u.bid_rows) (levels p.order_book.bids))
        × (levels p'.order_book.asks
            ≡ put_levels price_ascending (good_rows u.ask_rows) (levels p.order_book.asks))
        × IsBook order_book_depth p'.order_book
  message_applied arrays reader trader_reader message stream h md u responses trader_clock p ready v
        is reads bids_fit asks_fit traded some_row room idle ordered no_gap current valid =
      let after = (feeder_step (2 ^ k) read_ns clock arrays reader message (h, md)).1 in
      let us = both_sides u in
      let sent_us = stamp_all (2 ^ k) read_ns clock id u.first_id u.last_id 0 (batch us) in
      let bids = good_rows u.bid_rows in
      let asks = good_rows u.ask_rows in
      let shared =
        Shares-append id u.first_id u.last_id (map (sent u bid) bids) (map (sent u ask) asks)
          (Shares-map id u bid bids traded) (Shares-map id u ask asks traded) in
      let size : length us ≡ length bids + length asks =
        length-append (map (sent u bid) bids) (map (sent u ask) asks)
        ∙ ap₂ ◌+◌ (length-map bids (sent u bid)) (length-map asks (sent u ask)) in
      let own = own-stamp_all (2 ^ k) read_ns clock id u.first_id u.last_id 0 us shared in
      let size' = length-stamp_all (2 ^ k) read_ns clock id u.first_id u.last_id 0 us in
      let queued : view (2 ^ k) empty_update (at after id).order_book_updates
          ≡ live (sent_us ++ []) =
        ap (λ (t : Queue OrderBookUpdate × Queue Trade). t.0)
          (message_lem k small empty_update d' read_ns clock arrays reader message stream h md u id
            ready v is reads bids_fit asks_fit)
        ∙ ap₂ (queue_writes (2 ^ k)) idle own
        ∙ queue_writes-live (2 ^ k) [] sent_us (omega (arith, size, size'))
        ∙ ap live (sym (append-nil sent_us)) in
      let ready' =
        (feeder_step_lem k small empty_update d' read_ns clock arrays reader message h md id
          ready).1 in
      let (ring, p', returned, rest, whole, bids', asks', valid', handler) =
        process_update-batch trader_reader responses trader_clock empty_update k u.first_id
          u.last_id (at after id).order_book_updates p sent_us [] small
          (updates-IsValid k after id ready') queued
          (batched (2 ^ k) read_ns clock id u.first_id u.last_id us shared (omega (arith, size)))
          ordered no_gap current valid in
      (
        ring,
        p',
        returned,
        rest,
        bids'
            ∙ put_bids-stamp_all (2 ^ k) read_ns clock id u.first_id u.last_id 0 us _
            ∙ put_bids-sides u bids asks _,
        asks'
            ∙ put_asks-stamp_all (2 ^ k) read_ns clock id u.first_id u.last_id 0 us _
            ∙ put_asks-sides u bids asks _,
        valid',
      )
