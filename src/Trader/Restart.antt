-- ===== src/Trader/Restart.antt =====
-- OrderBookProcessor::ResetSnapshot of trader/trader.cpp on a whole answer of the exchange.
mod Tests
use hft_demo.Common.{
  ℕ, zero, suc, ◌+◌, ◌≤◌, ◌≡◌, refl, ap, ap₂, subst, sym, ◌∙◌, Bool, true, false, List, [], ◌∷◌,
  Option, none, some, map, arith, length, length-take, get_or, take, min,
}
use hft_demo.Market.{OrderBookSnapshot, order_book_depth}
use hft_demo.Book.{Row, Book, Side, init, init_book, levels, price_ascending, price_descending}
use hft_demo.Book.Levels.{IsSorted}
use hft_demo.Book.Sides.{zip_rows, init_refines}
use hft_demo.Book.Top.{IsBook}
use hft_demo.Parser.Fields.{json_root_is_object}
use hft_demo.Parser.Events.{Reader, parse, feed}
use hft_demo.Parser.Depth.Release.{Level, levels_from, length-levels_from}
use hft_demo.Parser.Rows.{good_rows}
use hft_demo.Parser.Snapshot
use hft_demo.Parser.Snapshot.{SnapshotSax}
use hft_demo.Parser.Snapshot.Document.{Depth, document, document_lem}
use hft_demo.Parser.Calls.{parse_order_book_snapshot}
use hft_demo.Trader.{restart, reset_snapshot}
use hft_demo.Trader.Updates.{IsOrderly}

-- A level of a message as a row of the book.
abbrev pub row_of : Level → Row
row_of (p, q) = record { price = p; quantity = q }

levels_from-cons :
    (p q : ℕ) (prices quantities : List ℕ) (i n : ℕ)
    → levels_from (p ∷ prices) (q ∷ quantities) (suc i) n ≡ levels_from prices quantities i n
levels_from-cons p q prices quantities i zero = refl
levels_from-cons p q prices quantities i (suc n) =
    let same : suc i + 1 ≡ suc (i + 1) = omega arith in
    ap (λ (ls : List Level). (get_or prices i 0, get_or quantities i 0) ∷ ls)
      (ap (λ j. levels_from (p ∷ prices) (q ∷ quantities) j n) same
        ∙ levels_from-cons p q prices quantities (i + 1) n)

take-zip_rows :
    (n : ℕ) (prices quantities : List ℕ)
    → n ≤ length prices
    → n ≤ length quantities
    → take n (zip_rows prices quantities) ≡ map row_of (levels_from prices quantities 0 n)
take-zip_rows zero prices quantities h h' = refl
take-zip_rows (suc n) [] quantities h h' = absurd (omega arith)
take-zip_rows (suc n) (p ∷ prices) [] h h' = absurd (omega arith)
take-zip_rows (suc n) (p ∷ prices) (q ∷ quantities) h h' =
    ap (λ (rs : List Row). record { price = p; quantity = q } ∷ rs)
      (take-zip_rows n prices quantities (omega arith) (omega arith)
        ∙ ap (map row_of) (sym (levels_from-cons p q prices quantities 0 n)))

-- The rows that are used of a side of a snapshot.
used-levels :
    (prices quantities : List ℕ) (count : ℕ) (ls : List Level)
    → length prices ≡ order_book_depth
    → length quantities ≡ order_book_depth
    → levels_from prices quantities 0 count ≡ take order_book_depth ls
    → take (min order_book_depth count) (zip_rows prices quantities)
      ≡ map row_of (take order_book_depth ls)
used-levels prices quantities count ls p q kept =
    let size : count ≡ length (take order_book_depth ls) =
      sym (length-levels_from prices quantities 0 count) ∙ ap length kept in
    let same : min order_book_depth count ≡ count =
      omega (arith, size, length-take order_book_depth ls) in
    rw (same) (
      take-zip_rows count prices quantities (omega (arith, same)) (omega (arith, same))
      ∙ ap (map row_of) kept)

-- A side of a book that `Init` fills from what the handler kept of a side of the answer.
side-levels :
    (s : Side) (prices quantities : List ℕ) (count : ℕ) (ls : List Level)
    → length s.rows ≡ order_book_depth
    → length prices ≡ order_book_depth
    → length quantities ≡ order_book_depth
    → levels_from prices quantities 0 count ≡ take order_book_depth ls
    → levels (init order_book_depth s prices quantities count)
      ≡ map row_of (take order_book_depth ls)
side-levels s prices quantities count ls whole p q kept =
    init_refines order_book_depth s prices quantities count whole (omega (arith, p))
      (omega (arith, q))
    ∙ used-levels prices quantities count ls p q kept

module _ (reader : Reader) (response : List ℕ) (h : SnapshotSax) (d : Depth)
    (is_object : json_root_is_object response ≡ true)
    (reads : reader response ≡ (document d, true)) where
  parsed :
      (s : SnapshotSax)
      → feed Snapshot.handle (Snapshot.reset h) (document d) ≡ (s, true)
      → parse_order_book_snapshot reader h response ≡ (s, some s.out)
  unfolding parse_order_book_snapshot parse
  parsed s fed = rw (is_object, reads, fed) refl

  -- Where the answer of the exchange is the text of a snapshot, `ResetSnapshot` returns true and
  -- leaves the book, whose arrays have their places, with the snapshot's id and on each side with the
  -- levels of its leading good rows, as many as the book has places for, whatever was there before.
  pub reset_snapshot_lem :
      (b : Book)
      → length b.bids.rows ≡ order_book_depth
      → length b.asks.rows ≡ order_book_depth
      → let (h', b', ok) = reset_snapshot reader response h b in
        (ok ≡ true)
        × (b'.last_update_id ≡ d.last_id)
        × (levels b'.bids ≡ map row_of (take order_book_depth (good_rows d.bid_rows)))
        × (levels b'.asks ≡ map row_of (take order_book_depth (good_rows d.ask_rows)))
  unfolding reset_snapshot restart init_book
  reset_snapshot_lem b bids_whole asks_whole =
      let (s, fed, id, bids, asks, whole) = document_lem h d in
      let e = parsed s fed in
      rw (e) (
        refl,
        id,
        side-levels b.bids s.out.bids_prices s.out.bids_quantities s.out.bids_depth
            (good_rows d.bid_rows) bids_whole whole.bids_prices_whole whole.bids_quantities_whole
            bids,
        side-levels b.asks s.out.asks_prices s.out.asks_quantities s.out.asks_depth
            (good_rows d.ask_rows) asks_whole whole.asks_prices_whole whole.asks_quantities_whole
            asks,
      )

  -- Such an answer has its levels in strict price order if those of its rows are.
  pub document-IsOrderly :
      IsSorted price_descending (map row_of (take order_book_depth (good_rows d.bid_rows)))
      → IsSorted price_ascending (map row_of (take order_book_depth (good_rows d.ask_rows)))
      → (s : OrderBookSnapshot) → (parse_order_book_snapshot reader h response).1 ≡ some s
      → IsOrderly s
  document-IsOrderly bids_sorted asks_sorted s e =
      let (g, fed, id, bids, asks, whole) = document_lem h d in
      let p = parsed g fed in
      let same : g.out ≡ s = cc (ap (λ (r : SnapshotSax × Option OrderBookSnapshot). r.1) p, e) in
      subst IsOrderly same (record {
        bids =
            subst (IsSorted price_descending)
              (sym (
                used-levels g.out.bids_prices g.out.bids_quantities g.out.bids_depth
                  (good_rows d.bid_rows) whole.bids_prices_whole whole.bids_quantities_whole bids))
              bids_sorted;
        asks =
            subst (IsSorted price_ascending)
              (sym (
                used-levels g.out.asks_prices g.out.asks_quantities g.out.asks_depth
                  (good_rows d.ask_rows) whole.asks_prices_whole whole.asks_quantities_whole asks))
              asks_sorted;
      })
