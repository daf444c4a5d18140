-- ===== src/Parser/Snapshot/Document.antt =====
-- A whole snapshot, from its text fields to the levels that the trader's book starts from.
use hft_demo.Common.{
  ℕ, ◌≡◌, refl, ap, ◌∙◌, Bool, true, false, List, [], ◌∷◌, ◌++◌, arith, length, length-take, take,
}
use hft_demo.Common.Bytes.{codes, bytes_eq}
use hft_demo.Market.{OrderBookSnapshot, order_book_depth}
use hft_demo.Parser.Events.{
  Event, uint64, start_object, key, end_object, start_array, end_array, feed, feed-step,
}
use hft_demo.Parser.Depth.Release.{Level, levels_from}
use hft_demo.Parser.Rows.{RowText, rows_events, good_rows}
use hft_demo.Parser.Snapshot.{
  SnapshotSax, reset, handle, number, on_uint64, on_start_object, on_key, pending_of_key,
  on_end_object, on_start_array, on_end_array,
}
use hft_demo.Parser.Snapshot.Pushes.{
  bid_levels, ask_levels, IsWhole, pushes-bids, pushes-asks, pushes-frame,
}
use hft_demo.Parser.Snapshot.Rows.{pushes, scratch, rows-feed}

-- A snapshot as it is sent.
pub record Depth : Type 0 where
  pub last_id : ℕ
  pub bid_rows : List RowText
  pub ask_rows : List RowText

-- The events of its text, with its keys in the order of the exchange.
abbrev pub document : Depth → List Event
document d =
    start_object
    ∷ key (codes "lastUpdateId")
    ∷ uint64 d.last_id
    ∷ key (codes "bids")
    ∷ start_array
    ∷ (rows_events d.bid_rows
        ++ (end_array (length d.bid_rows)
            ∷ key (codes "asks")
            ∷ start_array
            ∷ (rows_events d.ask_rows ++ (end_array (length d.ask_rows) ∷ end_object 3 ∷ []))))

-- The handler behind the fields, before the first row of the bids.
abbrev after_fields : SnapshotSax → Depth → SnapshotSax
after_fields h d = record (reset h) {
  object_depth = 1;
  array_depth = 1;
  in_bids = true;
  out = record ((reset h).out) { last_update_id = d.last_id };
}

fields-feed :
    (h : SnapshotSax) (d : Depth) (rest : List Event)
    → feed handle (reset h) (
        start_object
        ∷ key (codes "lastUpdateId")
        ∷ uint64 d.last_id
        ∷ key (codes "bids")
        ∷ start_array
        ∷ rest)
      ≡ feed handle (after_fields h d) rest
unfolding feed handle on_start_object on_key pending_of_key on_uint64 number on_start_array bytes_eq
fields-feed h d rest = refl

-- The handler between the bids and the asks.
abbrev turned : SnapshotSax → SnapshotSax
turned h = record h { array_depth = 1; in_bids = false; in_asks = true; pending_snapshot = 0 }

turn-feed :
    (h : SnapshotSax) (n : ℕ) (rest : List Event)
    → h.object_depth ≡ 1
    → h.array_depth ≡ 1
    → feed handle h (end_array n ∷ key (codes "asks") ∷ start_array ∷ rest)
      ≡ feed handle (turned h) rest
unfolding handle on_end_array on_key pending_of_key on_start_array bytes_eq
turn-feed h n rest o a =
    feed-step handle h {s' = record h { array_depth = 0; in_bids = false; in_asks = false }}
      (end_array n) _ (ground arith)
    ∙ feed-step handle _
        {s' = record h { array_depth = 0; in_bids = false; in_asks = false; pending_snapshot = 3 }}
        (key (codes "asks")) _ (ground arith)
    ∙ feed-step handle _ start_array _ (ground arith)

finish-feed :
    (h : SnapshotSax) (n : ℕ)
    → h.object_depth ≡ 1
    → h.array_depth ≡ 1
    → feed handle h (end_array n ∷ end_object 3 ∷ [])
      ≡ (record h { array_depth = 0; object_depth = 0; in_bids = false; in_asks = false }, true)
unfolding feed handle on_end_array on_end_object
finish-feed h n o a =
    feed-step handle h {s' = record h { array_depth = 0; in_bids = false; in_asks = false }}
      (end_array n) (end_object 3 ∷ []) (ground arith)
    ∙ feed-step handle (record h { array_depth = 0; in_bids = false; in_asks = false })
        {s' = record h { array_depth = 0; object_depth = 0; in_bids = false; in_asks = false }}
        (end_object 3) [] (ground arith)

-- What the handler holds behind the bids.
record Bids (d : Depth) (s : OrderBookSnapshot) : Type 0 where
  same_id : s.last_update_id ≡ d.last_id
  bids : bid_levels s ≡ take order_book_depth (good_rows d.bid_rows)
  no_asks : s.asks_depth ≡ 0
  whole : IsWhole s

Bids-feed :
    (h : SnapshotSax) (d : Depth) (rest : List Event)
    → (s : OrderBookSnapshot) × (y : List ℕ) × (j : ℕ) × (done : Bool) × (feed handle (reset h) (
          start_object
          ∷ key (codes "lastUpdateId")
          ∷ uint64 d.last_id
          ∷ key (codes "bids")
          ∷ start_array
          ∷ (rows_events d.bid_rows
              ++ (end_array (length d.bid_rows) ∷ key (codes "asks") ∷ start_array ∷ rest)))
        ≡ feed handle (turned (scratch (record (after_fields h d) { out = s }) y j done)) rest)
      × Bids d s
Bids-feed h d rest =
    let hb = after_fields h d in
    let ls = take order_book_depth (good_rows d.bid_rows) in
    let next = end_array (length d.bid_rows) ∷ key (codes "asks") ∷ start_array ∷ rest in
    let (y, j, done, fed) =
      rows-feed hb [] 0 order_book_depth refl refl refl refl refl d.bid_rows next in
    let whole : IsWhole hb.out = record {
      bids_prices_whole = refl;
      bids_quantities_whole = refl;
      asks_prices_whole = refl;
      asks_quantities_whole = refl;
    } in
    let (bids, others, whole', id, no_asks) =
      pushes-bids hb ls whole refl
        (omega (arith, length-take order_book_depth (good_rows d.bid_rows))) in
    (
      (pushes hb ls).out,
      y,
      j,
      done,
      fields-feed h d _
          ∙ fed
          ∙ ap (λ (x : SnapshotSax). feed handle (scratch x y j done) next) (pushes-frame hb ls)
          ∙ turn-feed (scratch (record hb { out = (pushes hb ls).out }) y j done) _ _ refl refl,
      record { same_id = id; bids = bids; no_asks = no_asks; whole = whole' },
    )

Bids-asks :
    (h : SnapshotSax) (d : Depth) (s : OrderBookSnapshot) (y : List ℕ) (j : ℕ) (done : Bool)
    → Bids d s
    → (s' : SnapshotSax) × (feed handle
          (turned (scratch (record (after_fields h d) { out = s }) y j done))
          (rows_events d.ask_rows ++ (end_array (length d.ask_rows) ∷ end_object 3 ∷ []))
        ≡ (s', true))
      × (s'.out.last_update_id ≡ d.last_id)
      × (bid_levels s'.out ≡ take order_book_depth (good_rows d.bid_rows))
      × (ask_levels s'.out ≡ take order_book_depth (good_rows d.ask_rows))
      × IsWhole s'.out
Bids-asks h d s y j done v =
    let ha = turned (scratch (record (after_fields h d) { out = s }) y j done) in
    let ls = take order_book_depth (good_rows d.ask_rows) in
    let last = end_array (length d.ask_rows) ∷ end_object 3 ∷ [] in
    let (y', j', done', fed) =
      rows-feed ha y j order_book_depth refl refl refl refl (omega (arith, v.no_asks)) d.ask_rows
        last in
    let (asks, others, whole, id) =
      pushes-asks ha ls v.whole refl
        (omega (arith, length-take order_book_depth (good_rows d.ask_rows), v.no_asks)) in
    let none_yet : ask_levels s ≡ [] =
      ap (levels_from s.asks_prices s.asks_quantities 0) v.no_asks in
    let h' = scratch (record ha { out = (pushes ha ls).out }) y' j' done' in
    (
      record h' { array_depth = 0; object_depth = 0; in_bids = false; in_asks = false },
      fed
          ∙ ap (λ (x : SnapshotSax). feed handle (scratch x y' j' done') last) (pushes-frame ha ls)
          ∙ finish-feed h' _ refl refl,
      id ∙ v.same_id,
      others ∙ v.bids,
      asks ∙ ap (λ (xs : List Level). xs ++ ls) none_yet,
      whole,
    )

-- The handler accepts the events of a snapshot and leaves its id and, on each side, the levels of the
-- leading good rows, of which it keeps as many as the book has places.
pub document_lem :
    (h : SnapshotSax) (d : Depth)
    → (s : SnapshotSax) × (feed handle (reset h) (document d) ≡ (s, true))
      × (s.out.last_update_id ≡ d.last_id)
      × (bid_levels s.out ≡ take order_book_depth (good_rows d.bid_rows))
      × (ask_levels s.out ≡ take order_book_depth (good_rows d.ask_rows))
      × IsWhole s.out
document_lem h d =
    let (s, y, j, done, fed, v) =
      Bids-feed h d
        (rows_events d.ask_rows ++ (end_array (length d.ask_rows) ∷ end_object 3 ∷ [])) in
    let (s', fed', id, bids, asks, whole) = Bids-asks h d s y j done v in
    (s', fed ∙ fed', id, bids, asks, whole)
