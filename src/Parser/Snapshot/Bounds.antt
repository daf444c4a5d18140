-- ===== src/Parser/Snapshot/Bounds.antt =====
-- The bounds of the handler's state, kept by every event, so that no write of a level leaves the
-- snapshot's arrays.
use hft_demo.Common.{
  ℕ, ◌≤◌, ◌<◌, ◌≡◌, ◌⊎◌, refl, Bool, true, false, List, [], ◌∷◌, Option, none, some, arith, length,
  length-set,
}
use hft_demo.Common.Int.{ℤ}
use hft_demo.Market.{order_book_depth, price_shift, quantity_shift}
use hft_demo.Parser.Decimal.{parse_fixed_decimal_string}
use hft_demo.Parser.Events.{
  Event, null, bool, int, uint, int64, uint64, double, string, start_object, key, end_object,
  start_array, end_array, feed,
}
use hft_demo.Parser.Snapshot.{
  SnapshotSax, row0_cap, end_side, push_level, close_row, skips, row_text, row_string, on_string,
  number, on_int64, on_uint64, on_start_object, on_key, on_end_object, on_start_array, on_end_array,
  handle, reset,
}

-- The pending number is that of an array only outside every array.
pub record IsValid (h : SnapshotSax) : Type 0 where
  pub objects : h.object_depth ≤ 1
  pub arrays : h.array_depth ≤ 2
  pub row_buffer : length h.row0 ≤ row0_cap
  pub bids_in : h.out.bids_depth ≤ order_book_depth
  pub asks_in : h.out.asks_depth ≤ order_book_depth
  pub bids_prices_whole : length h.out.bids_prices ≡ order_book_depth
  pub bids_quantities_whole : length h.out.bids_quantities ≡ order_book_depth
  pub asks_prices_whole : length h.out.asks_prices ≡ order_book_depth
  pub asks_quantities_whole : length h.out.asks_quantities ≡ order_book_depth
  pub fields_outside : (h.array_depth ≡ 0) ⊎ (h.pending_snapshot < 2)

push_level-IsValid :
    {h : SnapshotSax} (price qty : ℕ)
    → IsValid h
    → skips h ≡ some false
    → IsValid (push_level h price qty)
unfolding push_level skips
push_level-IsValid {h} price qty v room = ground (
  arith,
  length-set h.out.bids_prices h.out.bids_depth price,
  length-set h.out.bids_quantities h.out.bids_depth qty,
  length-set h.out.asks_prices h.out.asks_depth price,
  length-set h.out.asks_quantities h.out.asks_depth qty,
)

end_side-IsValid : {h : SnapshotSax} → IsValid h → IsValid (end_side h)
unfolding end_side
end_side-IsValid {h} v = ground arith

close_row-IsValid :
    {h : SnapshotSax} (p q : Option ℕ)
    → IsValid h
    → skips h ≡ some false
    → IsValid (close_row h p q).0
unfolding close_row
close_row-IsValid (some price) (some qty) v room = push_level-IsValid price qty v room
close_row-IsValid (some price) none v room = end_side-IsValid v
close_row-IsValid none q v room = end_side-IsValid v

row_text-IsValid :
    {h : SnapshotSax} (s : List ℕ) → IsValid h → skips h ≡ some false → IsValid (row_text h s).0
unfolding row_text
row_text-IsValid {h} s v room = ground (
  arith,
  end_side-IsValid v,
  close_row-IsValid (parse_fixed_decimal_string h.row0 price_shift)
      (parse_fixed_decimal_string s quantity_shift) v room,
)

row_string-IsValid :
    (skip : Option Bool) {h : SnapshotSax} (s : List ℕ)
    → skips h ≡ skip
    → IsValid h
    → IsValid (row_string skip h s).0
unfolding row_string
row_string-IsValid none s e v = v
row_string-IsValid (some true) s e v = v
row_string-IsValid (some false) s e v = row_text-IsValid s v e

on_string-IsValid : {h : SnapshotSax} (s : List ℕ) → IsValid h → IsValid (on_string h s).0
unfolding on_string
on_string-IsValid {h} s v = ground (arith, row_string-IsValid (skips h) s refl v)

number-IsValid :
    {h : SnapshotSax} (i : ℤ) (u : ℕ) (b : Bool) → IsValid h → IsValid (number h i u b).0
unfolding number
number-IsValid {h} i u b v = ground arith

start_array-IsValid : {h : SnapshotSax} → IsValid h → IsValid (on_start_array h).0
unfolding on_start_array
start_array-IsValid {h} v = ground arith

end_array-IsValid : {h : SnapshotSax} → IsValid h → IsValid (on_end_array h).0
unfolding on_end_array
end_array-IsValid {h} v = ground arith

-- Every event keeps the bounds, whether the handler accepts it or not.
pub snapshot-handle-IsValid : {h : SnapshotSax} (e : Event) → IsValid h → IsValid (handle h e).0
unfolding handle on_int64 on_uint64 on_start_object on_key on_end_object
snapshot-handle-IsValid null v = v
snapshot-handle-IsValid (bool b) v = v
snapshot-handle-IsValid (int i) v = number-IsValid _ _ _ v
snapshot-handle-IsValid (uint u) v = number-IsValid _ _ _ v
snapshot-handle-IsValid (int64 i) v = number-IsValid _ _ _ v
snapshot-handle-IsValid (uint64 u) v = number-IsValid _ _ _ v
snapshot-handle-IsValid double v = v
snapshot-handle-IsValid (string s) v = on_string-IsValid s v
snapshot-handle-IsValid start_object v = ground arith
snapshot-handle-IsValid (key s) v = ground arith
snapshot-handle-IsValid (end_object n) v = ground arith
snapshot-handle-IsValid start_array v = start_array-IsValid v
snapshot-handle-IsValid (end_array n) v = end_array-IsValid v

reset-IsValid : (h : SnapshotSax) → IsValid (reset h)
reset-IsValid h = ground arith

feed-IsValid : (h : SnapshotSax) (es : List Event) → IsValid h → IsValid (feed handle h es).0
unfolding feed
feed-IsValid h [] v = v
feed-IsValid h (e ∷ es) v = ground (
  arith,
  snapshot-handle-IsValid e v,
  feed-IsValid (handle h e).0 es (snapshot-handle-IsValid e v),
)

-- Whatever the events, a snapshot that the handler releases has at most `kOrderBookDepth` levels on
-- a side, and arrays of that many places.
pub snapshot_bounds : (h : SnapshotSax) (es : List Event) → IsValid (feed handle (reset h) es).0
snapshot_bounds h es = feed-IsValid (reset h) es (reset-IsValid h)
