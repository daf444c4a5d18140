-- ===== src/Parser/Snapshot/Pushes.antt =====
-- The levels of a side of a snapshot after some more are pushed behind them.
use hft_demo.Common.{
  ◌+◌, ◌≤◌, ◌<◌, ◌≡◌, refl, ap, sym, ◌∙◌, true, false, List, [], ◌∷◌, ◌++◌, append-nil,
  append_assoc, arith, length, length-set,
}
use hft_demo.Market.{OrderBookSnapshot, order_book_depth}
use hft_demo.Parser.Depth.Release.{Level, levels_from, levels_from-set}
use hft_demo.Parser.Snapshot.{SnapshotSax}
use hft_demo.Parser.Snapshot.Rows.{push, pushes, side_count}

abbrev pub bid_levels : OrderBookSnapshot → List Level
bid_levels s = levels_from s.bids_prices s.bids_quantities 0 s.bids_depth

abbrev pub ask_levels : OrderBookSnapshot → List Level
ask_levels s = levels_from s.asks_prices s.asks_quantities 0 s.asks_depth

-- Every array of levels has all its places.
pub record IsWhole (s : OrderBookSnapshot) : Type 0 where
  pub bids_prices_whole : length s.bids_prices ≡ order_book_depth
  pub bids_quantities_whole : length s.bids_quantities ≡ order_book_depth
  pub asks_prices_whole : length s.asks_prices ≡ order_book_depth
  pub asks_quantities_whole : length s.asks_quantities ≡ order_book_depth

push-IsWhole :
    (h : SnapshotSax) (l : Level)
    → IsWhole h.out
    → side_count h < order_book_depth
    → IsWhole (push h l).out
push-IsWhole h l v room = ground (
  arith,
  length-set h.out.bids_prices h.out.bids_depth l.0,
  length-set h.out.bids_quantities h.out.bids_depth l.1,
  length-set h.out.asks_prices h.out.asks_depth l.0,
  length-set h.out.asks_quantities h.out.asks_depth l.1,
)

push-bids :
    (h : SnapshotSax) (l : Level)
    → IsWhole h.out
    → h.in_bids ≡ true
    → h.out.bids_depth < order_book_depth
    → (bid_levels (push h l).out ≡ bid_levels h.out ++ l ∷ [])
      × (ask_levels (push h l).out ≡ ask_levels h.out)
push-bids h l v side room = (
  ground (
    arith,
    levels_from-set h.out.bids_prices h.out.bids_quantities 0 h.out.bids_depth h.out.bids_depth l.0
        l.1,
  ),
  rw (side) refl,
)

push-asks :
    (h : SnapshotSax) (l : Level)
    → IsWhole h.out
    → h.in_bids ≡ false
    → h.out.asks_depth < order_book_depth
    → (ask_levels (push h l).out ≡ ask_levels h.out ++ l ∷ [])
      × (bid_levels (push h l).out ≡ bid_levels h.out)
push-asks h l v side room = (
  ground (
    arith,
    levels_from-set h.out.asks_prices h.out.asks_quantities 0 h.out.asks_depth h.out.asks_depth l.0
        l.1,
  ),
  rw (side) refl,
)

pub pushes-bids :
    (h : SnapshotSax) (ls : List Level)
    → IsWhole h.out
    → h.in_bids ≡ true
    → h.out.bids_depth + length ls ≤ order_book_depth
    → (bid_levels (pushes h ls).out ≡ bid_levels h.out ++ ls)
      × (ask_levels (pushes h ls).out ≡ ask_levels h.out)
      × IsWhole (pushes h ls).out
      × ((pushes h ls).out.last_update_id ≡ h.out.last_update_id)
      × ((pushes h ls).out.asks_depth ≡ h.out.asks_depth)
pushes-bids h [] v side room = (sym (append-nil (bid_levels h.out)), refl, v, refl, refl)
pushes-bids h (l ∷ ls) v side room =
    let (here, other) = push-bids h l v side (ground arith) in
    let (bids, asks, v', id, n) =
      pushes-bids (push h l) ls (push-IsWhole h l v (ground arith)) side (ground arith) in
    (
      bids ∙ ap (λ xs. xs ++ ls) here ∙ append_assoc (bid_levels h.out) (l ∷ []) ls,
      asks ∙ other,
      v',
      id,
      n ∙ rw (side) refl,
    )

pub pushes-asks :
    (h : SnapshotSax) (ls : List Level)
    → IsWhole h.out
    → h.in_bids ≡ false
    → h.out.asks_depth + length ls ≤ order_book_depth
    → (ask_levels (pushes h ls).out ≡ ask_levels h.out ++ ls)
      × (bid_levels (pushes h ls).out ≡ bid_levels h.out)
      × IsWhole (pushes h ls).out
      × ((pushes h ls).out.last_update_id ≡ h.out.last_update_id)
pushes-asks h [] v side room = (sym (append-nil (ask_levels h.out)), refl, v, refl)
pushes-asks h (l ∷ ls) v side room =
    let (here, other) = push-asks h l v side (ground arith) in
    let (asks, bids, v', id) =
      pushes-asks (push h l) ls (push-IsWhole h l v (ground arith)) side (ground arith) in
    (
      asks ∙ ap (λ xs. xs ++ ls) here ∙ append_assoc (ask_levels h.out) (l ∷ []) ls,
      bids ∙ other,
      v',
      id,
    )

-- Pushes change the snapshot only.
pub pushes-frame :
    (h : SnapshotSax) (ls : List Level) → pushes h ls ≡ record h { out = (pushes h ls).out }
pushes-frame h [] = refl
pushes-frame h (l ∷ ls) = pushes-frame (push h l) ls
