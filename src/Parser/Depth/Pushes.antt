-- ===== src/Parser/Depth/Pushes.antt =====
-- The levels of a side after some more are pushed behind them.
use hft_demo.Common.{
  ◌+◌, ◌≤◌, ◌<◌, ◌≡◌, refl, sym, ap, ◌∙◌, true, false, List, [], ◌∷◌, ◌++◌, append-nil,
  append_assoc, arith, length, length-set,
}
use hft_demo.Parser.Depth.{DepthSax, max_depth_levels_per_side}
use hft_demo.Parser.Depth.Release.{Level, bid_levels, ask_levels, levels_from-set}
use hft_demo.Parser.Depth.Rows.{push, pushes, side_count}

-- Pushed levels stand behind those of the current side; the other side keeps its own.
-- Every array of levels has all its places.
pub record IsWhole (h : DepthSax) : Type 0 where
  pub bid_prices_whole : length h.bid_prices ≡ max_depth_levels_per_side
  pub bid_qtys_whole : length h.bid_qtys ≡ max_depth_levels_per_side
  pub ask_prices_whole : length h.ask_prices ≡ max_depth_levels_per_side
  pub ask_qtys_whole : length h.ask_qtys ≡ max_depth_levels_per_side

pub pushes-ask_n :
    (h : DepthSax) (ls : List Level) → h.current_side_is_bid ≡ true → (pushes h ls).ask_n ≡ h.ask_n
pushes-ask_n h [] side = refl
pushes-ask_n h (l ∷ ls) side = pushes-ask_n (push h l) ls side ∙ rw (side)

push-IsWhole :
    (h : DepthSax) (l : Level)
    → IsWhole h
    → side_count h < max_depth_levels_per_side
    → IsWhole (push h l)
push-IsWhole h l v room = ground (
  arith,
  length-set h.bid_prices h.bid_n l.0,
  length-set h.bid_qtys h.bid_n l.1,
  length-set h.ask_prices h.ask_n l.0,
  length-set h.ask_qtys h.ask_n l.1,
)

push-bids :
    (h : DepthSax) (l : Level)
    → IsWhole h
    → h.current_side_is_bid ≡ true
    → h.bid_n < max_depth_levels_per_side
    → (bid_levels (push h l) ≡ bid_levels h ++ l ∷ []) × (ask_levels (push h l) ≡ ask_levels h)
push-bids h l v side room =
    (ground (arith, levels_from-set h.bid_prices h.bid_qtys 0 h.bid_n h.bid_n l.0 l.1), rw (side))

push-asks :
    (h : DepthSax) (l : Level)
    → IsWhole h
    → h.current_side_is_bid ≡ false
    → h.ask_n < max_depth_levels_per_side
    → (ask_levels (push h l) ≡ ask_levels h ++ l ∷ []) × (bid_levels (push h l) ≡ bid_levels h)
push-asks h l v side room =
    (ground (arith, levels_from-set h.ask_prices h.ask_qtys 0 h.ask_n h.ask_n l.0 l.1), rw (side))

pub pushes-bids :
    (h : DepthSax) (ls : List Level)
    → IsWhole h
    → h.current_side_is_bid ≡ true
    → h.bid_n + length ls ≤ max_depth_levels_per_side
    → (bid_levels (pushes h ls) ≡ bid_levels h ++ ls)
      × (ask_levels (pushes h ls) ≡ ask_levels h)
      × IsWhole (pushes h ls)
pushes-bids h [] v side room = (sym (append-nil (bid_levels h)), refl, v)
pushes-bids h (l ∷ ls) v side room =
    let (here, other) = push-bids h l v side (ground arith) in
    let (bids, asks, v') =
      pushes-bids (push h l) ls (push-IsWhole h l v (ground arith)) side (ground arith) in
    (bids ∙ ap (λ xs. xs ++ ls) here ∙ append_assoc (bid_levels h) (l ∷ []) ls, asks ∙ other, v')

pub pushes-asks :
    (h : DepthSax) (ls : List Level)
    → IsWhole h
    → h.current_side_is_bid ≡ false
    → h.ask_n + length ls ≤ max_depth_levels_per_side
    → (ask_levels (pushes h ls) ≡ ask_levels h ++ ls)
      × (bid_levels (pushes h ls) ≡ bid_levels h)
      × IsWhole (pushes h ls)
pushes-asks h [] v side room = (sym (append-nil (ask_levels h)), refl, v)
pushes-asks h (l ∷ ls) v side room =
    let (here, other) = push-asks h l v side (ground arith) in
    let (asks, bids, v') =
      pushes-asks (push h l) ls (push-IsWhole h l v (ground arith)) side (ground arith) in
    (asks ∙ ap (λ xs. xs ++ ls) here ∙ append_assoc (ask_levels h) (l ∷ []) ls, bids ∙ other, v')
