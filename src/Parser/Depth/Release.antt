-- ===== src/Parser/Depth/Release.antt =====
-- What `Release` passes on: the levels of both sides as one batch, in which every update but the
-- last announces that more follow.
use hft_demo.Common.{
  ℕ, zero, suc, ◌+◌, ◌<◌, ◌≡◌, refl, ap, ap₂, true, false, List, [], ◌∷◌, ◌++◌, map, arith,
  length-map, ltb, length, get_or, set, get_or-set_self, get_or-set_ne,
}
use hft_demo.Market.{OrderBookUpdate, empty_update, BookSide, bid, ask}
use hft_demo.Parser.Depth.{DepthSax, release_bids, release_asks, release}

abbrev pub Level : Type 0
Level = ℕ × ℕ

-- The `n` levels from index `i` on.
abbrev pub levels_from : List ℕ → List ℕ → (i n : ℕ) → List Level
levels_from prices qtys i zero = []
levels_from prices qtys i (suc n) =
    (get_or prices i 0, get_or qtys i 0) ∷ levels_from prices qtys (i + 1) n

abbrev pub bid_levels : DepthSax → List Level
bid_levels h = levels_from h.bid_prices h.bid_qtys 0 h.bid_n

abbrev pub ask_levels : DepthSax → List Level
ask_levels h = levels_from h.ask_prices h.ask_qtys 0 h.ask_n

pub length-levels_from : (prices qtys : List ℕ) (i n : ℕ) → length (levels_from prices qtys i n) ≡ n
length-levels_from prices qtys i zero = refl
length-levels_from prices qtys i (suc n) = ap suc (length-levels_from prices qtys (i + 1) n)

-- A level written behind the last one.
pub levels_from-set :
    (prices qtys : List ℕ) (i n k p q : ℕ)
    → i + n ≡ k
    → k < length prices
    → k < length qtys
    → levels_from (set prices k p) (set qtys k q) i (suc n)
      ≡ levels_from prices qtys i n ++ (p, q) ∷ []
levels_from-set prices qtys i zero k p q e hp hq =
    let same : i ≡ k = omega arith in
    rw (same, get_or-set_self prices k p 0 hp, get_or-set_self qtys k q 0 hq)
levels_from-set prices qtys i (suc n) k p q e hp hq =
    ap₂ ◌∷◌
      (rw (
        get_or-set_ne prices {i = k} {j = i} p 0 (omega arith),
        get_or-set_ne qtys {i = k} {j = i} q 0 (omega arith),
      ))
      (levels_from-set prices qtys (i + 1) n k p q (omega arith) hp hq)

-- An update of an event, before it is known whether more follow.
abbrev pub update_of : DepthSax → BookSide → Level → OrderBookUpdate
update_of h side l = record empty_update {
  event_timestamp_microseconds = h.event_timestamp_microseconds;
  first_update_id = h.first_update_id;
  last_update_id = h.last_update_id;
  symbol = h.symbol;
  side = side;
  price = l.0;
  quantity = l.1;
}

-- A batch: `has_more` in every update but the last.
abbrev pub batch : List OrderBookUpdate → List OrderBookUpdate
batch [] = []
batch (u ∷ []) = record u { has_more = false } ∷ []
batch (u ∷ u' ∷ us) = record u { has_more = true } ∷ batch (u' ∷ us)

batch-cons :
    (u : OrderBookUpdate) (us : List OrderBookUpdate)
    → batch (u ∷ us) ≡ record u { has_more = ltb 0 (length us) } ∷ batch us
batch-cons u [] = ground arith
batch-cons u (u' ∷ us) = ground arith

release_asks-batch :
    (h : DepthSax) (i n : ℕ)
    → i + n ≡ h.ask_n
    → release_asks h i n ≡ batch (map (update_of h ask) (levels_from h.ask_prices h.ask_qtys i n))
unfolding release_asks
release_asks-batch h i zero e = refl
release_asks-batch h i (suc zero) e = ground arith
release_asks-batch h i (suc (suc n)) e =
    ground (arith, release_asks-batch h (i + 1) (suc n) (omega arith))

release_bids-batch :
    (h : DepthSax) (i n : ℕ)
    → i + n ≡ h.bid_n
    → release_bids h i n ++ release_asks h 0 h.ask_n
      ≡ batch (
          map (update_of h bid) (levels_from h.bid_prices h.bid_qtys i n)
          ++ map (update_of h ask) (ask_levels h))
unfolding release_bids
release_bids-batch h i zero e = release_asks-batch h 0 h.ask_n (omega arith)
release_bids-batch h i (suc zero) e =
    let asks = map (update_of h ask) (ask_levels h) in
    ground (
      arith,
      release_asks-batch h 0 h.ask_n (omega arith),
      batch-cons (update_of h bid (get_or h.bid_prices i 0, get_or h.bid_qtys i 0)) asks,
      length-map (ask_levels h) (update_of h ask),
      length-levels_from h.ask_prices h.ask_qtys 0 h.ask_n,
    )
release_bids-batch h i (suc (suc n)) e =
    ground (arith, release_bids-batch h (i + 1) (suc n) (omega arith))

-- `Release` passes on every level, the bids before the asks, each with the fields of the event, and
-- `has_more` is false in the last update only.
pub release-batch :
    (h : DepthSax)
    → release h
      ≡ batch (map (update_of h bid) (bid_levels h) ++ map (update_of h ask) (ask_levels h))
unfolding release
release-batch h = release_bids-batch h 0 h.bid_n (omega arith)
