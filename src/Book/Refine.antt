-- ===== src/Book/Refine.antt =====
-- A valid side behaves as the list of its levels: `Update` is `put` cut off at the depth.
use hft_demo.Common.{
  ℕ, suc, ◌≤◌, ◌<◌, ◌≡◌, true, ◌∷◌, ◌++◌, arith, ltb, ◌&&◌, if◌then◌else◌, length, set, take, drop,
  ◌==◌, length-set, length-take, length-drop, length-append, le→ltb_false, take_all, get_or-take,
  dec_lt,
}
use hft_demo.Book.{
  Row, SideOrder, before, row_at, empty_row, Side, position, hit, update_at, update, levels,
}
use hft_demo.Book.Levels.{IsSorted, put, put_at}
use hft_demo.Book.Search.{IsSorted→IsOrdered, Splits, search-Splits}
use hft_demo.Book.Arrays.{length-levels, levels-remove_at, levels-set, levels-insert_at}

-- The array has its full length, the count is in range, the rows in use are in price order.
pub record IsValid (depth : ℕ) (o : SideOrder) (s : Side) : Type 0 where
  pub whole : length s.rows ≡ depth
  pub fits : s.count ≤ depth
  pub sorted : IsSorted o (levels s)

module _ {depth : ℕ} {o : SideOrder} {s : Side} (v : IsValid depth o s) (price : ℕ) where
  stored : s.count ≤ length s.rows
  stored = omega arith

  pub row_at-levels : (i : ℕ) → i < s.count → row_at (levels s) i ≡ row_at s.rows i
  row_at-levels i h = get_or-take s.count i s.rows empty_row h

  -- The search of `Update` finds the place of the price among the rows in use.
  pub position-Splits : Splits o price s.rows s.count (position o s price)
  unfolding position
  position-Splits = search-Splits o price s.rows s.count ordered
    where
      ordered :
          (i j : ℕ)
          → i < j
          → j < s.count
          → before o (row_at s.rows i).price (row_at s.rows j).price ≡ true
      ordered i j p q =
          rw (← row_at-levels i (omega arith), ← row_at-levels j q)
            (IsSorted→IsOrdered o (levels s) v.sorted i j p (omega (arith, length-levels s stored)))

  put-levels :
      (quantity : ℕ)
      → let pos = position o s price in
        let at_price = ltb pos (length (levels s)) && (row_at (levels s) pos).price == price in
        let r : Row = record { price = price; quantity = quantity } in
        put o price quantity (levels s) ≡ (
          if quantity == 0
          then (if at_price then take pos (levels s) ++ drop (suc pos) (levels s) else levels s)
          else if at_price
          then set (levels s) pos r
          else take pos (levels s) ++ r ∷ drop pos (levels s))
  put-levels quantity =
      put_at o price quantity (position o s price) (levels s)
        (λ i p.
          rw (row_at-levels i (omega (arith, position-Splits.inside))) (position-Splits.low i p))
        (λ i p q.
          rw (row_at-levels i (omega (arith, length-levels s stored)))
            (position-Splits.high i (omega arith) (omega (arith, length-levels s stored))))
        (omega (arith, length-levels s stored, position-Splits.inside))

  same_hit :
      (pos : ℕ)
      → (ltb pos (length (levels s)) && (row_at (levels s) pos).price == price) ≡ hit s pos price
  same_hit pos = elim (dec_lt pos s.count) [
    | yes inside ↦ rw (length-levels s stored, row_at-levels pos inside)
    | no outside ↦ rw (length-levels s stored, le→ltb_false pos s.count (omega arith))
  ]

  -- What the code behind the search does, by the same cases as `put_at`.
  levels-update_at :
      (quantity pos : ℕ)
      → pos ≤ s.count
      → let r : Row = record { price = price; quantity = quantity } in
        levels (update_at depth s pos price quantity)
        ≡ take depth (
            if quantity == 0
            then (if hit s pos price
                then take pos (levels s) ++ drop (suc pos) (levels s)
                else levels s)
            else if hit s pos price
            then set (levels s) pos r
            else take pos (levels s) ++ r ∷ drop pos (levels s))
  unfolding update_at
  levels-update_at quantity pos h = ground (
    arith,
    levels-remove_at s stored pos,
    levels-set s stored pos (record { price = price; quantity = quantity }),
    levels-insert_at s stored depth pos price quantity v.whole h v.fits,
    take_all depth (levels s) (omega (arith, length-levels s stored)),
    take_all depth (take pos (levels s) ++ drop (suc pos) (levels s)),
    take_all depth (set (levels s) pos (record { price = price; quantity = quantity })),
    length-append (take pos (levels s)) (drop (suc pos) (levels s)),
    length-take pos (levels s),
    length-drop (suc pos) (levels s),
    length-set (levels s) pos (record { price = price; quantity = quantity }),
    length-levels s stored,
  )

  -- An update of the array of a valid side is an update of the list of its levels, of which the
  -- worst is dropped when there are more than the depth.
  pub update_refines :
      (quantity : ℕ)
      → levels (update depth o s price quantity) ≡ take depth (put o price quantity (levels s))
  unfolding update
  update_refines quantity =
      let pos = position o s price in
      rw (put-levels quantity, same_hit pos) (levels-update_at quantity pos position-Splits.inside)
