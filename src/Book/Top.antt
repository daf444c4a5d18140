-- ===== src/Book/Top.antt =====
-- What the strategy reads of a side: its best level and its first levels; and a book under a
-- sequence of updates.
use hft_demo.Common.{
  ℕ, zero, suc, ◌<◌, ◌≡◌, refl, true, false, List, [], ◌∷◌, arith, ◌==◌, if◌then◌else◌, length,
  take, min, take_all, ◌||◌, dec_le, ◌∙◌, sym,
}
use hft_demo.Book.{
  Row, SideOrder, price_ascending, price_descending, before, row_at, Side, levels, get_best, top,
  Book, update_bid, update_ask, empty_book,
}
use hft_demo.Book.Search.{IsSorted→IsOrdered}
use hft_demo.Book.Arrays.{length-levels}
use hft_demo.Book.Refine.{IsValid, row_at-levels}
use hft_demo.Book.Sides.{update-IsValid, empty_side-IsValid}

-- `GetBest` of a valid side that holds a level is a level that strictly precedes all others.
pub get_best-first :
    {depth : ℕ} {o : SideOrder} {s : Side}
    → IsValid depth o s
    → 0 < s.count
    → (get_best s ≡ row_at (levels s) 0)
      × ((i : ℕ)
          → 0 < i
          → i < s.count
          → before o (get_best s).price (row_at (levels s) i).price ≡ true)
unfolding get_best
get_best-first {o} {s} v h = rw nonempty (
  sym_row,
  λ i p q. rw (← row_at-levels v 0 0 h) (
      IsSorted→IsOrdered o (levels s) v.sorted 0 i p
        (omega (arith, length-levels s (omega arith)))),
)
  where
    nonempty : (s.count == 0) ≡ false
    nonempty = ground arith

    sym_row : row_at s.rows 0 ≡ row_at (levels s) 0
    sym_row = rw (row_at-levels v 0 0 h)

take-min : (n : ℕ) (xs : List Row) → take (min n (length xs)) xs ≡ take n xs
take-min n xs = elim (dec_le n (length xs)) [
  | yes h ↦ let e : min n (length xs) ≡ n = omega arith in rw e
  | no h ↦
      let e : min n (length xs) ≡ length xs = omega arith in
      rw e (take_all (length xs) xs (omega arith) ∙ sym (take_all n xs (omega arith)))
]

top_cases :
    (n : ℕ) (xs : List Row)
    → (if n == 0 || length xs == 0 then [] else take (min n (length xs)) xs) ≡ take n xs
top_cases zero xs = refl
top_cases (suc n) [] = ground arith
top_cases (suc n) (x ∷ xs) = ground (arith, take-min (suc n) (x ∷ xs))

-- `GetTopBids` and `GetTopAsks` return the first `n` levels, or all where there are fewer.
pub top_lem : (s : Side) (n : ℕ) → top s n ≡ take n (levels s)
unfolding top
top_lem s n = top_cases n (levels s)

-- Both sides of a book are valid.
pub record IsBook (depth : ℕ) (b : Book) : Type 0 where
  pub bids : IsValid depth price_descending b.bids
  pub asks : IsValid depth price_ascending b.asks

-- One call of `UpdateBid` or `UpdateAsk`.
pub data Change : Type 0 where
  bid ask : (id price quantity : ℕ) → Change

pub change : ℕ → Book → Change → Book
change depth b (bid id price quantity) = update_bid depth b id price quantity
change depth b (ask id price quantity) = update_ask depth b id price quantity

pub changes : ℕ → Book → List Change → Book
changes depth b [] = b
changes depth b (c ∷ cs) = changes depth (change depth b c) cs

change-IsBook :
    (depth : ℕ) (b : Book) (c : Change) → IsBook depth b → IsBook depth (change depth b c)
unfolding change update_bid update_ask
change-IsBook depth b (bid id price quantity) v = record {
  bids = update-IsValid v.bids price quantity;
  asks = v.asks;
}
change-IsBook depth b (ask id price quantity) v = record {
  bids = v.bids;
  asks = update-IsValid v.asks price quantity;
}

-- Every sequence of `UpdateBid` and `UpdateAsk` calls on a valid book leaves it valid.
pub changes-IsBook :
    (depth : ℕ) (b : Book) (cs : List Change) → IsBook depth b → IsBook depth (changes depth b cs)
unfolding changes
changes-IsBook depth b [] v = v
changes-IsBook depth b (c ∷ cs) v =
    changes-IsBook depth (change depth b c) cs (change-IsBook depth b c v)

pub empty_book-IsBook : (depth : ℕ) → IsBook depth (empty_book depth)
empty_book-IsBook depth = record {
  bids = empty_side-IsValid depth price_descending;
  asks = empty_side-IsValid depth price_ascending;
}
