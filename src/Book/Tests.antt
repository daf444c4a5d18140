-- ===== src/Book/Tests.antt =====
-- Tests of the book.
use hft_demo.Common.{
  inr, ℕ, ◌≡◌, refl, arith, true, [], ◌∷◌, memmove, take, ◌==◌, if◌then◌else◌, ◌<◌,
}
use hft_demo.Book.{
  Row, Side, price_ascending, before, row_at, empty_book, lower_bound, position, remove_at,
  insert_at, update_at, update, get_best, levels,
}
use hft_demo.Book.Levels.{put, quantity_at}
use hft_demo.Book.Refine.{IsValid, update_refines}
use hft_demo.Book.Sides.{quantity_at-update}
use hft_demo.Book.Top.{get_best-first, IsBook, bid, ask, changes, changes-IsBook, empty_book-IsBook}

abbrev row : ℕ → ℕ → Row
row p q = record { price = p; quantity = q }

abbrev three_asks : Side
three_asks = record { rows = row 5 1 ∷ row 7 2 ∷ row 9 3 ∷ []; count = 3 }

three_asks-IsValid : IsValid 3 price_ascending three_asks
three_asks-IsValid = record { whole = refl; fits = omega arith; sorted = (refl, (refl, tt)) }

update_runs : levels (update 3 price_ascending three_asks 6 4) ≡ row 5 1 ∷ row 6 4 ∷ row 7 2 ∷ []
unfolding update update_at position lower_bound insert_at remove_at memmove
update_runs = refl

remove_runs : levels (update 3 price_ascending three_asks 5 0) ≡ row 7 2 ∷ row 9 3 ∷ []
unfolding update update_at position lower_bound insert_at remove_at memmove
remove_runs = refl

update_refines_example :
    levels (update 3 price_ascending three_asks 6 4)
    ≡ take 3 (put price_ascending 6 4 (levels three_asks))
update_refines_example = update_refines three_asks-IsValid 6 4

quantity_at-update_example :
    quantity_at 7 (levels (update 3 price_ascending three_asks 6 4))
    ≡ (if 6 == 7 then 4 else quantity_at 7 (levels three_asks))
quantity_at-update_example = quantity_at-update three_asks-IsValid 6 4 7 (inr refl)

get_best-first_example :
    (get_best three_asks ≡ row_at (levels three_asks) 0)
    × ((i : ℕ)
        → 0 < i
        → i < 3
        → before price_ascending (get_best three_asks).price (row_at (levels three_asks) i).price
          ≡ true)
get_best-first_example = get_best-first three_asks-IsValid (omega arith)

changes-IsBook_example :
    IsBook 3 (changes 3 (empty_book 3) (bid 1 7 2 ∷ ask 2 9 1 ∷ bid 3 7 0 ∷ []))
changes-IsBook_example =
    changes-IsBook 3 (empty_book 3) (bid 1 7 2 ∷ ask 2 9 1 ∷ bid 3 7 0 ∷ []) (empty_book-IsBook 3)
