-- ===== src/Parser/Rows.antt =====
-- The rows of prices and quantities that depth updates and snapshots of lib/binance/parser.cpp share.
use hft_demo.Common.{
  ℕ, ◌≤◌, ◌≡◌, false, List, [], ◌∷◌, ◌++◌, Option, some, arith, ltb, if◌then◌else◌, length,
  Option-cases, inl, inr,
}
use hft_demo.Market.{price_shift, quantity_shift}
use hft_demo.Parser.Decimal.{parse_fixed_decimal_string}
use hft_demo.Parser.Events.{Event, string, start_array, end_array}
use hft_demo.Parser.Depth.{row0_cap}
use hft_demo.Parser.Depth.Release.{Level}

-- A row as it is sent: the text of a price and the text of a quantity.
abbrev pub RowText : Type 0
RowText = List ℕ × List ℕ

abbrev pub row_events : RowText → List Event
row_events (p, q) = start_array ∷ string p ∷ string q ∷ end_array 2 ∷ []

abbrev pub rows_events : List RowText → List Event
rows_events [] = []
rows_events (r ∷ rs) = row_events r ++ rows_events rs

-- The level of a row, if its price is short enough for the buffer and both texts are good.
unfoldable pub row_level : RowText → Option Level
row_level (p, q) =
    if ltb row0_cap (length p)
    then Option.none
    else elim (parse_fixed_decimal_string p price_shift) [
      | Option.none ↦ Option.none
      | some price ↦ elim (parse_fixed_decimal_string q quantity_shift) [
        | Option.none ↦ Option.none
        | some qty ↦ some (price, qty)
      ]
    ]

-- The levels of the rows up to the first bad one.
unfoldable pub good_rows : List RowText → List Level
good_rows [] = []
good_rows (r ∷ rs) = elim (row_level r) [ Option.none ↦ [] | some l ↦ l ∷ good_rows rs ]

pub row_level-short :
    (p q : List ℕ) {l : Level} → row_level (p, q) ≡ some l → ltb row0_cap (length p) ≡ false
unfolding row_level
row_level-short p q h = ground arith

pub good_rows-bad :
    (r : RowText) (rs : List RowText) → row_level r ≡ Option.none → good_rows (r ∷ rs) ≡ []
unfolding good_rows
good_rows-bad r rs h = rw (h, good_rows)

pub good_rows-good :
    (r : RowText) (rs : List RowText) {l : Level}
    → row_level r ≡ some l
    → good_rows (r ∷ rs) ≡ l ∷ good_rows rs
unfolding good_rows
good_rows-good r rs h = ground arith

-- There are no more levels than rows.
pub length-good_rows : (rs : List RowText) → length (good_rows rs) ≤ length rs
length-good_rows [] = unfold good_rows in omega arith
length-good_rows (r ∷ rs) = elim (Option-cases (row_level r)) [
  | inl bad ↦ rw (good_rows-bad r rs bad) (omega arith)
  | inr (l, good) ↦ rw (good_rows-good r rs good) (omega (arith, length-good_rows rs))
]
