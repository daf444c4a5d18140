-- ===== src/Parser/Snapshot/Rows.antt =====
-- The rows of one side of a snapshot in SnapshotSaxHandler of lib/binance/parser.cpp: a bad row ends
-- the side, and so does a full array.
use hft_demo.Common.{
  ℕ, zero, suc, ◌+◌, ◌<◌, ◌≡◌, refl, ap, ◌∙◌, Bool, true, false, ◌||◌, not, List, [], ◌∷◌, ◌++◌,
  append_assoc, Option, some, arith, ltb, leb, if◌then◌else◌, length, set, take, Bool-cases,
  Option-cases, inl, inr,
}
use hft_demo.Market.{order_book_depth}
use hft_demo.Parser.Events.{Event, string, start_array, end_array, feed, feed-step}
use hft_demo.Parser.Depth.Release.{Level}
use hft_demo.Parser.Rows.{
  RowText, row_events, rows_events, row_level, good_rows, row_level-short, good_rows-bad,
  good_rows-good,
}
use hft_demo.Parser.Snapshot.{
  SnapshotSax, row0_cap, end_side, push_level, close_row, skips, row_text, row_string, on_string,
  on_start_array, on_end_array, handle,
}

-- What a good row does: its level behind the last one of the current side.
abbrev pub push : SnapshotSax → Level → SnapshotSax
push h l = record h {
  out = record (h.out) {
    bids_prices =
        if h.in_bids then set h.out.bids_prices h.out.bids_depth l.0 else h.out.bids_prices;
    bids_quantities =
        if h.in_bids then set h.out.bids_quantities h.out.bids_depth l.1 else h.out.bids_quantities;
    bids_depth = if h.in_bids then h.out.bids_depth + 1 else h.out.bids_depth;
    asks_prices =
        if h.in_bids then h.out.asks_prices else set h.out.asks_prices h.out.asks_depth l.0;
    asks_quantities =
        if h.in_bids then h.out.asks_quantities else set h.out.asks_quantities h.out.asks_depth l.1;
    asks_depth = if h.in_bids then h.out.asks_depth else h.out.asks_depth + 1;
  };
}

abbrev pub pushes : SnapshotSax → List Level → SnapshotSax
pushes h [] = h
pushes h (l ∷ ls) = pushes (push h l) ls

-- The members that a row uses for itself, and whether the current side is done.
abbrev pub scratch : SnapshotSax → List ℕ → ℕ → Bool → SnapshotSax
scratch h x i done = record h {
  row0 = x;
  row_string_idx = i;
  bids_side_done = if h.in_bids then done else h.bids_side_done;
  asks_side_done = if h.in_bids then h.asks_side_done else done;
}

-- The count of the current side.
abbrev pub side_count : SnapshotSax → ℕ
side_count h = if h.in_bids then h.out.bids_depth else h.out.asks_depth

module _ (h : SnapshotSax) (x : List ℕ) (i : ℕ) (in_object : h.object_depth ≡ 1)
    (in_side : h.array_depth ≡ 1) (no_field : h.pending_snapshot ≡ 0)
    (sides : h.in_asks ≡ not h.in_bids) where
  opened :
      (done : Bool)
      → handle (scratch h x i done) start_array
        ≡ (record (scratch h x 0 done) { array_depth = 2 }, true)
  unfolding handle on_start_array
  opened done = ground arith

  closed :
      (done : Bool) (j : ℕ)
      → handle (record (scratch h x j done) { array_depth = 2 }) (end_array 2)
        ≡ (scratch h x 0 done, true)
  unfolding handle on_end_array
  closed done j = ground arith

  skipped :
      (done : Bool) (y : List ℕ)
      → (done || leb order_book_depth (side_count h)) ≡ true
      → handle (record (scratch h x 0 done) { array_depth = 2 }) (string y)
        ≡ (record (scratch h x 0 done) { array_depth = 2 }, true)
  unfolding handle on_string row_string skips
  skipped done y full = ground arith

  row-skipped :
      (done : Bool) (r : RowText) (rest : List Event)
      → (done || leb order_book_depth (side_count h)) ≡ true
      → feed handle (scratch h x i done) (row_events r ++ rest)
        ≡ feed handle (scratch h x 0 done) rest
  row-skipped done (p, q) rest full =
      feed-step handle _ start_array _ (opened done)
      ∙ feed-step handle _ (string p) _ (skipped done p full)
      ∙ feed-step handle _ (string q) _ (skipped done q full)
      ∙ feed-step handle _ (end_array 2) _ (closed done 0)

  module _ (room : side_count h < order_book_depth) where
    first_kept :
        (p : List ℕ)
        → ltb row0_cap (length p) ≡ false
        → handle (record (scratch h x 0 false) { array_depth = 2 }) (string p)
          ≡ (record (scratch h p 1 false) { array_depth = 2 }, true)
    unfolding handle on_string row_string skips row_text
    first_kept p short = ground arith

    first_long :
        (p : List ℕ)
        → ltb row0_cap (length p) ≡ true
        → handle (record (scratch h x 0 false) { array_depth = 2 }) (string p)
          ≡ (record (scratch h x 0 true) { array_depth = 2 }, true)
    unfolding handle on_string row_string skips row_text end_side
    first_long p long = ground arith

    second_bad :
        (p q : List ℕ)
        → ltb row0_cap (length p) ≡ false
        → row_level (p, q) ≡ Option.none
        → handle (record (scratch h p 1 false) { array_depth = 2 }) (string q)
          ≡ (record (scratch h p 0 true) { array_depth = 2 }, true)
    unfolding handle on_string row_string skips row_text close_row row_level end_side
    second_bad p q short bad = ground arith

    second_good :
        (p q : List ℕ) (l : Level)
        → row_level (p, q) ≡ some l
        → handle (record (scratch h p 1 false) { array_depth = 2 }) (string q)
          ≡ (record (scratch (push h l) p 0 false) { array_depth = 2 }, true)
    unfolding handle on_string row_string skips row_text close_row push_level row_level
    second_good p q l good = ground arith

    row-good :
        (r : RowText) (l : Level) (rest : List Event)
        → row_level r ≡ some l
        → feed handle (scratch h x i false) (row_events r ++ rest)
          ≡ feed handle (scratch (push h l) r.0 0 false) rest
    row-good (p, q) l rest good =
        feed-step handle _ start_array _ (opened false)
        ∙ feed-step handle _ (string p) _ (first_kept p (row_level-short p q good))
        ∙ feed-step handle _ (string q) _ (second_good p q l good)
        ∙ feed-step handle _ (end_array 2) _ (unfold handle on_end_array in ground arith)

    -- A bad row adds nothing, and no row behind it will.
    row-bad :
        (r : RowText) (rest : List Event)
        → row_level r ≡ Option.none
        → (y : List ℕ) × (feed handle (scratch h x i false) (row_events r ++ rest)
            ≡ feed handle (scratch h y 0 true) rest)
    row-bad (p, q) rest bad = elim (Bool-cases (ltb row0_cap (length p))) [
      | inl long ↦ (
        x,
        feed-step handle _ start_array _ (opened false)
            ∙ feed-step handle _ (string p) _ (first_long p long)
            ∙ feed-step handle _ (string q) _ (skipped true q refl)
            ∙ feed-step handle _ (end_array 2) _ (closed true 0),
      )
      | inr short ↦ (
        p,
        feed-step handle _ start_array _ (opened false)
            ∙ feed-step handle _ (string p) _ (first_kept p short)
            ∙ feed-step handle _ (string q) _ (second_bad p q short bad)
            ∙ feed-step handle _ (end_array 2) _ (unfold handle on_end_array in ground arith),
      )
    ]

rows-skipped :
    (h : SnapshotSax) (x : List ℕ) (i : ℕ) (done : Bool)
    → h.object_depth ≡ 1
    → h.array_depth ≡ 1
    → h.pending_snapshot ≡ 0
    → h.in_asks ≡ not h.in_bids
    → (done || leb order_book_depth (side_count h)) ≡ true
    → (rs : List RowText) (rest : List Event)
    → (j : ℕ) × (feed handle (scratch h x i done) (rows_events rs ++ rest)
        ≡ feed handle (scratch h x j done) rest)
rows-skipped h x i done o a f s full [] rest = (i, refl)
rows-skipped h x i done o a f s full (r ∷ rs) rest =
    let (j, e) = rows-skipped h x 0 done o a f s full rs rest in
    (
      j,
      ap (feed handle (scratch h x i done)) (append_assoc (row_events r) (rows_events rs) rest)
          ∙ row-skipped h x i o a f s done r (rows_events rs ++ rest) full
          ∙ e,
    )

-- Fed the rows of a side inside its array, the handler goes on to the rest with the good levels
-- added to that side, as many as it has places for, and nothing else changed but its scratch members.
pub rows-feed :
    (h : SnapshotSax) (x : List ℕ) (i room : ℕ)
    → h.object_depth ≡ 1
    → h.array_depth ≡ 1
    → h.pending_snapshot ≡ 0
    → h.in_asks ≡ not h.in_bids
    → side_count h + room ≡ order_book_depth
    → (rs : List RowText) (rest : List Event)
    → (y : List ℕ) × (j : ℕ) × (done : Bool) × (feed handle
          (scratch h x i false)
          (rows_events rs ++ rest)
        ≡ feed handle (scratch (pushes h (take room (good_rows rs))) y j done) rest)
rows-feed h x i zero o a f s e rs rest =
    let (j, fed) = rows-skipped h x i false o a f s (ground arith) rs rest in (x, j, false, fed)
rows-feed h x i (suc room) o a f s e [] rest = (x, i, false, unfold good_rows in refl)
rows-feed h x i (suc room) o a f s e (r ∷ rs) rest =
    let here : side_count h < order_book_depth = omega (arith, e) in
    elim (Option-cases (row_level r)) [
      | inl bad ↦
          let (y, fed) = row-bad h x i o a f s here r (rows_events rs ++ rest) bad in
          let (j, fed') = rows-skipped h y 0 true o a f s refl rs rest in
          (
            y,
            j,
            true,
            rw (good_rows-bad r rs bad) (
                ap (feed handle (scratch h x i false))
                  (append_assoc (row_events r) (rows_events rs) rest)
                ∙ fed
                ∙ fed'),
          )
      | inr (l, good) ↦
          let (y, j, done, fed) = rows-feed (push h l) r.0 0 room o a f s (ground arith) rs rest in
          (
            y,
            j,
            done,
            rw (good_rows-good r rs good) (
                ap (feed handle (scratch h x i false))
                  (append_assoc (row_events r) (rows_events rs) rest)
                ∙ row-good h x i o a f s here r l (rows_events rs ++ rest) good
                ∙ fed),
          )
    ]
