-- ===== src/Parser/Depth/Rows.antt =====
-- The rows of one side: the handler keeps the levels of the leading good rows and drops the others.
use hft_demo.Common.{
  ℕ, ◌+◌, ◌≤◌, ◌<◌, ◌≡◌, refl, ap, ◌∙◌, Bool, true, false, List, [], ◌∷◌, ◌++◌, append_assoc,
  Option, some, arith, ltb, if◌then◌else◌, length, set, Bool-cases, Option-cases, inl, inr,
}
use hft_demo.Parser.Events.{Event, string, start_array, end_array, feed, feed-step}
use hft_demo.Parser.Depth.{
  DepthSax, max_depth_levels_per_side, row0_cap, push_level, close_row, row_string, on_string,
  on_start_array, on_end_array, handle,
}
use hft_demo.Parser.Depth.Release.{Level}
use hft_demo.Parser.Rows.{
  RowText, row_events, rows_events, row_level, good_rows, row_level-short, good_rows-bad,
  good_rows-good,
}

-- What a good row does: its level behind the last one of the current side.
abbrev pub push : DepthSax → Level → DepthSax
push h l = record h {
  bid_prices = if h.current_side_is_bid then set h.bid_prices h.bid_n l.0 else h.bid_prices;
  bid_qtys = if h.current_side_is_bid then set h.bid_qtys h.bid_n l.1 else h.bid_qtys;
  bid_n = if h.current_side_is_bid then h.bid_n + 1 else h.bid_n;
  ask_prices = if h.current_side_is_bid then h.ask_prices else set h.ask_prices h.ask_n l.0;
  ask_qtys = if h.current_side_is_bid then h.ask_qtys else set h.ask_qtys h.ask_n l.1;
  ask_n = if h.current_side_is_bid then h.ask_n else h.ask_n + 1;
}

abbrev pub pushes : DepthSax → List Level → DepthSax
pushes h [] = h
pushes h (l ∷ ls) = pushes (push h l) ls

-- The members that a row uses for itself.
abbrev pub scratch : DepthSax → List ℕ → ℕ → Bool → DepthSax
scratch h x i stop = record h { row0 = x; row_string_idx = i; stop_side_levels = stop }

-- The count of the current side.
abbrev pub side_count : DepthSax → ℕ
side_count h = if h.current_side_is_bid then h.bid_n else h.ask_n

module _ (h : DepthSax) (x : List ℕ) (i : ℕ) (in_side : h.array_depth ≡ 1) where
  opened :
      (stop : Bool)
      → handle (scratch h x i stop) start_array
        ≡ (record (scratch h x 0 stop) { array_depth = 2 }, true)
  unfolding handle on_start_array
  opened stop = ground arith

  skipped :
      (y : List ℕ)
      → handle (record (scratch h x 0 true) { array_depth = 2 }) (string y)
        ≡ (record (scratch h x 0 true) { array_depth = 2 }, true)
  unfolding handle on_string row_string
  skipped y = ground arith

  closed :
      (stop : Bool)
      → handle (record (scratch h x 0 stop) { array_depth = 2 }) (end_array 2)
        ≡ (scratch h x 0 stop, true)
  unfolding handle on_end_array
  closed stop = ground arith

  row-stopped :
      (r : RowText) (rest : List Event)
      → feed handle (scratch h x i true) (row_events r ++ rest)
        ≡ feed handle (scratch h x 0 true) rest
  row-stopped (p, q) rest =
      feed-step handle _ start_array _ (opened true)
      ∙ feed-step handle _ (string p) _ (skipped p)
      ∙ feed-step handle _ (string q) _ (skipped q)
      ∙ feed-step handle _ (end_array 2) _ (closed true)

  first_kept :
      (p : List ℕ)
      → ltb row0_cap (length p) ≡ false
      → handle (record (scratch h x 0 false) { array_depth = 2 }) (string p)
        ≡ (record (scratch h p 1 false) { array_depth = 2 }, true)
  unfolding handle on_string row_string
  first_kept p short = ground arith

  first_long :
      (p : List ℕ)
      → ltb row0_cap (length p) ≡ true
      → handle (record (scratch h x 0 false) { array_depth = 2 }) (string p)
        ≡ (record (scratch h x 0 true) { array_depth = 2 }, true)
  unfolding handle on_string row_string
  first_long p long = ground arith

  second_bad :
      (p q : List ℕ)
      → ltb row0_cap (length p) ≡ false
      → row_level (p, q) ≡ Option.none
      → handle (record (scratch h p 1 false) { array_depth = 2 }) (string q)
        ≡ (record (scratch h p 0 true) { array_depth = 2 }, true)
  unfolding handle on_string row_string close_row row_level
  second_bad p q short bad = ground arith

  second_good :
      (p q : List ℕ) (l : Level)
      → row_level (p, q) ≡ some l
      → side_count h < max_depth_levels_per_side
      → handle (record (scratch h p 1 false) { array_depth = 2 }) (string q)
        ≡ (record (scratch (push h l) p 0 false) { array_depth = 2 }, true)
  unfolding handle on_string row_string close_row push_level row_level
  second_good p q l good room = ground arith

  row-good :
      (r : RowText) (l : Level) (rest : List Event)
      → row_level r ≡ some l
      → side_count h < max_depth_levels_per_side
      → feed handle (scratch h x i false) (row_events r ++ rest)
        ≡ feed handle (scratch (push h l) r.0 0 false) rest
  row-good (p, q) l rest good room =
      feed-step handle _ start_array _ (opened false)
      ∙ feed-step handle _ (string p) _ (first_kept p (row_level-short p q good))
      ∙ feed-step handle _ (string q) _ (second_good p q l good room)
      ∙ feed-step handle _ (end_array 2) _ (unfold handle on_end_array in ground arith)

  -- A bad row adds nothing, and no row behind it will.
  row-bad :
      (r : RowText) (rest : List Event)
      → row_level r ≡ Option.none
      → (y : List ℕ) × (feed handle (scratch h x i false) (row_events r ++ rest)
          ≡ feed handle (scratch h y 0 true) rest)
  row-bad (p, q) rest bad = elim (Bool-cases (ltb row0_cap (length p))) [
    | inl long ↦ (
      x,
      feed-step handle _ start_array _ (opened false)
          ∙ feed-step handle _ (string p) _ (first_long p long)
          ∙ feed-step handle _ (string q) _ (skipped q)
          ∙ feed-step handle _ (end_array 2) _ (closed true),
    )
    | inr short ↦ (
      p,
      feed-step handle _ start_array _ (opened false)
          ∙ feed-step handle _ (string p) _ (first_kept p short)
          ∙ feed-step handle _ (string q) _ (second_bad p q short bad)
          ∙ feed-step handle _ (end_array 2) _ (unfold handle on_end_array in ground arith),
    )
  ]

rows-stopped :
    (h : DepthSax) (x : List ℕ) (i : ℕ)
    → h.array_depth ≡ 1
    → (rs : List RowText) (rest : List Event)
    → (j : ℕ) × (feed handle (scratch h x i true) (rows_events rs ++ rest)
        ≡ feed handle (scratch h x j true) rest)
rows-stopped h x i a [] rest = (i, refl)
rows-stopped h x i a (r ∷ rs) rest =
    let (j, e) = rows-stopped h x 0 a rs rest in
    (
      j,
      ap (feed handle (scratch h x i true)) (append_assoc (row_events r) (rows_events rs) rest)
          ∙ row-stopped h x i a r (rows_events rs ++ rest)
          ∙ e,
    )

-- Fed the rows of a side inside its array, the handler goes on to the rest with the good levels
-- added to that side and nothing else changed but its scratch members, given that the side has places
-- for them.
pub rows-feed :
    (h : DepthSax) (x : List ℕ) (i : ℕ)
    → h.array_depth ≡ 1
    → (rs : List RowText) (rest : List Event)
    → side_count h + length (good_rows rs) ≤ max_depth_levels_per_side
    → (y : List ℕ) × (j : ℕ) × (stop : Bool) × (feed handle
          (scratch h x i false)
          (rows_events rs ++ rest)
        ≡ feed handle (scratch (pushes h (good_rows rs)) y j stop) rest)
rows-feed h x i a [] rest room = (x, i, false, unfold good_rows in refl)
rows-feed h x i a (r ∷ rs) rest room = elim (Option-cases (row_level r)) [
  | inl bad ↦
      let (y, e) = row-bad h x i a r (rows_events rs ++ rest) bad in
      let (j, e') = rows-stopped h y 0 a rs rest in
      (
        y,
        j,
        true,
        rw (good_rows-bad r rs bad) (
            ap (feed handle (scratch h x i false))
              (append_assoc (row_events r) (rows_events rs) rest)
            ∙ e
            ∙ e'),
      )
  | inr (l, good) ↦
      let (y, j, stop, e) = rows-feed (push h l) r.0 0 a rs rest (more_room l good) in
      (
        y,
        j,
        stop,
        rw (good_rows-good r rs good) (
            ap (feed handle (scratch h x i false))
              (append_assoc (row_events r) (rows_events rs) rest)
            ∙ row-good h x i a r l (rows_events rs ++ rest) good (here l good)
            ∙ e),
      )
]
  where
    more_room :
        (l : Level)
        → row_level r ≡ some l
        → side_count (push h l) + length (good_rows rs) ≤ max_depth_levels_per_side
    more_room l good = ground (arith, good_rows-good r rs good)

    here : (l : Level) → row_level r ≡ some l → side_count h < max_depth_levels_per_side
    here l good = ground (arith, good_rows-good r rs good)
