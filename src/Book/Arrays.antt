-- ===== src/Book/Arrays.antt =====
-- What the three writes of `Update` do to the rows in use, seen as a list: the moves inside the
-- array keep every row but the one removed, or the worst one of a full side.
use hft_demo.Common.{
  ℕ, suc, ◌+◌, ◌-◌, ◌≤◌, ◌<◌, ◌≡◌, List, [], ◌∷◌, ◌++◌, arith, ltb, if◌then◌else◌, length,
  get_elem?, set, take, drop, memmove, length-memmove, get_elem?-memmove, length-take,
  get_elem?-set, get_elem?-take, get_elem?-drop, get_elem?-append, get_elem?-append_at,
  get_elem?-append_left, get_elem?-drop_at, dec_lt, get_elem?-ext, some, lt→ltb, le→ltb_false,
}
use hft_demo.Book.{Row, Side, remove_at, insert_at, levels}

module _ (s : Side) (stored : s.count ≤ length s.rows) where
  pub length-levels : length (levels s) ≡ s.count
  length-levels = omega (arith, length-take s.count s.rows)

  pub levels-remove_at :
      (pos : ℕ)
      → pos < s.count
      → levels (remove_at s pos) ≡ take pos (levels s) ++ drop (suc pos) (levels s)
  unfolding remove_at
  levels-remove_at pos h = get_elem?-ext _ _ at
    where
      v : List Row
      v = levels s

      at :
          (i : ℕ)
          → get_elem? (levels (remove_at s pos)) i ≡ get_elem? (take pos v ++ drop (suc pos) v) i
      at i = ground (
        arith,
        get_elem?-take (s.count - 1) i (memmove pos (pos + 1) (s.count - pos - 1) s.rows),
        get_elem?-memmove pos (pos + 1) (s.count - pos - 1) s.rows (omega arith) (omega arith) i,
        get_elem?-append (take pos v) (drop (suc pos) v) i,
        length-take pos v,
        length-levels,
        get_elem?-take pos i v,
        get_elem?-drop (suc pos) (i - length (take pos v)) v,
        get_elem?-take s.count i s.rows,
        get_elem?-take s.count (suc pos + (i - length (take pos v))) s.rows,
      )

  pub levels-set :
      (pos : ℕ) (r : Row)
      → pos < s.count
      → levels (record s { rows = set s.rows pos r }) ≡ set (levels s) pos r
  levels-set pos r h = get_elem?-ext _ _ at
    where
      at :
          (i : ℕ)
          → get_elem? (take s.count (set s.rows pos r)) i ≡ get_elem? (set (levels s) pos r) i
      at i = ground (
        arith,
        get_elem?-take s.count i (set s.rows pos r),
        get_elem?-set s.rows pos i r (omega arith),
        get_elem?-set (levels s) pos i r (omega (arith, length-levels)),
        get_elem?-take s.count i s.rows,
      )

  module _ (depth pos price quantity : ℕ) (whole : length s.rows ≡ depth) (h : pos ≤ s.count) where
    abbrev pub row : Row
    row = record { price = price; quantity = quantity }

    -- Index by index: the levels with the row put in at `pos`, and the worst cut off at `depth`.
    inserted :
        (i : ℕ)
        → get_elem? (take depth (take pos (levels s) ++ row ∷ drop pos (levels s))) i ≡ (
            if ltb i depth
            then (if ltb i pos
                then get_elem? (levels s) i
                else (if ltb pos i then get_elem? (levels s) (i - 1) else some row))
            else get_elem? {A = Row} [] i)
    inserted i = elim (dec_lt i pos) [
      | yes low ↦ ground (
        arith,
        get_elem?-take depth i (front ++ row ∷ back),
        get_elem?-append_left front (row ∷ back) i
            (omega (arith, length-take pos (levels s), length-levels)),
        get_elem?-take pos i (levels s),
      )
      | no low ↦ elim (dec_lt pos i) [
        | yes high ↦ ground (
          arith,
          get_elem?-take depth i (front ++ row ∷ back),
          get_elem?-append_at front (row ∷ back) i (suc (i - pos - 1))
              (omega (arith, length-take pos (levels s), length-levels)),
          get_elem?-drop_at pos (i - pos - 1) (i - 1) (levels s) (omega arith),
        )
        | no high ↦ ground (
          arith,
          get_elem?-take depth i (front ++ row ∷ back),
          get_elem?-append_at front (row ∷ back) i 0
              (omega (arith, length-take pos (levels s), length-levels)),
        )
      ]
    ]
      where
        front : List Row
        front = take pos (levels s)

        back : List Row
        back = drop pos (levels s)

    levels-insert_at_room :
        s.count < depth
        → levels (insert_at depth s pos price quantity)
          ≡ take depth (take pos (levels s) ++ row ∷ drop pos (levels s))
    unfolding insert_at
    levels-insert_at_room room =
        rw (le→ltb_false s.count pos h, lt→ltb s.count depth room) (get_elem?-ext _ _ at)
      where
        moved : List Row
        moved = memmove (pos + 1) pos (s.count - pos) s.rows

        at :
            (i : ℕ)
            → get_elem? (take (s.count + 1) (set moved pos row)) i
              ≡ get_elem? (take depth (take pos (levels s) ++ row ∷ drop pos (levels s))) i
        at i = ground (
          arith,
          inserted i,
          get_elem?-take (s.count + 1) i (set moved pos row),
          get_elem?-set moved pos i row (
              omega (
                arith,
                length-memmove (pos + 1) pos (s.count - pos) s.rows (omega arith) (omega arith),
              )),
          get_elem?-memmove (pos + 1) pos (s.count - pos) s.rows (omega arith) (omega arith) i,
          get_elem?-take s.count i s.rows,
          get_elem?-take s.count (i - 1) s.rows,
        )

    levels-insert_at_full :
        s.count ≡ depth
        → levels (insert_at depth s pos price quantity)
          ≡ take depth (take pos (levels s) ++ row ∷ drop pos (levels s))
    unfolding insert_at
    levels-insert_at_full full = elim (dec_lt pos depth) [
      | yes inside ↦
          rw
            (
              le→ltb_false s.count pos h,
              le→ltb_false s.count depth (omega arith),
              lt→ltb pos depth inside,
            )
            (get_elem?-ext _ _ (at inside))
      | no end ↦
          rw
            (
              le→ltb_false s.count pos h,
              le→ltb_false s.count depth (omega arith),
              le→ltb_false pos depth (omega arith),
            )
            (get_elem?-ext _ _ (at_end end))
    ]
      where
        moved : List Row
        moved = memmove (pos + 1) pos (depth - 1 - pos) s.rows

        at :
            pos < depth
            → (i : ℕ)
            → get_elem? (take s.count (set moved pos row)) i
              ≡ get_elem? (take depth (take pos (levels s) ++ row ∷ drop pos (levels s))) i
        at inside i = ground (
          arith,
          inserted i,
          get_elem?-take s.count i (set moved pos row),
          get_elem?-set moved pos i row (
              omega (
                arith,
                length-memmove (pos + 1) pos (depth - 1 - pos) s.rows (omega arith) (omega arith),
              )),
          get_elem?-memmove (pos + 1) pos (depth - 1 - pos) s.rows (omega arith) (omega arith) i,
          get_elem?-take s.count i s.rows,
          get_elem?-take s.count (i - 1) s.rows,
        )

        at_end :
            ¬ (pos < depth)
            → (i : ℕ)
            → get_elem? (levels s) i
              ≡ get_elem? (take depth (take pos (levels s) ++ row ∷ drop pos (levels s))) i
        at_end end i = ground (arith, inserted i, get_elem?-take s.count i s.rows)

    -- `InsertAt` on a side that is not over-full.
    pub levels-insert_at :
        s.count ≤ depth
        → levels (insert_at depth s pos price quantity)
          ≡ take depth (take pos (levels s) ++ row ∷ drop pos (levels s))
    levels-insert_at fits = elim (dec_lt s.count depth) [
      | yes room ↦ levels-insert_at_room room
      | no full ↦ levels-insert_at_full (omega arith)
    ]
