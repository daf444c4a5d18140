-- ===== src/Book/Sides.antt =====
-- Validity through every operation of a side, and what an update means for the quantity at each
-- price.
use hft_demo.Common.{
  ℕ, zero, suc, ◌+◌, ◌-◌, ◌≤◌, ◌<◌, ◌≡◌, refl, ◌∙◌, List, [], ◌∷◌, arith, ltb, ◌&&◌, if◌then◌else◌,
  length, set, take, memmove, length-memmove, ◌==◌, get_or, min, length-replicate, get_elem?,
  get_elem?-ext, get_elem?-set, get_elem?-take, leb, length-set, take_all, some, ap, subst, ◌⊎◌,
  inl, inr, Bool-cases, Bool, true,
}
use hft_demo.Book.{
  Row, SideOrder, row_at, empty_row, empty_side, Side, position, remove_at, insert_at, update_at,
  update, levels, init, fill, before,
}
use hft_demo.Book.Levels.{
  IsSorted, put, length-put, put-IsSorted, take-IsSorted, quantity_at, quantity_at-put,
  quantity_at-cut,
}
use hft_demo.Book.Arrays.{length-levels}
use hft_demo.Book.Refine.{IsValid, update_refines}

-- `RemoveAt` and `InsertAt` stay inside the array.
module _ (depth : ℕ) (s : Side) (whole : length s.rows ≡ depth) (fits : s.count ≤ depth) where
  record Fits (t : Side) : Type 0 where
    same_length : length t.rows ≡ depth
    in_range : t.count ≤ depth

  remove_at-Fits : (pos : ℕ) → pos < s.count → Fits (remove_at s pos)
  unfolding remove_at
  remove_at-Fits pos h =
      omega
        (arith, length-memmove pos (pos + 1) (s.count - pos - 1) s.rows (omega arith) (omega arith))

  insert_at-Fits : (pos price quantity : ℕ) → Fits (insert_at depth s pos price quantity)
  unfolding insert_at
  insert_at-Fits pos price quantity =
      let r : Row = record { price = price; quantity = quantity } in
      ground (
        arith,
        length-set (memmove (pos + 1) pos (s.count - pos) s.rows) pos r,
        length-set (memmove (pos + 1) pos (depth - 1 - pos) s.rows) pos r,
        λ (p : pos ≤ s.count) (q : s.count < depth).
            length-memmove (pos + 1) pos (s.count - pos) s.rows (omega arith) (omega arith),
        λ (p : pos < depth).
            length-memmove (pos + 1) pos (depth - 1 - pos) s.rows (omega arith) (omega arith),
      )

  update_at-Fits : (pos price quantity : ℕ) → Fits (update_at depth s pos price quantity)
  unfolding update_at
  update_at-Fits pos price quantity = ground (
    arith,
    remove_at-Fits pos,
    insert_at-Fits pos price quantity,
    length-set s.rows pos (record (row_at s.rows pos) { quantity = quantity }),
  )

-- An update keeps the array whole, the count within the depth and the rows in strict price order.
pub update-IsValid :
    {depth : ℕ} {o : SideOrder} {s : Side}
    → IsValid depth o s
    → (price quantity : ℕ) → IsValid depth o (update depth o s price quantity)
update-IsValid {depth} {o} {s} v price quantity = record {
  whole = unfold update in fit.same_length;
  fits = unfold update in fit.in_range;
  sorted =
      rw (update_refines v price quantity)
        (take-IsSorted o depth _ (put-IsSorted o price quantity (levels s) v.sorted));
}
  where
    fit : Fits depth s v.whole v.fits (update_at depth s (position o s price) price quantity)
    fit = update_at-Fits depth s v.whole v.fits (position o s price) price quantity

-- The price comes before that of the last level.
abbrev pub is_ahead_of_last : SideOrder → ℕ → List Row → Bool
is_ahead_of_last o p rs = ltb 0 (length rs) && before o p (row_at rs (length rs - 1)).price

-- The cut at the depth loses no level at the price.
cut-room :
    {depth : ℕ} {o : SideOrder} {s : Side}
    → IsValid depth o s
    → (price quantity p : ℕ) → s.count < depth
    → quantity_at p (take depth (put o price quantity (levels s)))
      ≡ quantity_at p (put o price quantity (levels s))
cut-room {depth} {o} {s} v price quantity p room = ap (quantity_at p) (
    take_all depth (put o price quantity (levels s))
      (omega (arith, length-put o price quantity (levels s), length-levels s (omega arith))))

cut_lem :
    {depth : ℕ} {o : SideOrder} {s : Side}
    → IsValid depth o s
    → (price quantity p : ℕ) → (s.count < depth) ⊎ (is_ahead_of_last o p (levels s) ≡ true)
    → quantity_at p (take depth (put o price quantity (levels s)))
      ≡ quantity_at p (put o price quantity (levels s))
cut_lem v price quantity p (inl room) = cut-room v price quantity p room
cut_lem {depth} {o} {s} v price quantity p (inr ahead) = elim (Bool-cases (ltb s.count depth)) [
  | inl room ↦ cut-room v price quantity p (ground (arith, room))
  | inr full ↦
      let whole = length-levels s (omega (arith, v.fits)) in
      let some_level : 0 < length (levels s) = ground (arith, ahead) in
      let last : before o p (row_at (levels s) (length (levels s) - 1)).price ≡ true =
        ground (arith, ahead) in
      let same : suc (length (levels s) - 1) ≡ depth =
        ground (arith, full, v.fits, whole, some_level) in
      subst
        (λ d.
          quantity_at p (take d (put o price quantity (levels s)))
          ≡ quantity_at p (put o price quantity (levels s)))
        same
        (quantity_at-cut o price quantity p (length (levels s) - 1) (levels s) (omega arith) last)
]

-- Where a valid side is not full or a price comes before that of its last level, an update sets the
-- quantity at that price, 0 for none, if it is the update's own price, and else leaves it as it was,
-- also when the update pushes the last level out.
pub quantity_at-update :
    {depth : ℕ} {o : SideOrder} {s : Side}
    → IsValid depth o s
    → (price quantity p : ℕ) → (s.count < depth) ⊎ (is_ahead_of_last o p (levels s) ≡ true)
    → quantity_at p (levels (update depth o s price quantity))
      ≡ (if price == p then quantity else quantity_at p (levels s))
quantity_at-update {depth} {o} {s} v price quantity p kept =
    rw (update_refines v price quantity, cut_lem v price quantity p kept)
      (quantity_at-put o price quantity p (levels s) v.sorted)

-- A side that no call has touched.
pub empty_side-IsValid : (depth : ℕ) (o : SideOrder) → IsValid depth o (empty_side depth)
empty_side-IsValid depth o = record {
  whole = length-replicate depth empty_row;
  fits = omega arith;
  sorted = tt;
}

-- The rows that `Init` is given, as a list.
abbrev pub zip_rows : List ℕ → List ℕ → List Row
zip_rows [] quantities = []
zip_rows (p ∷ prices) [] = []
zip_rows (p ∷ prices) (q ∷ quantities) =
    record { price = p; quantity = q } ∷ zip_rows prices quantities

get_elem?-zip_rows :
    (prices quantities : List ℕ) (i : ℕ)
    → i < length prices
    → i < length quantities
    → get_elem? (zip_rows prices quantities) i
      ≡ some (record { price = get_or prices i 0; quantity = get_or quantities i 0 })
get_elem?-zip_rows [] quantities i h k = absurd (omega arith)
get_elem?-zip_rows (p ∷ prices) [] i h k = absurd (omega arith)
get_elem?-zip_rows (p ∷ prices) (q ∷ quantities) zero h k = refl
get_elem?-zip_rows (p ∷ prices) (q ∷ quantities) (suc i) h k =
    get_elem?-zip_rows prices quantities i (omega arith) (omega arith)

length-fill :
    (prices quantities : List ℕ) (n i : ℕ) (rows : List Row)
    → length (fill prices quantities n i rows) ≡ length rows
unfolding fill
length-fill prices quantities zero i rows = refl
length-fill prices quantities (suc n) i rows =
    length-fill prices quantities n (i + 1) _ ∙ length-set rows i _

get_elem?-fill :
    (prices quantities : List ℕ) (n i : ℕ) (rows : List Row) (j : ℕ)
    → i + n ≤ length rows
    → get_elem? (fill prices quantities n i rows) j ≡ (
        if leb i j && ltb j (i + n)
        then some (record { price = get_or prices j 0; quantity = get_or quantities j 0 })
        else get_elem? rows j)
unfolding fill
get_elem?-fill prices quantities zero i rows j h = ground arith
get_elem?-fill prices quantities (suc n) i rows j h =
    let r : Row = record { price = get_or prices i 0; quantity = get_or quantities i 0 } in
    ground (
      arith,
      get_elem?-fill prices quantities n (i + 1) (set rows i r) j
          (omega (arith, length-set rows i r)),
      get_elem?-set rows i j r (omega arith),
    )

module _ (depth : ℕ) (s : Side) (prices quantities : List ℕ) (count : ℕ)
    (whole : length s.rows ≡ depth) (p : min depth count ≤ length prices)
    (q : min depth count ≤ length quantities) where
  -- `Init` leaves a side whose array has `depth` places with the given rows, up to the depth, and
  -- nothing of what it held, where as many prices and quantities are given.
  pub init_refines :
      levels (init depth s prices quantities count)
      ≡ take (min depth count) (zip_rows prices quantities)
  unfolding init
  init_refines = get_elem?-ext _ _ at
    where
      n : ℕ
      n = if ltb depth count then depth else count

      capped : n ≡ min depth count
      capped = ground arith

      at :
          (i : ℕ)
          → get_elem? (take n (fill prices quantities n 0 s.rows)) i
            ≡ get_elem? (take (min depth count) (zip_rows prices quantities)) i
      at i = ground (
        arith,
        capped,
        get_elem?-take n i (fill prices quantities n 0 s.rows),
        get_elem?-fill prices quantities n 0 s.rows i (omega (arith, capped)),
        get_elem?-take (min depth count) i (zip_rows prices quantities),
        get_elem?-zip_rows prices quantities i,
      )

  -- `Init` makes a side valid whenever the rows that it is given are in strict price order.
  pub init-IsValid :
      (o : SideOrder)
      → IsSorted o (take (min depth count) (zip_rows prices quantities))
      → IsValid depth o (init depth s prices quantities count)
  init-IsValid o sorted = record {
    whole = unfold init in (length-fill prices quantities _ 0 s.rows ∙ whole);
    fits = unfold init in ground arith;
    sorted = rw init_refines sorted;
  }
