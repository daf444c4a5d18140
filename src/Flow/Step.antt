-- ===== src/Flow/Step.antt =====
-- One trade on a window: what is evicted, what is kept, and that the running sums stay exact.
use hft_demo.Common.{
  ℕ, zero, suc, ◌≤◌, ◌<◌, ◌≡◌, refl, ap, ◌∙◌, Bool, true, false, List, [], ◌∷◌, ◌++◌, arith, length,
  u64_mod, ltb, if◌then◌else◌, drop, ◌==◌, Bool-cases, inl, inr, dec_lt,
}
use hft_demo.Flow.{
  Entry, Window, capacity, pop_oldest, append, trade_entry, evict, evict_older_than, make_room,
  on_trade, cutoff,
}
use hft_demo.Flow.Ring.{contents}
use hft_demo.Flow.Volumes.{
  IsValid, IsEntry, length-contents, contents-pop_oldest, pop_oldest-IsValid, contents-append,
  append-IsValid,
}

-- The entries behind the leading ones that are older than `min_ts_us`.
abbrev pub drop_old : ℕ → List Entry → List Entry
drop_old min_ts_us [] = []
drop_old min_ts_us (e ∷ es) = if ltb e.event_ts_us min_ts_us then drop_old min_ts_us es else e ∷ es

-- The entries that stay when one more is to come.
abbrev pub with_room : List Entry → List Entry
with_room es = if length es == capacity then drop 1 es else es

-- What a call that only removes entries leaves behind.
record Leaves (w w' : Window) (es : List Entry) : Type 0 where
  valid : IsValid w'
  held : contents w' ≡ es
  same_window : w'.window_us ≡ w.window_us

pop_oldest-window : (w : Window) → (pop_oldest w).window_us ≡ w.window_us
unfolding pop_oldest
pop_oldest-window w = refl

pop_oldest-size : {w : Window} → IsValid w → 0 < w.size → suc (pop_oldest w).size ≡ w.size
unfolding pop_oldest
pop_oldest-size v h = omega arith

evict-Leaves :
    (fuel : ℕ) (w : Window) (min_ts_us : ℕ)
    → IsValid w
    → w.size ≤ fuel
    → Leaves w (evict fuel w min_ts_us) (drop_old min_ts_us (contents w))
unfolding evict
evict-Leaves zero w min_ts_us v h =
    let e : w.size ≡ 0 = omega arith in record { valid = v; held = rw e; same_window = refl }
evict-Leaves (suc fuel) w min_ts_us v h = elim (dec_lt 0 w.size) [
  | no empty ↦ let e : w.size ≡ 0 = omega arith in ground arith
  | yes more ↦ ground (
    arith,
    contents-pop_oldest v more,
    pop_oldest-window w,
    pop_oldest-size v more,
    evict-Leaves fuel (pop_oldest w) min_ts_us (pop_oldest-IsValid v more),
  )
]

make_room-Leaves : {w : Window} → IsValid w → Leaves w (make_room w) (with_room (contents w))
unfolding make_room
make_room-Leaves {w} v = elim (Bool-cases (w.size == capacity)) [
  | inl full ↦
      let more : 0 < w.size = ground arith in
      let long : (length (contents w) == capacity) ≡ true = rw (length-contents w) full in
      rw (full, long)
        (record {
          valid = pop_oldest-IsValid v more;
          held = rw (contents-pop_oldest v more);
          same_window = pop_oldest-window w;
        })
  | inr room ↦
      let short : (length (contents w) == capacity) ≡ false = rw (length-contents w) room in
      rw (room, short) (record { valid = v; held = refl; same_window = refl })
]

length-with_room : (es : List Entry) → length es ≤ capacity → length (with_room es) < capacity
length-with_room [] h = omega arith
length-with_room (e ∷ es) h = ground arith

-- `OnTrade` with a 64-bit quantity keeps the invariant of a valid window, so both running sums stay the sums of what is held, modulo 2^64;
-- it evicts the leading entries older than the cutoff, one more if the ring is full, and adds the
-- trade as the newest entry.
pub on_trade_lem :
    {w : Window} (event_ts_us : ℕ) (is_buyer_maker : Bool) (quantity : ℕ)
    → IsValid w
    → quantity < u64_mod
    → let w' = on_trade w event_ts_us is_buyer_maker quantity in
      IsValid w'
      × (contents w'
          ≡ with_room (drop_old (cutoff w.window_us event_ts_us) (contents w))
            ++ trade_entry event_ts_us is_buyer_maker quantity ∷ [])
      × (w'.window_us ≡ w.window_us)
unfolding on_trade
on_trade_lem {w} ts maker q v word = (
  append-IsValid e roomy.valid small entry_word,
  rw (contents-append e roomy.valid small, roomy.held, evicted.held),
  append_window ∙ roomy.same_window ∙ evicted.same_window,
)
  where
    e : Entry
    e = trade_entry ts maker q

    after : Window
    after = evict_older_than w (cutoff w.window_us ts)

    evicted : Leaves w after (drop_old (cutoff w.window_us ts) (contents w))
    evicted =
        unfold evict_older_than in evict-Leaves w.size w (cutoff w.window_us ts) v (omega arith)

    roomy : Leaves after (make_room after) (with_room (contents after))
    roomy = make_room-Leaves evicted.valid

    small : (make_room after).size < capacity
    small = omega (
      arith,
      length-contents (make_room after),
      ap length roomy.held,
      length-contents after,
      evicted.valid.size_in,
      length-with_room (contents after),
    )

    entry_word : IsEntry e
    entry_word = ground arith

    append_window : (append (make_room after) e).window_us ≡ (make_room after).window_us
    append_window = unfold append in refl
