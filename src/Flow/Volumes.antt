-- ===== src/Flow/Volumes.antt =====
-- The invariant of a window: the ring is whole, the indices agree, and each running sum is the sum
-- over the entries held, modulo 2^64.
use hft_demo.Common.{
  ℕ, suc, ◌+◌, ◌-◌, ◌%◌, ◌^◌, ◌≤◌, ◌<◌, ◌≡◌, ap, ap₂, ◌∙◌, List, [], ◌∷◌, ◌++◌, arith, length,
  length-set, length-replicate, u64_mod, All, set, subst, sym, add32,
}
use hft_demo.Flow.{Entry, Window, capacity, entry_at, empty_entry, new_window, pop_oldest, append}
use hft_demo.Flow.Ring.{entries, length-entries, entries-mod, entries-set, contents}

-- The volumes of a list of entries.
abbrev pub total_buy : List Entry → ℕ
total_buy [] = 0
total_buy (e ∷ es) = e.aggressive_buy_qty + total_buy es

abbrev pub total_sell : List Entry → ℕ
total_sell [] = 0
total_sell (e ∷ es) = e.aggressive_sell_qty + total_sell es

pub total_buy-append : (xs ys : List Entry) → total_buy (xs ++ ys) ≡ total_buy xs + total_buy ys
total_buy-append [] ys = omega arith
total_buy-append (x ∷ xs) ys = omega (arith, total_buy-append xs ys)

pub total_sell-append : (xs ys : List Entry) → total_sell (xs ++ ys) ≡ total_sell xs + total_sell ys
total_sell-append [] ys = omega arith
total_sell-append (x ∷ xs) ys = omega (arith, total_sell-append xs ys)

-- The quantities of an entry are uint64_t.
abbrev pub IsEntry : Entry → Type 0
IsEntry e = (e.aggressive_buy_qty < u64_mod) × (e.aggressive_sell_qty < u64_mod)

pub record IsValid (w : Window) : Type 0 where
  pub whole : length w.ring ≡ capacity
  pub head_in : w.head < capacity
  pub size_in : w.size ≤ capacity
  pub tail_at : w.tail ≡ (w.head + w.size) % capacity
  pub words : All IsEntry (contents w)
  pub buys : w.sum_aggressive_buy ≡ total_buy (contents w) % u64_mod
  pub sells : w.sum_aggressive_sell ≡ total_sell (contents w) % u64_mod

pub length-contents : (w : Window) → length (contents w) ≡ w.size
length-contents w = length-entries w.ring w.head w.size

-- A pop takes the oldest entry off.
pub contents-pop_oldest :
    {w : Window}
    → IsValid w
    → 0 < w.size
    → contents w ≡ entry_at w.ring w.head ∷ contents (pop_oldest w)
unfolding pop_oldest
contents-pop_oldest {w} v h =
    let one_more : w.size ≡ suc (w.size - 1) = omega arith in
    let same : w.head % capacity ≡ w.head = omega arith in
    let fewer : (w.size + 2 ^ 32 - 1) % 2 ^ 32 ≡ w.size - 1 = omega arith in
    ap (entries w.ring w.head) one_more
    ∙ ap₂ ◌∷◌ (ap (entry_at w.ring) same) (
        entries-mod w.ring (suc w.head) (add32 w.head 1 % capacity) (w.size - 1) (omega arith)
        ∙ ap (entries w.ring (add32 w.head 1 % capacity)) (omega arith))

pub pop_oldest-IsValid : {w : Window} → IsValid w → 0 < w.size → IsValid (pop_oldest w)
unfolding pop_oldest
pop_oldest-IsValid {w} v h = record {
  whole = v.whole;
  head_in = omega arith;
  size_in = omega arith;
  tail_at = omega arith;
  words = held.1;
  buys = omega (arith, ap total_buy (contents-pop_oldest v h), held.0);
  sells = omega (arith, ap total_sell (contents-pop_oldest v h), held.0);
}
  where
    held : All IsEntry (entry_at w.ring w.head ∷ contents (pop_oldest w))
    held = subst (All IsEntry) (contents-pop_oldest v h) v.words

-- An append adds its entry as the newest.
pub contents-append :
    {w : Window} (e : Entry)
    → IsValid w
    → w.size < capacity
    → contents (append w e) ≡ contents w ++ e ∷ []
unfolding append
contents-append {w} e v h =
    let more : (w.size + 1) % 2 ^ 32 ≡ suc w.size = omega arith in
    ap (entries (set w.ring w.tail e) w.head) more
    ∙ entries-set w.ring e w.head w.size w.tail v.whole h v.tail_at

All-append : (e : Entry) (xs : List Entry) → All IsEntry xs → IsEntry e → All IsEntry (xs ++ e ∷ [])
All-append e [] h word = (word, tt)
All-append e (x ∷ xs) h word = (h.0, All-append e xs h.1 word)

pub append-IsValid :
    {w : Window} (e : Entry) → IsValid w → w.size < capacity → IsEntry e → IsValid (append w e)
unfolding append
append-IsValid {w} e v h word = record {
  whole = length-set w.ring w.tail e ∙ v.whole;
  head_in = v.head_in;
  size_in = omega arith;
  tail_at = omega arith;
  words =
      subst (All IsEntry) (sym (contents-append e v h)) (All-append e (contents w) v.words word);
  buys =
      omega (arith, ap total_buy (contents-append e v h), total_buy-append (contents w) (e ∷ []));
  sells =
      omega (arith, ap total_sell (contents-append e v h), total_sell-append (contents w) (e ∷ []));
}

pub new_window-IsValid : (window_us : ℕ) → IsValid (new_window window_us)
unfolding new_window
new_window-IsValid window_us = record {
  whole = length-replicate capacity empty_entry;
  head_in = omega arith;
  size_in = omega arith;
  tail_at = omega arith;
  words = tt;
  buys = omega arith;
  sells = omega arith;
}
