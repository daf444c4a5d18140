-- ===== src/Flow/Ring.antt =====
-- The entries that a window holds, oldest first, and what a pop and an append do to them.
use hft_demo.Common.{
  ℕ, zero, suc, ◌+◌, ◌%◌, ◌<◌, ◌≡◌, refl, ap, ap₂, List, [], ◌∷◌, ◌++◌, arith, length, set,
  get_or-set_self, get_or-set_ne,
}
use hft_demo.Flow.{Entry, Window, capacity, entry_at, empty_entry}

-- The `n` entries from place `k` on, going round at the capacity.
abbrev pub entries : List Entry → ℕ → ℕ → List Entry
entries ring k zero = []
entries ring k (suc n) = entry_at ring (k % capacity) ∷ entries ring (suc k) n

pub length-entries : (ring : List Entry) (k n : ℕ) → length (entries ring k n) ≡ n
length-entries ring k zero = refl
length-entries ring k (suc n) = ap suc (length-entries ring (suc k) n)

pub entries-mod :
    (ring : List Entry) (j k n : ℕ)
    → j % capacity ≡ k % capacity
    → entries ring j n ≡ entries ring k n
entries-mod ring j k zero e = refl
entries-mod ring j k (suc n) e =
    ap₂ ◌∷◌ (ap (entry_at ring) e) (entries-mod ring (suc j) (suc k) n (omega arith))

-- A write just behind the last of fewer than `capacity` entries adds an entry at the end.
pub entries-set :
    (ring : List Entry) (e : Entry) (k n i : ℕ)
    → length ring ≡ capacity
    → n < capacity
    → i ≡ (k + n) % capacity
    → entries (set ring i e) k (suc n) ≡ entries ring k n ++ e ∷ []
entries-set ring e k zero i whole h at =
    let same : k % capacity ≡ i = omega arith in
    rw same (ap (λ x. x ∷ []) (get_or-set_self ring i e empty_entry (omega arith)))
entries-set ring e k (suc n) i whole h at =
    ap₂ ◌∷◌ (get_or-set_ne ring e empty_entry (omega arith))
      (entries-set ring e (suc k) n i whole (omega arith) (omega arith))

-- What the window holds.
abbrev pub contents : Window → List Entry
contents w = entries w.ring w.head w.size
