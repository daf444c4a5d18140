-- ===== src/Ring/Queue.antt =====
-- The contract of the ring: a queue of at most `n - 1` elements that is lost once it overflows, up
-- to the next reset of the consumer.
use hft_demo.Common.{
  ℕ, zero, suc, ◌+◌, ◌-◌, ◌^◌, ◌≤◌, ◌<◌, ◌≡◌, inl, inr, Bool-cases, refl, ap, true, false, List, [],
  ◌∷◌, ◌++◌, arith, ◌==◌, if◌then◌else◌, length, get_or, length-set, length-replicate, u32_mod,
}
use native.Mathlib.Nat.{one-le-pow}
use hft_demo.Ring.{
  ReadResult, success, buffer_is_empty, consumer_is_disabled, Ring, new_ring, increment, write,
  read, reset_consumer,
}
use hft_demo.Ring.Slots.{next, ahead, slots, increment_lem, slots-set-next}

pub data Queue {ℓ} (A : Type ℓ) : Type ℓ where
  live : List A → Queue A
  lost : Queue A

abbrev pub queue_write {ℓ} : {A : Type ℓ} → ℕ → Queue A → A → Queue A
queue_write n (live xs) x = if length xs + 1 == n then lost else live (xs ++ x ∷ [])
queue_write n lost x = lost

abbrev pub queue_read {ℓ} : {A : Type ℓ} → Queue A → A → Queue A × ReadResult × A
queue_read (live []) out = (live [], buffer_is_empty, out)
queue_read (live (x ∷ xs)) out = (live xs, success, x)
queue_read lost out = (lost, consumer_is_disabled, out)

-- The number of unread elements of a ring that has not overflowed.
abbrev pub count {ℓ} : {A : Type ℓ} → ℕ → Ring A → ℕ
count n r = if r.tail == r.head then 0 else ahead n r.tail r.head

-- The queue that a ring stands for.
unfoldable pub view {ℓ} : {A : Type ℓ} → ℕ → A → Ring A → Queue A
view n d r = if r.is_active_consumer then live (slots n d r.places r.tail (count n r)) else lost

pub record IsValid {ℓ} {A : Type ℓ} (n : ℕ) (r : Ring A) : Type ℓ where
  pub whole : length r.places ≡ n
  pub head_in : r.head < n
  pub tail_in : r.tail < n

pub length-slots {ℓ} :
    {A : Type ℓ} (n : ℕ) (d : A) (places : List A) (t c : ℕ) → length (slots n d places t c) ≡ c
length-slots n d places t zero = refl
length-slots n d places t (suc c) = ap suc (length-slots n d places (next n t) c)

module _ {A : Type 0} (k : ℕ) (small : 2 ^ k ≤ u32_mod) where
  pub write-IsValid : (r : Ring A) (x : A) → IsValid (2 ^ k) r → IsValid (2 ^ k) (write (2 ^ k) r x)
  unfolding write
  write-IsValid r x v = ground (
    arith,
    increment_lem k r.head v.head_in small,
    length-set r.places (increment (2 ^ k) r.head) x,
  )

  -- On a valid ring, whose length is a power of two up to 2^32, `Write` adds its element to the
  -- queue, and the write that would fill the last place loses the queue.
  pub write_refines :
      (d : A) (r : Ring A) (x : A)
      → IsValid (2 ^ k) r
      → view (2 ^ k) d (write (2 ^ k) r x) ≡ queue_write (2 ^ k) (view (2 ^ k) d r) x
  unfolding write view
  write_refines d r x v = ground (
    arith,
    increment_lem k r.head v.head_in small,
    length-slots (2 ^ k) d r.places r.tail (count (2 ^ k) r),
    slots-set-next (2 ^ k) d r.places r.tail (count (2 ^ k) r) (next (2 ^ k) r.head) x v.whole
        v.tail_in,
  )

  -- What a read leaves and returns, its ring seen as a queue.
  abbrev pub seen : A → Ring A × ReadResult × A → Queue A × ReadResult × A
  seen d (r, result, out) = (view (2 ^ k) d r, result, out)

  pub view-live :
      (d : A) (r : Ring A) {c : ℕ}
      → r.is_active_consumer ≡ true
      → count (2 ^ k) r ≡ c
      → view (2 ^ k) d r ≡ live (slots (2 ^ k) d r.places r.tail c)
  unfolding view
  view-live d r on e = rw (on, e)

  view-lost : (d : A) (r : Ring A) → r.is_active_consumer ≡ false → view (2 ^ k) d r ≡ lost
  unfolding view
  view-lost d r off = rw (off)

  read-disabled :
      (r : Ring A) (out : A)
      → r.is_active_consumer ≡ false
      → read (2 ^ k) r out ≡ (r, consumer_is_disabled, out)
  unfolding read
  read-disabled r out off = ground arith

  read-empty :
      (r : Ring A) (out : A)
      → r.is_active_consumer ≡ true
      → (r.tail == r.head) ≡ true
      → read (2 ^ k) r out ≡ (r, buffer_is_empty, out)
  unfolding read
  read-empty r out on same = ground arith

  read-next :
      (r : Ring A) (out : A)
      → IsValid (2 ^ k) r
      → r.is_active_consumer ≡ true
      → (r.tail == r.head) ≡ false
      → read (2 ^ k) r out ≡ (
        record r { tail = next (2 ^ k) r.tail },
        success,
        get_or r.places (next (2 ^ k) r.tail) out,
      )
  unfolding read
  read-next r out v on apart = rw (← increment_lem k r.tail v.tail_in small) (ground arith)

  -- On a valid ring, whose length is a power of two up to 2^32, `Read` takes the first element of
  -- the queue, and says so when there is none or the queue is lost.
  pub read_refines :
      (r : Ring A) (out : A)
      → IsValid (2 ^ k) r
      → seen out (read (2 ^ k) r out) ≡ queue_read (view (2 ^ k) out r) out
  read_refines r out v = elim (Bool-cases r.is_active_consumer) [
    | inr off ↦ rw (read-disabled r out off, view-lost out r off)
    | inl on ↦ elim (Bool-cases (r.tail == r.head)) [
      | inl same ↦ rw (read-empty r out on same, view-live out r {c = 0} on (ground arith))
      | inr apart ↦
          let c = ahead (2 ^ k) r.tail r.head - 1 in
          rw (
            read-next r out v on apart,
            view-live out r {c = suc c} on (ground arith),
            view-live out (record r { tail = next (2 ^ k) r.tail }) {c = c} on (ground arith),
          )
    ]
  ]

  pub read-IsValid :
      (r : Ring A) (out : A) → IsValid (2 ^ k) r → IsValid (2 ^ k) (read (2 ^ k) r out).0
  unfolding read
  read-IsValid r out v = ground (arith, increment_lem k r.tail v.tail_in small)

  -- `ResetConsumer` drops what is unread and makes the consumer active again.
  pub reset_refines : (d : A) (r : Ring A) → view (2 ^ k) d (reset_consumer r) ≡ live []
  unfolding reset_consumer
  reset_refines d r =
      view-live d (record r { tail = r.head; is_active_consumer = true }) {c = 0} refl
        (ground arith)

  pub reset-IsValid : (r : Ring A) → IsValid (2 ^ k) r → IsValid (2 ^ k) (reset_consumer r)
  unfolding reset_consumer
  reset-IsValid r v = ground arith

  pub new_ring_refines : (d x : A) → view (2 ^ k) d (new_ring (2 ^ k) x) ≡ live []
  new_ring_refines d x = view-live d (new_ring (2 ^ k) x) {c = 0} refl (ground arith)

  pub new_ring-IsValid : (x : A) → IsValid (2 ^ k) (new_ring (2 ^ k) x)
  new_ring-IsValid x = ground (arith, length-replicate (2 ^ k) x, one-le-pow k 2)
