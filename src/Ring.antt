-- ===== src/Ring.antt =====
-- SpscRingBuffer of lib/interprocess/spsc_ring_buffer.hpp: the ring between one producer and one
-- consumer. An operation is one step here; its loads and stores are in program order.
pub mod Slots
pub mod Queue
pub mod Runs
pub mod Default
pub mod Fill
pub mod Threads
mod Tests
use Prim.Native.Nat.{bit_and}
use hft_demo.Common.{
  ℕ, ◌+◌, ◌-◌, Bool, true, false, not, List, ◌==◌, if◌then◌else◌, get_or, set, replicate, add32,
}

-- `ReadResult`
pub data ReadResult : Type 0 where
  success buffer_is_empty consumer_is_disabled : ReadResult

-- `Increment` for a buffer of `n` places.
unfoldable pub increment : ℕ → ℕ → ℕ
increment n current = bit_and (add32 current 1) (n - 1)

-- The members of `SpscRingBuffer`.
pub record Ring {ℓ} (A : Type ℓ) : Type ℓ where
  pub head : ℕ
  pub tail : ℕ
  pub is_active_consumer : Bool
  pub places : List A

-- The constructor, for `n` places that hold `x`.
abbrev pub new_ring {ℓ} : {A : Type ℓ} → ℕ → A → Ring A
new_ring n x = record { head = 0; tail = 0; is_active_consumer = true; places = replicate n x }

-- `Write`
unfoldable pub write {ℓ} : {A : Type ℓ} → ℕ → Ring A → A → Ring A
write n r x =
    let new_head = increment n r.head in
    record r {
      is_active_consumer = if new_head == r.tail then false else r.is_active_consumer;
      places = set r.places new_head x;
      head = new_head;
    }

-- `Read`; `out` is what the argument held before.
unfoldable pub read {ℓ} : {A : Type ℓ} → ℕ → Ring A → A → Ring A × ReadResult × A
read n r out =
    if not r.is_active_consumer
    then (r, consumer_is_disabled, out)
    else if r.tail == r.head
    then (r, buffer_is_empty, out)
    else (let new_tail = increment n r.tail in
        (record r { tail = new_tail }, success, get_or r.places new_tail out))

-- `ResetConsumer`
unfoldable pub reset_consumer {ℓ} : {A : Type ℓ} → Ring A → Ring A
reset_consumer r = record r { tail = r.head; is_active_consumer = true }
