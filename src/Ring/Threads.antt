-- ===== src/Ring/Threads.antt =====
-- SpscRingBuffer of lib/interprocess/spsc_ring_buffer.hpp with its two threads: every load and every
-- store of `Write` and of `Read` is a step, and the steps of the producer and of the consumer
-- interleave in any order. The stores of one thread become visible in program order.
pub mod Invariant
pub mod Order
pub mod Whole
mod Tests
use hft_demo.Common.{ℕ, ◌≡◌, Bool, true, false, List, [], ◌∷◌, ◌++◌, ◌==◌, get_or, set}
use hft_demo.Ring.{Ring, new_ring, increment}

-- Where the producer stands in `Write`, with the local variables that are live there.
pub data Producer (A : Type 0) : Type 0 where
  idle : Producer A
  called : (x : A) → Producer A
  head_loaded : (x : A) (new_head : ℕ) → Producer A
  lagging : (x : A) (new_head : ℕ) → Producer A
  checked : (x : A) (new_head : ℕ) → Producer A
  stored : (x : A) (new_head : ℕ) → Producer A

-- Where the consumer stands in `Read`.
pub data Consumer (A : Type 0) : Type 0 where
  resting : Consumer A
  enabled : Consumer A
  tail_loaded : (current_tail : ℕ) → Consumer A
  both_loaded : (current_tail head : ℕ) → Consumer A
  copied : (new_tail : ℕ) (x : A) → Consumer A

-- The shared memory, both threads, what was written so far, and what the reads gave so far.
pub record System (A : Type 0) : Type 0 where
  pub ring : Ring A
  pub producer : Producer A
  pub consumer : Consumer A
  pub written : List A
  pub received : List A

abbrev pub init : {A : Type 0} → ℕ → A → System A
init n d = record {
  ring = new_ring n d;
  producer = idle;
  consumer = resting;
  written = [];
  received = [];
}

-- A step of either thread on a ring of `n` places; `d` is what the reader's argument holds.
pub data Step {A : Type 0} (n : ℕ) (d : A) (s : System A) : System A → Type 0 where
  call : (x : A) → s.producer ≡ idle → Step n d s (record s { producer = called x })
  load_head :
      {x : A}
      → s.producer ≡ called x
      → Step n d s (record s { producer = head_loaded x (increment n s.ring.head) })
  find_full :
      {x : A} {h : ℕ}
      → s.producer ≡ head_loaded x h
      → (h == s.ring.tail) ≡ true
      → Step n d s (record s { producer = lagging x h })
  disable :
      {x : A} {h : ℕ}
      → s.producer ≡ lagging x h
      → Step n d s (record s {
        ring = record (s.ring) { is_active_consumer = false };
        producer = checked x h;
      })
  find_room :
      {x : A} {h : ℕ}
      → s.producer ≡ head_loaded x h
      → (h == s.ring.tail) ≡ false
      → Step n d s (record s { producer = checked x h })
  store_place :
      {x : A} {h : ℕ}
      → s.producer ≡ checked x h
      → Step n d s (record s {
        ring = record (s.ring) { places = set s.ring.places h x };
        producer = stored x h;
      })
  store_head :
      {x : A} {h : ℕ}
      → s.producer ≡ stored x h
      → Step n d s (record s {
        ring = record (s.ring) { head = h };
        producer = idle;
        written = s.written ++ x ∷ [];
      })
  find_active :
      s.consumer ≡ resting
      → s.ring.is_active_consumer ≡ true
      → Step n d s (record s { consumer = enabled })
  find_disabled : s.consumer ≡ resting → s.ring.is_active_consumer ≡ false → Step n d s s
  load_tail : s.consumer ≡ enabled → Step n d s (record s { consumer = tail_loaded s.ring.tail })
  see_head :
      {t : ℕ}
      → s.consumer ≡ tail_loaded t
      → Step n d s (record s { consumer = both_loaded t s.ring.head })
  find_empty :
      {t h : ℕ}
      → s.consumer ≡ both_loaded t h
      → (t == h) ≡ true
      → Step n d s (record s { consumer = resting })
  copy :
      {t h : ℕ}
      → s.consumer ≡ both_loaded t h
      → (t == h) ≡ false
      → Step n d s
          (record s { consumer = copied (increment n t) (get_or s.ring.places (increment n t) d) })
  store_tail :
      {t : ℕ} {x : A}
      → s.consumer ≡ copied t x
      → Step n d s (record s {
        ring = record (s.ring) { tail = t };
        consumer = resting;
        received = s.received ++ x ∷ [];
      })

-- Any number of steps.
pub data Steps {A : Type 0} (n : ℕ) (d : A) (s : System A) : System A → Type 0 where
  here : Steps n d s s
  later : {t u : System A} → Steps n d s t → Step n d t u → Steps n d s u
