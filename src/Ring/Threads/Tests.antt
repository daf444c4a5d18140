-- ===== src/Ring/Threads/Tests.antt =====
-- Tests of the interleaved threads.
use hft_demo.Common.{ℕ, ◌≡◌, refl, arith, true, false, List, [], ◌∷◌, ◌++◌, ◌^◌}
use hft_demo.Ring.{increment}
use hft_demo.Ring.Queue.{view, live}
use hft_demo.Ring.Threads.{
  Producer, Consumer, System, init, Steps, here, later, call, load_head, find_full, disable,
  find_room, store_place, store_head, find_active, load_tail, see_head, copy, store_tail,
}
use hft_demo.Ring.Threads.Order.{threads_fifo}

-- The producer's ring of two places after it wrote 7.
abbrev one_written : System ℕ
one_written = record {
  ring = record { head = 1; tail = 0; is_active_consumer = true; places = 0 ∷ 7 ∷ [] };
  producer = Producer.idle;
  consumer = Consumer.resting;
  written = 7 ∷ [];
  received = [];
}

write_seven : Steps (2 ^ 1) 0 (init (2 ^ 1) 0) one_written
unfolding increment
write_seven =
    later
      (later (later (later (later here (call 7 refl)) (load_head refl)) (find_room refl refl))
        (store_place refl))
      (store_head refl)

threads_fifo_example :
    (rest : List ℕ) × (one_written.written ≡ one_written.received ++ rest)
    × (view (2 ^ 1) 0 one_written.ring ≡ live rest)
threads_fifo_example = threads_fifo 1 0 (omega arith) write_seven refl

-- A read that has found the ring enabled and not empty; then the producer writes 8 and 9 and
-- overtakes it, and the read gives 9.
abbrev overtaken : System ℕ
overtaken = record {
  ring = record { head = 1; tail = 1; is_active_consumer = false; places = 8 ∷ 9 ∷ [] };
  producer = Producer.idle;
  consumer = Consumer.resting;
  written = 7 ∷ 8 ∷ 9 ∷ [];
  received = 9 ∷ [];
}

overtaken_runs : Steps (2 ^ 1) 0 one_written overtaken
unfolding increment
overtaken_runs =
    let looked =
      later (later (later here (find_active refl refl)) (load_tail refl)) (see_head refl) in
    let eight =
      later
        (later
          (later (later (later (later looked (call 8 refl)) (load_head refl)) (find_full refl refl))
            (disable refl))
          (store_place refl))
        (store_head refl) in
    let nine =
      later
        (later (later (later (later eight (call 9 refl)) (load_head refl)) (find_room refl refl))
          (store_place refl))
        (store_head refl) in
    later (later nine (copy refl refl)) (store_tail refl)

abbrev one_disabled : System ℕ
one_disabled = record one_written {
  ring = record (one_written.ring) { is_active_consumer = false };
}
