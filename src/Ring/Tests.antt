-- ===== src/Ring/Tests.antt =====
-- Tests of the ring.
use hft_demo.Common.{ℕ, List, ◌≡◌, refl, arith, true, [], ◌∷◌, ◌^◌}
use hft_demo.Ring.Runs.{Call, writes, reads, resets, ring_call, queue_call, run_calls, run_refines}
use hft_demo.Ring.{Ring, write, read}
use hft_demo.Ring.Queue.{view, seen, queue_write, queue_read, IsValid, write_refines, read_refines}

-- Two unread elements, the second behind the wrap.
abbrev two_unread : Ring ℕ
two_unread = record { head = 0; tail = 2; is_active_consumer = true; places = 8 ∷ 5 ∷ 6 ∷ 7 ∷ [] }

two_unread-IsValid : IsValid (2 ^ 2) two_unread
two_unread-IsValid = record { whole = refl; head_in = omega arith; tail_in = omega arith }

write_refines_example :
    view (2 ^ 2) 0 (write (2 ^ 2) two_unread 9) ≡ queue_write (2 ^ 2) (view (2 ^ 2) 0 two_unread) 9
write_refines_example = write_refines 2 (omega arith) 0 two_unread 9 two_unread-IsValid

read_refines_example :
    seen 2 (omega arith) 0 (read (2 ^ 2) two_unread 0) ≡ queue_read (view (2 ^ 2) 0 two_unread) 0
read_refines_example = read_refines 2 (omega arith) two_unread 0 two_unread-IsValid

abbrev some_calls : List (Call ℕ)
some_calls = reads ∷ writes 9 ∷ reads ∷ resets ∷ reads ∷ []

run_refines_example :
    (
      view (2 ^ 2) 0 (run_calls (ring_call (2 ^ 2) 0) two_unread some_calls).0,
      (run_calls (ring_call (2 ^ 2) 0) two_unread some_calls).1,
    )
    ≡ run_calls (queue_call (2 ^ 2) 0) (view (2 ^ 2) 0 two_unread) some_calls
run_refines_example = run_refines 2 (omega arith) 0 two_unread some_calls two_unread-IsValid
