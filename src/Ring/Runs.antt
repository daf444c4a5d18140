-- ===== src/Ring/Runs.antt =====
-- Any sequence of calls on a ring, against the same sequence on the queue.
use hft_demo.Common.{ℕ, ◌^◌, ◌≤◌, ◌≡◌, refl, ap, ◌∙◌, List, [], ◌∷◌, ◌++◌, u32_mod}
use hft_demo.Ring.{ReadResult, Ring, write, read, reset_consumer}
use hft_demo.Ring.Queue.{
  Queue, live, queue_write, queue_read, view, IsValid, write_refines, write-IsValid, read_refines,
  read-IsValid, reset_refines, reset-IsValid,
}

-- A call of `Write`, `Read` or `ResetConsumer`.
pub data Call (A : Type 0) : Type 0 where
  writes : A → Call A
  reads : Call A
  resets : Call A

-- What the reads returned, each with what its argument held afterwards.
abbrev pub Results : Type 0 → Type 0
Results A = List (ReadResult × A)

-- The state behind a read, and its result.
abbrev pub noted : {S A : Type 0} → S × ReadResult × A → S × Results A
noted (s, result, x) = (s, (result, x) ∷ [])

abbrev pub ring_call : {A : Type 0} → ℕ → A → Ring A → Call A → Ring A × Results A
ring_call n out r (writes x) = (write n r x, [])
ring_call n out r reads = noted (read n r out)
ring_call n out r resets = (reset_consumer r, [])

abbrev pub queue_call : {A : Type 0} → ℕ → A → Queue A → Call A → Queue A × Results A
queue_call n out q (writes x) = (queue_write n q x, [])
queue_call n out q reads = noted (queue_read q out)
queue_call n out q resets = (live [], [])

-- The calls in order, for any step.
abbrev pub run_calls :
    {S A : Type 0} → (S → Call A → S × Results A) → S → List (Call A) → S × Results A
run_calls step s [] = (s, [])
run_calls step s (c ∷ cs) =
    let rest = run_calls step (step s c).0 cs in (rest.0, (step s c).1 ++ rest.1)

module _ {A : Type 0} (k : ℕ) (small : 2 ^ k ≤ u32_mod) (out : A) where
  call-refines :
      (r : Ring A) (c : Call A)
      → IsValid (2 ^ k) r
      → (view (2 ^ k) out (ring_call (2 ^ k) out r c).0, (ring_call (2 ^ k) out r c).1)
        ≡ queue_call (2 ^ k) out (view (2 ^ k) out r) c
  call-refines r (writes x) v = ap (λ (q : Queue A). (q, [])) (write_refines k small out r x v)
  call-refines r reads v = ap noted (read_refines k small r out v)
  call-refines r resets v = ap (λ (q : Queue A). (q, [])) (reset_refines k small out r)

  call-IsValid :
      (r : Ring A) (c : Call A) → IsValid (2 ^ k) r → IsValid (2 ^ k) (ring_call (2 ^ k) out r c).0
  call-IsValid r (writes x) v = write-IsValid k small r x v
  call-IsValid r reads v = read-IsValid k small r out v
  call-IsValid r resets v = reset-IsValid k small r v

  -- On a valid ring, whose length is a power of two up to 2^32, every sequence of calls returns what
  -- it returns on the queue and leaves a ring that stands for the queue it leaves.
  pub run_refines :
      (r : Ring A) (cs : List (Call A))
      → IsValid (2 ^ k) r
      → (
        view (2 ^ k) out (run_calls (ring_call (2 ^ k) out) r cs).0,
        (run_calls (ring_call (2 ^ k) out) r cs).1,
      )
        ≡ run_calls (queue_call (2 ^ k) out) (view (2 ^ k) out r) cs
  run_refines r [] v = refl
  run_refines r (c ∷ cs) v =
      let here = call-refines r c v in
      let rest = run_refines (ring_call (2 ^ k) out r c).0 cs (call-IsValid r c v) in
      ap (λ (t : Queue A × Results A). (t.0, (ring_call (2 ^ k) out r c).1 ++ t.1)) rest
      ∙ ap
          (λ (t : Queue A × Results A).
            let later = run_calls (queue_call (2 ^ k) out) t.0 cs in (later.0, t.1 ++ later.1))
          here
