-- ===== src/Startup/Opening.antt =====
-- The loop that opens the memory of another process ends.
use hft_demo.Common.{
  ℕ, zero, suc, ◌+◌, ◌≤◌, ◌<◌, ◌≡◌, ◌≢◌, refl, ap, sym, ◌∙◌, Bool, true, false, List, Option, some,
  none, Bool-cases, ◌⊎◌, inl, inr, arith,
}
use hft_demo.Memory.{open_only, Region, SharedMemory, Failure, version_conflict, shared_memory}
use hft_demo.Memory.Open.{IsUsable, attached, open_lem, inl≢inr}
use hft_demo.Startup.{Start, waits, goes_on, after_attempt, open_loop}

-- The attempt gives no memory and is not a version conflict.
abbrev pub is_tried_again : Failure ⊎ SharedMemory → Bool
is_tried_again (inr m) = false
is_tried_again (inl version_conflict) = false
is_tried_again (inl Failure.no_region) = true
is_tried_again (inl Failure.invalid_alignment) = true
is_tried_again (inl Failure.invalid_size) = true
is_tried_again (inl Failure.magic_missed) = true
is_tried_again (inl (Failure.mlock_failed e)) = true

after_attempt-again :
    (r : Failure ⊎ SharedMemory) (later : Start SharedMemory)
    → is_tried_again r ≡ true
    → after_attempt r later ≡ later
unfolding after_attempt
after_attempt-again (inr m) later h = cc (h)
after_attempt-again (inl version_conflict) later h = cc (h)
after_attempt-again (inl Failure.no_region) later h = refl
after_attempt-again (inl Failure.invalid_alignment) later h = refl
after_attempt-again (inl Failure.invalid_size) later h = refl
after_attempt-again (inl Failure.magic_missed) later h = refl
after_attempt-again (inl (Failure.mlock_failed e)) later h = refl

after_attempt-last :
    (r : Failure ⊎ SharedMemory) (later : Start SharedMemory)
    → is_tried_again r ≡ false
    → after_attempt r later ≡ after_attempt r waits
unfolding after_attempt
after_attempt-last (inr m) later h = refl
after_attempt-last (inl version_conflict) later h = refl
after_attempt-last (inl Failure.no_region) later h = cc (h)
after_attempt-last (inl Failure.invalid_alignment) later h = cc (h)
after_attempt-last (inl Failure.invalid_size) later h = cc (h)
after_attempt-last (inl Failure.magic_missed) later h = cc (h)
after_attempt-last (inl (Failure.mlock_failed e)) later h = cc (h)

final-cases :
    (r : Failure ⊎ SharedMemory)
    → is_tried_again r ≡ false
    → (r ≡ inl version_conflict) ⊎ (m : SharedMemory) × (r ≡ inr m)
final-cases (inr m) h = inr (m, refl)
final-cases (inl version_conflict) h = inl refl
final-cases (inl Failure.no_region) h = cc (h)
final-cases (inl Failure.invalid_alignment) h = cc (h)
final-cases (inl Failure.invalid_size) h = cc (h)
final-cases (inl Failure.magic_missed) h = cc (h)
final-cases (inl (Failure.mlock_failed e)) h = cc (h)

module _ (alignment : ℕ) (sizes : List ℕ) (attempts : ℕ → Option Region) where
  abbrev pub result_of : ℕ → Failure ⊎ SharedMemory
  result_of i = shared_memory alignment sizes open_only (attempts i)

  open-from :
      (d fuel i n : ℕ)
      → i + d ≡ n
      → d < fuel
      → is_tried_again (result_of n) ≡ false
      → ((j : ℕ) → i ≤ j → j < n → is_tried_again (result_of j) ≡ true)
      → open_loop alignment sizes attempts fuel i ≡ after_attempt (result_of n) waits
  unfolding open_loop
  open-from d zero i n e enough last again = absurd (omega arith)
  open-from zero (suc fuel) i n e enough last again =
      let same : i ≡ n = omega arith in
      ap (λ k. after_attempt (result_of k) (open_loop alignment sizes attempts fuel (i + 1))) same
      ∙ after_attempt-last (result_of n) (open_loop alignment sizes attempts fuel (i + 1)) last
  open-from (suc d) (suc fuel) i n e enough last again =
      after_attempt-again (result_of i) (open_loop alignment sizes attempts fuel (i + 1))
        (again i (omega arith) (omega arith))
      ∙ open-from d fuel (i + 1) n (omega arith) (omega arith) last
          (λ j h h'. again j (omega arith) h')

  -- The loop ends with the first attempt that gives a memory or a version conflict, whatever fuel
  -- beyond that is given.
  pub open_loop_ends :
      (n fuel : ℕ)
      → n < fuel
      → is_tried_again (result_of n) ≡ false
      → ((j : ℕ) → j < n → is_tried_again (result_of j) ≡ true)
      → open_loop alignment sizes attempts fuel 0 ≡ after_attempt (result_of n) waits
  open_loop_ends n fuel enough last again =
      open-from n fuel 0 n (omega arith) enough last (λ j h h'. again j h')

  -- The loop that starts at attempt `i` has opened what a usable region of an attempt up to `n` is.
  abbrev Opens : (fuel i n : ℕ) → Type 0
  Opens fuel i n =
      (k : ℕ) × (r : Region) × (k ≤ n)
      × (attempts k ≡ some r)
      × IsUsable alignment sizes open_only r
      × (open_loop alignment sizes attempts fuel i ≡ goes_on (attached alignment sizes open_only r))

  Opens-at :
      (fuel i n : ℕ) (m : SharedMemory) (a : Option Region)
      → i ≤ n
      → attempts i ≡ a
      → result_of i ≡ inr m
      → Opens (suc fuel) i n
  unfolding open_loop after_attempt shared_memory
  Opens-at fuel i n m none h e opens =
      let no : inl Failure.no_region ≡ inr m =
        sym (ap (shared_memory alignment sizes open_only) e) ∙ opens in
      absurd (inl≢inr Failure.no_region m no)
  Opens-at fuel i n m (some r) h e opens =
      let opens' : shared_memory alignment sizes open_only (some r) ≡ inr m =
        sym (ap (shared_memory alignment sizes open_only) e) ∙ opens in
      let (v, same) = (open_lem alignment sizes open_only r m).0 opens' in
      (i, r, h, e, v, rw (opens) (ap goes_on (sym same)))

  Opens-from :
      (d fuel i n : ℕ) (r : Region)
      → i + d ≡ n
      → d < fuel
      → attempts n ≡ some r
      → IsUsable alignment sizes open_only r
      → ((j : ℕ) → i ≤ j → j < n → result_of j ≢ inl version_conflict)
      → Opens fuel i n
  unfolding open_loop
  Opens-from d zero i n r e enough there v no_conflict = absurd (omega arith)
  Opens-from zero (suc fuel) i n r e enough there v no_conflict =
      let same : i ≡ n = omega arith in
      let there' : attempts i ≡ some r = ap attempts same ∙ there in
      Opens-at fuel i n (attached alignment sizes open_only r) (some r) (omega arith) there' (
        ap (shared_memory alignment sizes open_only) there'
        ∙ (open_lem alignment sizes open_only r (attached alignment sizes open_only r)).1 (v, refl))
  Opens-from (suc d) (suc fuel) i n r e enough there v no_conflict =
      elim (Bool-cases (is_tried_again (result_of i))) [
        | inl tried ↦
            let (k, r', h, there', v', opens) =
              Opens-from d fuel (i + 1) n r (omega arith) (omega arith) there v
                (λ j h h'. no_conflict j (omega arith) h') in
            (
              k,
              r',
              h,
              there',
              v',
              after_attempt-again (result_of i) (open_loop alignment sizes attempts fuel (i + 1))
                    tried
                  ∙ opens,
            )
        | inr final ↦ elim (final-cases (result_of i) final) [
          | inl conflict ↦ absurd (no_conflict i (omega arith) (omega arith) conflict)
          | inr (m, found) ↦ Opens-at fuel i n m (attempts i) (omega arith) refl found
        ]
      ]

  -- Where an attempt finds a memory that can be used, and none before it finds one of another
  -- version, the loop, looked at beyond that attempt, has ended by then with a memory that it or an
  -- attempt before it could use.
  pub open_loop_opens :
      (n fuel : ℕ) (r : Region)
      → n < fuel
      → attempts n ≡ some r
      → IsUsable alignment sizes open_only r
      → ((j : ℕ) → j < n → result_of j ≢ inl version_conflict)
      → (k : ℕ) × (r' : Region) × (k ≤ n)
        × (attempts k ≡ some r')
        × IsUsable alignment sizes open_only r'
        × (open_loop alignment sizes attempts fuel 0
            ≡ goes_on (attached alignment sizes open_only r'))
  open_loop_opens n fuel r enough there v no_conflict =
      Opens-from n fuel 0 n r (omega arith) enough there v (λ j h h'. no_conflict j h')
