-- ===== src/Ring/Threads/Order.antt =====
-- What the interleaved threads keep of the contract of the ring.
use hft_demo.Common.{
  ℕ, ◌^◌, ◌≤◌, ◌≡◌, ◌≢◌, ◌⊎◌, inl, inr, refl, sym, ap, ◌∙◌, true, false, List, [], ◌∷◌, ◌++◌, arith,
  u32_mod,
}
use hft_demo.Ring.Queue.{live, view, view-live, new_ring-IsValid, count}
use hft_demo.Ring.Threads.{
  Consumer, resting, System, init, Step, Steps, here, later, call, load_head, find_full, disable,
  find_room, store_place, store_head, find_active, find_disabled, load_tail, see_head, find_empty,
  copy, store_tail,
}
use hft_demo.Ring.Threads.Invariant.{Inv, unread, Step-Inv}

Step-active :
    {A : Type 0} {n : ℕ} {d : A} {s t : System A}
    → Step n d s t
    → t.ring.is_active_consumer ≡ true
    → s.ring.is_active_consumer ≡ true
Step-active (call x e) on = on
Step-active (load_head e) on = on
Step-active (find_full e f) on = on
Step-active (disable e) on = cc (on)
Step-active (find_room e f) on = on
Step-active (store_place e) on = on
Step-active (store_head e) on = on
Step-active (find_active e f) on = on
Step-active (find_disabled e f) on = on
Step-active (load_tail e) on = on
Step-active (see_head e) on = on
Step-active (find_empty e f) on = on
Step-active (copy e f) on = on
Step-active (store_tail e) on = on

init-Inv : {A : Type 0} (k : ℕ) → 2 ^ k ≤ u32_mod → (d : A) → Inv (2 ^ k) d (init (2 ^ k) d)
init-Inv k small d = record {
  valid = new_ring-IsValid k small d;
  writes = tt;
  reads = tt;
  fifo = ground arith;
}

Steps-Inv :
    {A : Type 0} (k : ℕ) (small : 2 ^ k ≤ u32_mod) (d : A) {s : System A}
    → Steps (2 ^ k) d (init (2 ^ k) d) s
    → s.ring.is_active_consumer ≡ true
    → Inv (2 ^ k) d s
Steps-Inv k small d here on = init-Inv k small d
Steps-Inv k small d (later r st) on =
    Step-Inv k small d (Steps-Inv k small d r (Step-active st on)) st on

-- However the loads and stores of both threads interleave on a new ring of 2^k places, at most 2^32
-- of them: as long as the consumer is active, the reads have given the elements written, in order
-- and none left out, up to those that the ring still holds.
pub threads_fifo :
    {A : Type 0} (k : ℕ) (d : A) {s : System A}
    → 2 ^ k ≤ u32_mod
    → Steps (2 ^ k) d (init (2 ^ k) d) s
    → s.ring.is_active_consumer ≡ true
    → (rest : List A) × (s.written ≡ s.received ++ rest) × (view (2 ^ k) d s.ring ≡ live rest)
threads_fifo k d {s} small r on =
    let inv = Steps-Inv k small d r on in
    (
      unread (2 ^ k) d s.ring,
      inv.fifo,
      view-live k small d s.ring {c = count (2 ^ k) s.ring} on refl,
    )

-- From `s` to `t` no read has completed, or one, and the consumer is at rest after it.
abbrev AtMostOne : {A : Type 0} → System A → System A → Type 0
AtMostOne {A} s t =
    (t.received ≡ s.received)
    ⊎ ((x : A) × (t.received ≡ s.received ++ x ∷ []) × (t.consumer ≡ resting))

none_yet :
    {A : Type 0} (s t : System A) {c : Consumer A}
    → AtMostOne s t
    → t.consumer ≡ c
    → c ≢ resting
    → t.received ≡ s.received
none_yet s t (inl same) at busy = same
none_yet s t (inr (x, more, rests)) at busy = absurd (busy (sym at ∙ rests))

Step-AtMostOne :
    {A : Type 0} {n : ℕ} {d : A} (s : System A) {t u : System A}
    → Step n d t u
    → t.ring.is_active_consumer ≡ false
    → AtMostOne s t
    → (u.ring.is_active_consumer ≡ false) × AtMostOne s u
Step-AtMostOne s (call x e) off o = (off, o)
Step-AtMostOne s (load_head e) off o = (off, o)
Step-AtMostOne s (find_full e f) off o = (off, o)
Step-AtMostOne s (disable e) off o = (refl, o)
Step-AtMostOne s (find_room e f) off o = (off, o)
Step-AtMostOne s (store_place e) off o = (off, o)
Step-AtMostOne s (store_head e) off o = (off, o)
Step-AtMostOne s (find_active e on) off o = cc (on, off)
Step-AtMostOne s (find_disabled e f) off o = (off, o)
Step-AtMostOne s {t} (load_tail e) off o = (off, inl (none_yet s t o e (λ q. cc q)))
Step-AtMostOne s {t} (see_head e) off o = (off, inl (none_yet s t o e (λ q. cc q)))
Step-AtMostOne s {t} (find_empty e f) off o = (off, inl (none_yet s t o e (λ q. cc q)))
Step-AtMostOne s {t} (copy e f) off o = (off, inl (none_yet s t o e (λ q. cc q)))
Step-AtMostOne s {t} (store_tail {x = x} e) off o =
    (off, inr (x, ap (λ rs. rs ++ x ∷ []) (none_yet s t o e (λ q. cc q)), refl))

Steps-AtMostOne :
    {A : Type 0} {n : ℕ} {d : A} {s t : System A}
    → Steps n d s t
    → s.ring.is_active_consumer ≡ false
    → (t.ring.is_active_consumer ≡ false) × AtMostOne s t
Steps-AtMostOne here off = (off, inl refl)
Steps-AtMostOne {s} (later r st) off =
    let (off', o) = Steps-AtMostOne r off in Step-AtMostOne s st off' o

-- However the threads go on once the consumer is disabled, it stays disabled, and at most one more
-- read gives an element: the one that was on its way.
pub disabled_stays :
    {A : Type 0} {n : ℕ} {d : A} {s t : System A}
    → Steps n d s t
    → s.ring.is_active_consumer ≡ false
    → (t.ring.is_active_consumer ≡ false)
      × ((t.received ≡ s.received) ⊎ ((x : A) × (t.received ≡ s.received ++ x ∷ [])))
disabled_stays r off =
    let (off', o) = Steps-AtMostOne r off in
    (off', elim o [ inl same ↦ inl same | inr (x, more, rests) ↦ inr (x, more) ])
