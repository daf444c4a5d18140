-- ===== src/Trader/Loop.antt =====
-- The loop of OrderBookProcessor::ProcessUpdate of trader/trader.cpp. Round `i` of a call finds the
-- response `responses i` if it asks the exchange, and the time `clock i`.
use hft_demo.Common.{
  ℕ, zero, suc, ◌+◌, ◌<◌, ◌^◌, ◌≤◌, ◌≡◌, refl, ap, ap₂, ◌∙◌, Bool, true, false, List, [], ◌∷◌, ◌++◌,
  Option, none, some, inl, inr, Bool-cases, arith, if◌then◌else◌, length, u32_mod,
}
use hft_demo.Market.{OrderBookUpdate}
use hft_demo.Book.{Book}
use hft_demo.Ring.{Ring, ReadResult, success, buffer_is_empty, consumer_is_disabled, read}
use hft_demo.Ring.Queue.{
  Queue, live, lost, queue_read, view, IsValid, read_refines, read-IsValid, count, length-slots,
}
use hft_demo.Parser.Events.{Reader}
use hft_demo.Parser.Snapshot.{SnapshotSax}
use hft_demo.Trader.{Stamps, update_stamps, apply_update}

-- What `OrderBookProcessor` and its parser keep beside the ring: the handler of snapshots, the book
-- and the stamps.
pub record Processor : Type 0 where
  pub handler : SnapshotSax
  pub order_book : Book
  pub stamps : Stamps

-- What a round of the loop comes to: another round, or the result of the call.
pub data Verdict : Type 0 where
  again : Verdict
  returns : Bool → Verdict

-- The branch of a successful read.
unfoldable pub take_update :
    Reader → (response : List ℕ) (now : ℕ) → Processor → OrderBookUpdate → Processor × Verdict
take_update reader response now p u =
    let stamps = update_stamps p.stamps u.feeder_read_steady_ns u.feeder_write_steady_ns now in
    let (h, b, ok) = apply_update reader response p.handler p.order_book u in
    (
      record { handler = h; order_book = b; stamps = stamps },
      if ok then if u.has_more then again else returns true else returns false,
    )

-- A round behind the read.
abbrev pub after_update_read :
    {Q : Type 0}
    → Reader
    → (response : List ℕ) (now : ℕ) → Processor
    → Q × ReadResult × OrderBookUpdate
    → (Q × Processor) × Verdict
after_update_read reader response now p (q, success, u) =
    let (p', verdict) = take_update reader response now p u in ((q, p'), verdict)
after_update_read reader response now p (q, consumer_is_disabled, u) = ((q, p), returns false)
after_update_read reader response now p (q, buffer_is_empty, u) = ((q, p), returns true)

abbrev pub stopped :
    List OrderBookUpdate
    → Processor × Verdict
    → (List OrderBookUpdate × Processor) × Bool
    → (List OrderBookUpdate × Processor) × Bool
stopped us (p, again) later = later
stopped us (p, returns ok) later = ((us, p), ok)

abbrev pub alive :
    (List OrderBookUpdate × Processor) × Bool → (Queue OrderBookUpdate × Processor) × Bool
alive ((us, p), ok) = ((live us, p), ok)

-- The end of a round: what the call returns, or `rest` of a further round.
abbrev pub ended : {S : Type 0} → S × Verdict → Option (S × Bool) → Option (S × Bool)
ended (s, again) rest = rest
ended (s, returns ok) rest = some (s, ok)

-- The first batch of a queue: the updates up to the first that has no more behind it.
abbrev pub first_batch : List OrderBookUpdate → List OrderBookUpdate
first_batch [] = []
first_batch (u ∷ us) = if u.has_more then u ∷ first_batch us else u ∷ []

abbrev pub behind_batch : List OrderBookUpdate → List OrderBookUpdate
behind_batch [] = []
behind_batch (u ∷ us) = if u.has_more then behind_batch us else us

first_batch-behind : (us : List OrderBookUpdate) → first_batch us ++ behind_batch us ≡ us
first_batch-behind [] = refl
first_batch-behind (u ∷ us) = elim (Bool-cases u.has_more) [
  | inl more ↦
      ap
        (λ (more : Bool).
          (if more then u ∷ first_batch us else u ∷ []) ++ (if more then behind_batch us else us))
        more
      ∙ ap (λ rest. u ∷ rest) (first_batch-behind us)
  | inr last ↦
      ap
        (λ (more : Bool).
          (if more then u ∷ first_batch us else u ∷ []) ++ (if more then behind_batch us else us))
        last
]

module _ (reader : Reader) (responses : ℕ → List ℕ) (clock : ℕ → ℕ) (out : OrderBookUpdate) where
  -- A round on a ring of `n` places.
  abbrev pub round :
      ℕ → ℕ → Ring OrderBookUpdate × Processor → (Ring OrderBookUpdate × Processor) × Verdict
  round n i (ring, p) = after_update_read reader (responses i) (clock i) p (read n ring out)

  -- `ProcessUpdate` from round `i` on; none where the fuel ends first.
  unfoldable pub process_update :
      ℕ
      → (fuel i : ℕ) → Ring OrderBookUpdate × Processor
      → Option ((Ring OrderBookUpdate × Processor) × Bool)
  process_update n zero i s = none
  process_update n (suc fuel) i s =
      let rest = process_update n fuel (i + 1) (round n i s).0 in ended (round n i s) rest

  -- An update on its own: the stamps it brings, and the book as `ApplyUpdate` leaves it.
  abbrev pub applied : (i : ℕ) → Processor → OrderBookUpdate → Processor × Bool
  applied i p u =
      let (h, b, ok) = apply_update reader (responses i) p.handler p.order_book u in
      (
        record {
          handler = h;
          order_book = b;
          stamps =
              update_stamps p.stamps u.feeder_read_steady_ns u.feeder_write_steady_ns (clock i);
        },
        ok,
      )

  -- Updates one after the other, up to the first that fails, and what is left of them.
  unfoldable pub apply_in_order :
      (i : ℕ) → List OrderBookUpdate → Processor → (List OrderBookUpdate × Processor) × Bool
  apply_in_order i [] p = (([], p), true)
  apply_in_order i (u ∷ us) p =
      let rest = apply_in_order (i + 1) us (applied i p u).0 in
      if (applied i p u).1 then rest else ((us, (applied i p u).0), false)

  -- What the call means for the queue of updates: it applies the first batch of the queue, and leaves
  -- what is behind the batch.
  unfoldable pub consume :
      (i : ℕ) → List OrderBookUpdate → Processor → (List OrderBookUpdate × Processor) × Bool
  consume i us p =
      let ((left, p'), ok) = apply_in_order i (first_batch us) p in
      ((left ++ behind_batch us, p'), ok)

  pub consume-nil : (i : ℕ) (p : Processor) → consume i [] p ≡ (([], p), true)
  unfolding consume apply_in_order
  consume-nil i p = refl

  -- The first update, and what follows it.
  pub consume-step :
      (i : ℕ) (u : OrderBookUpdate) (us : List OrderBookUpdate) (p : Processor)
      → consume i (u ∷ us) p
        ≡ stopped us
            (take_update reader (responses i) (clock i) p u)
            (consume (i + 1) us (take_update reader (responses i) (clock i) p u).0)
  unfolding take_update consume apply_in_order apply_update
  consume-step i u us p = elim (Bool-cases (applied i p u).1) [
    | inl ok ↦ elim (Bool-cases u.has_more) [
      | inl more ↦ rw (more, ok) refl
      | inr last ↦ rw (last, ok) refl
    ]
    | inr failed ↦ elim (Bool-cases u.has_more) [
      | inl more ↦ rw (more, failed) (ap (λ rest. ((rest, _), false)) (first_batch-behind us))
      | inr last ↦ rw (last, failed) refl
    ]
  ]

  abbrev pub queue_update :
      ℕ → Queue OrderBookUpdate → Processor → (Queue OrderBookUpdate × Processor) × Bool
  queue_update i (live us) p = alive (consume i us p)
  queue_update i lost p = ((lost, p), false)

  -- The number of updates of a queue; a lost one has none.
  abbrev pub size : Queue OrderBookUpdate → ℕ
  size (live us) = length us
  size lost = 0

  -- A call on the ring has returned what `result` says of the queue.
  abbrev pub Returned :
      ℕ
      → Option ((Ring OrderBookUpdate × Processor) × Bool)
      → (Queue OrderBookUpdate × Processor) × Bool
      → Type 0
  Returned n outcome result =
      (ring : Ring OrderBookUpdate) × (outcome ≡ some ((ring, result.0.1), result.1))
      × (view n out ring ≡ result.0.0)
      × IsValid n ring

  module _ (k : ℕ) (small : 2 ^ k ≤ u32_mod) where
    pub size-view :
        (ring : Ring OrderBookUpdate) → IsValid (2 ^ k) ring → size (view (2 ^ k) out ring) < 2 ^ k
    unfolding view
    size-view ring v = elim (Bool-cases ring.is_active_consumer) [
      | inl on ↦
          ground (arith, on, length-slots (2 ^ k) out ring.places ring.tail (count (2 ^ k) ring))
      | inr off ↦ rw (off) (omega arith)
    ]

    round-read :
        (i : ℕ) (ring : Ring OrderBookUpdate) (p : Processor) {result : ReadResult}
        {u : OrderBookUpdate}
        → (read (2 ^ k) ring out).1 ≡ result
        → (read (2 ^ k) ring out).2 ≡ u
        → round (2 ^ k) i (ring, p)
          ≡ after_update_read reader
              (responses i)
              (clock i)
              p
              ((read (2 ^ k) ring out).0, result, u)
    round-read i ring p = ap₂ (λ result u.
        after_update_read reader (responses i) (clock i) p ((read (2 ^ k) ring out).0, result, u))

    proceed :
        (fuel i : ℕ) (ring : Ring OrderBookUpdate) (step : Processor × Verdict)
        (us : List OrderBookUpdate)
        → view (2 ^ k) out ring ≡ live us
        → IsValid (2 ^ k) ring
        → ((p : Processor)
            → Returned
                (2 ^ k)
                (process_update (2 ^ k) fuel (i + 1) (ring, p))
                (alive (consume (i + 1) us p)))
        → Returned
            (2 ^ k)
            (ended ((ring, step.0), step.1) (process_update (2 ^ k) fuel (i + 1) (ring, step.0)))
            (alive (stopped us step (consume (i + 1) us step.0)))
    proceed fuel i ring (p, again) us e v later = later p
    proceed fuel i ring (p, returns ok) us e v later = (ring, refl, e, v)

    process-queue :
        (fuel i : ℕ) (ring : Ring OrderBookUpdate) (p : Processor) (q : Queue OrderBookUpdate)
        → IsValid (2 ^ k) ring
        → view (2 ^ k) out ring ≡ q
        → size q < fuel
        → Returned (2 ^ k) (process_update (2 ^ k) fuel i (ring, p)) (queue_update i q p)
    unfolding process_update
    process-queue zero i ring p q v e enough = absurd (omega arith)
    process-queue (suc fuel) i ring p lost v e enough =
        let taken = read_refines k small ring out v ∙ ap (λ q. queue_read q out) e in
        let step = round-read i ring p (ap (λ t. t.1) taken) (ap (λ t. t.2) taken) in
        (
          (read (2 ^ k) ring out).0,
          rw step refl,
          ap (λ t. t.0) taken,
          read-IsValid k small ring out v,
        )
    process-queue (suc fuel) i ring p (live []) v e enough =
        let taken = read_refines k small ring out v ∙ ap (λ q. queue_read q out) e in
        let step = round-read i ring p (ap (λ t. t.1) taken) (ap (λ t. t.2) taken) in
        (
          (read (2 ^ k) ring out).0,
          rw (step, consume-nil i p) refl,
          ap (λ t. t.0) taken ∙ rw (consume-nil i p) refl,
          read-IsValid k small ring out v,
        )
    process-queue (suc fuel) i ring p (live (u ∷ us)) v e enough =
        let taken = read_refines k small ring out v ∙ ap (λ q. queue_read q out) e in
        let step = round-read i ring p (ap (λ t. t.1) taken) (ap (λ t. t.2) taken) in
        rw (step, consume-step i u us p)
          (proceed fuel i (read (2 ^ k) ring out).0 (take_update reader (responses i) (clock i) p u)
            us (ap (λ t. t.0) taken) (read-IsValid k small ring out v)
            (λ p'.
              process-queue fuel (i + 1) (read (2 ^ k) ring out).0 p' (live us)
                (read-IsValid k small ring out v) (ap (λ t. t.0) taken) (omega arith)))

    -- With more fuel than the queue has updates, `ProcessUpdate` on a valid ring, whose length is a
    -- power of two up to 2^32, returns: it has applied the first batch of the queue, one update after
    -- the other up to the first that fails, and left what is behind, a lost queue is a failure, and
    -- the ring stays valid.
    pub process_update_returns :
        (fuel i : ℕ) (ring : Ring OrderBookUpdate) (p : Processor)
        → IsValid (2 ^ k) ring
        → size (view (2 ^ k) out ring) < fuel
        → Returned
            (2 ^ k)
            (process_update (2 ^ k) fuel i (ring, p))
            (queue_update i (view (2 ^ k) out ring) p)
    process_update_returns fuel i ring p v enough =
        process-queue fuel i ring p (view (2 ^ k) out ring) v refl enough
