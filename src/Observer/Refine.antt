-- ===== src/Observer/Refine.antt =====
-- The rounds of the observer, on queues of samples and of log messages.
use hft_demo.Common.{
  ◌≤◌, ◌<◌, ◌≡◌, refl, ap, ap₂, ◌∙◌, Bool, true, List, [], ◌∷◌, ◌++◌, map, inl, inr, Bool-cases,
  arith, ltb, if◌then◌else◌, length, length-map, length-append,
}
use hft_demo.Market.{LatencyNsSample, latency_length}
use hft_demo.Ring.{Ring, ReadResult, read}
use hft_demo.Ring.Queue.{
  Queue, live, lost, queue_read, view, IsValid, read_refines, read-IsValid, reset_refines,
  reset-IsValid,
}
use hft_demo.Observer.{
  latency_batch_size, Batches, push_sample, Line, row, LatencyState, Moment, after_sample_read,
  empty_sample, header_of, row_of, write_row, latency_step,
}

-- The batches that hold these samples.
abbrev pub columns : List LatencyNsSample → Batches
columns xs = record {
  total = map (λ x. x.delta_total) xs;
  feeder_ns = map (λ x. x.delta_feeder_ns) xs;
  md_queue_ns = map (λ x. x.delta_md_queue_ns) xs;
  trader_ns = map (λ x. x.delta_trader_ns) xs;
  order_queue_ns = map (λ x. x.delta_order_queue_ns) xs;
}

-- The aggregation on a queue: the samples held and the lines written.
pub record Aggregate : Type 0 where
  pub queue : Queue LatencyNsSample
  pub held : List LatencyNsSample
  pub csv : List Line

-- A lost queue drops the samples held and starts anew; an empty one ends with its producer.
abbrev pub take_sample : Moment → Aggregate → Aggregate × Bool
take_sample m a = elim a.queue [
  | live [] ↦ (a, m.is_producer_alive)
  | live (x ∷ xs) ↦ (record a { queue = live xs; held = a.held ++ x ∷ [] }, true)
  | lost ↦ (record a { queue = live []; held = [] }, true)
]

-- A batch is written when it has its size.
abbrev pub aggregate_step : Moment → Aggregate → Aggregate × Bool
aggregate_step m a = if ltb (length a.held) latency_batch_size then take_sample m a else (
  record a {
    held = [];
    csv =
        a.csv
        ++ header_of m.file_size
        ++ row m.now_seconds latency_batch_size (row_of (columns a.held)) ∷ [];
  },
  true,
)

-- The state stands for this aggregate.
pub record StandsFor (s : LatencyState) (a : Aggregate) : Type 0 where
  pub whole : IsValid latency_length s.ring
  pub queue : view latency_length empty_sample s.ring ≡ a.queue
  pub batches : s.batches ≡ columns a.held
  pub csv : s.csv ≡ a.csv
  pub fits : length a.held ≤ latency_batch_size

map-snoc :
    {A B : Type 0} (f : A → B) (xs : List A) (x : A) → map f (xs ++ x ∷ []) ≡ map f xs ++ f x ∷ []
map-snoc f [] x = refl
map-snoc f (y ∷ xs) x = ap (λ t. f y ∷ t) (map-snoc f xs x)

push-columns :
    (xs : List LatencyNsSample) (x : LatencyNsSample)
    → push_sample (columns xs) x ≡ columns (xs ++ x ∷ [])
push-columns xs x =
    rw
      (
        map-snoc (λ (x : LatencyNsSample). x.delta_total) xs x,
        map-snoc (λ (x : LatencyNsSample). x.delta_feeder_ns) xs x,
        map-snoc (λ (x : LatencyNsSample). x.delta_md_queue_ns) xs x,
        map-snoc (λ (x : LatencyNsSample). x.delta_trader_ns) xs x,
        map-snoc (λ (x : LatencyNsSample). x.delta_order_queue_ns) xs x,
      )
      refl

-- The branches behind a read that returned `r`.
sample_lem :
    (m : Moment) (s : LatencyState) (q : Queue LatencyNsSample) (held : List LatencyNsSample)
    (csv : List Line) (r : Ring LatencyNsSample × ReadResult × LatencyNsSample)
    → IsValid latency_length r.0
    → (view latency_length empty_sample r.0, r.1, r.2) ≡ queue_read q empty_sample
    → s.batches ≡ columns held
    → s.csv ≡ csv
    → length held < latency_batch_size
    → let a = take_sample m (record { queue = q; held = held; csv = csv }) in
      StandsFor (after_sample_read m s r).0 a.0 × ((after_sample_read m s r).1 ≡ a.1)
unfolding after_sample_read
sample_lem m s (live []) held csv (ring, result, x) v e batches lines fits = rw (ap (λ t. t.1) e) (
  record { whole = v; queue = ap (λ t. t.0) e; batches = batches; csv = lines; fits = omega arith },
  refl,
)
sample_lem m s (live (y ∷ ys)) held csv (ring, result, x) v e batches lines fits =
    rw (ap (λ t. t.1) e, ap (λ t. t.2) e)
      (
        record {
          whole = v;
          queue = ap (λ t. t.0) e;
          batches = ap (λ b. push_sample b y) batches ∙ push-columns held y;
          csv = lines;
          fits = omega (arith, length-append held (y ∷ []));
        },
        refl,
      )
sample_lem m s lost held csv (ring, result, x) v e batches lines fits = rw (ap (λ t. t.1) e) (
  record {
    whole = reset-IsValid 14 (omega arith) ring v;
    queue = reset_refines 14 (omega arith) empty_sample ring;
    batches = refl;
    csv = lines;
    fits = omega arith;
  },
  refl,
)

pub latency_step_refines :
    (m : Moment) (s : LatencyState) (a : Aggregate)
    → StandsFor s a
    → StandsFor (latency_step m s).0 (aggregate_step m a).0
      × ((latency_step m s).1 ≡ (aggregate_step m a).1)
unfolding latency_step write_row
latency_step_refines m s a v =
    let same : length s.batches.total ≡ length a.held =
      ap (λ (b : Batches). length b.total) v.batches ∙ length-map a.held (λ x. x.delta_total) in
    elim (Bool-cases (ltb (length a.held) latency_batch_size)) [
      | inl room ↦
          rw (same, room)
            (sample_lem m s a.queue a.held a.csv (read latency_length s.ring empty_sample)
              (read-IsValid 14 (omega arith) s.ring empty_sample v.whole)
              (read_refines 14 (omega arith) s.ring empty_sample v.whole
                ∙ ap (λ q. queue_read q empty_sample) v.queue)
              v.batches v.csv (ground (arith, room)))
      | inr full ↦
          rw (same, full)
            (
              record {
                whole = v.whole;
                queue = v.queue;
                batches = refl;
                csv =
                    ap₂
                      (λ (lines : List Line) (b : Batches).
                        lines
                        ++ header_of m.file_size
                        ++ row m.now_seconds latency_batch_size (row_of b) ∷ [])
                      v.csv v.batches;
                fits = omega arith;
              },
              refl,
            )
    ]
