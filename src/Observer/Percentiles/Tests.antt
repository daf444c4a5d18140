-- ===== src/Observer/Percentiles/Tests.antt =====
-- Tests of the percentiles.
use hft_demo.Common.{ℕ, ◌-◌, ◌*◌, ◌/◌, ◌≤◌, ◌<◌, ◌≡◌, refl, List, [], ◌∷◌, arith, ltb, leb, length}
use hft_demo.Observer.Percentiles.{
  percentile_from_sorted, sort, sort_and_write_latency_percentiles, count, percentile_lem,
}

abbrev five_values : List ℕ
five_values = 30 ∷ 10 ∷ 50 ∷ 20 ∷ 40 ∷ []

five_percentiles : sort_and_write_latency_percentiles five_values ≡ 30 ∷ 40 ∷ 40 ∷ 40 ∷ []
unfolding sort_and_write_latency_percentiles percentile_from_sorted
five_percentiles = refl

percentile_lem_example :
    let v = percentile_from_sorted (sort five_values) 90 in
    let rank = (length five_values - 1) * 90 / 100 in
    (rank < count (λ x. leb x v) five_values) × (count (λ x. ltb x v) five_values ≤ rank)
percentile_lem_example = percentile_lem five_values 90 (omega arith) (omega arith) (omega arith)
