-- ===== src/Proxy/Metrics/Tests.antt =====
-- src/proxy/connection_metrics.rs: scores with whole numbers in place of floating point.
use gsc_fq.Common.{ℕ, ◌+◌, ◌-◌, ◌*◌, ◌/◌, ◌≡◌, refl, min, some, [], ◌∷◌, ltb}
use gsc_fq.Proxy.Metrics.{
  Float, new, calculate_quality_score, calculate_rtt_score, calculate_loss_score,
  calculate_success_score, calculate_bandwidth_score, rtt_points, avg_rtt, add_rtt_sample,
  record_success, millis,
}

abbrev whole : Float ℕ
whole = record {
  of_nat = λ n. n;
  add = ◌+◌;
  sub = ◌-◌;
  mul = ◌*◌;
  div = ◌/◌;
  gt = λ a b. ltb b a;
  half = 0;
  clamp = λ n. min n 100;
}

average : avg_rtt (millis 40 ∷ millis 60 ∷ []) ≡ some (millis 50)
unfolding avg_rtt
average = refl

-- A connection without data scores 50 for its round trips and its successes.
unknown : calculate_quality_score whole (new whole 0) ≡ 62
unfolding calculate_quality_score calculate_rtt_score calculate_loss_score calculate_success_score
    calculate_bandwidth_score rtt_points avg_rtt new
unknown = refl

-- A fast connection with a success.
good :
    calculate_quality_score whole (record_success whole (add_rtt_sample whole (new whole 0) 9 0) 1)
    ≡ 92
unfolding calculate_quality_score calculate_rtt_score calculate_loss_score calculate_success_score
    calculate_bandwidth_score rtt_points avg_rtt new record_success add_rtt_sample
good = refl
