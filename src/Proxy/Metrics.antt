-- ===== src/Proxy/Metrics.antt =====
-- src/proxy/connection_metrics.rs: the quality of a connection. `F` with its operations is f64, a
-- duration is a number of nanoseconds and a clock reading an argument; the packets, which nothing
-- counts, are left out, and with them the loss rate is a field that nothing changes.
use gsc_fq.Common.{
  ℕ, zero, suc, ◌+◌, ◌-◌, ◌*◌, ◌/◌, ◌%◌, ◌^◌, Bool, true, false, Option, none, some, List, [], ◌∷◌,
  ◌++◌, arith, ltb, leb, ◌==◌, if◌then◌else◌, length,
}
use gsc_fq.Common.Windows.{push}
pub mod Score
mod Tests

-- What is used of f64; `clamp` is `min(100.0).max(0.0) as u8`.
pub record Float (F : Type 0) : Type 0 where
  pub of_nat : ℕ → F
  pub add : F → F → F
  pub sub : F → F → F
  pub mul : F → F → F
  pub div : F → F → F
  pub gt : F → F → Bool
  pub half : F
  pub clamp : F → ℕ

pub record ConnectionMetrics (F : Type 0) : Type 0 where
  pub rtt : Option ℕ
  pub rtt_samples : List ℕ
  pub packet_loss_rate : F
  pub success_count : ℕ
  pub failure_count : ℕ
  pub bandwidth_mbps : F
  pub bytes_sent : ℕ
  pub bytes_received : ℕ
  pub created_at : ℕ
  pub last_health_check : ℕ
  pub last_activity : ℕ

abbrev pub add_u64 : ℕ → ℕ → ℕ
add_u64 a b = (a + b) % 2 ^ 64

abbrev pub millis : ℕ → ℕ
millis n = n * 1000000

abbrev pub sum : List ℕ → ℕ
sum [] = 0
sum (d ∷ ds) = d + sum ds

-- The sum by the length, which is 100 at most and never 0 here.
unfoldable pub avg_rtt : List ℕ → Option ℕ
avg_rtt [] = none
avg_rtt (d ∷ ds) = some (sum (d ∷ ds) / length (d ∷ ds))

-- The score of an average round trip, in whole points.
unfoldable pub rtt_points : Option ℕ → ℕ
rtt_points none = 50
rtt_points (some rtt) =
    if ltb rtt (millis 50)
    then 100
    else if ltb rtt (millis 100)
    then 90
    else if ltb rtt (millis 200)
    then 70
    else if ltb rtt (millis 500)
    then 40
    else 10

module _ {F : Type 0} (f : Float F) where
  unfoldable pub new : ℕ → ConnectionMetrics F
  new now = record {
    rtt = none;
    rtt_samples = [];
    packet_loss_rate = f.of_nat 0;
    success_count = 0;
    failure_count = 0;
    bandwidth_mbps = f.of_nat 0;
    bytes_sent = 0;
    bytes_received = 0;
    created_at = now;
    last_health_check = now;
    last_activity = now;
  }

  pub calculate_rtt_score : ConnectionMetrics F → F
  unfolding rtt_points avg_rtt
  calculate_rtt_score m = f.of_nat (rtt_points (avg_rtt m.rtt_samples))

  pub calculate_loss_score : ConnectionMetrics F → F
  calculate_loss_score m = f.mul (f.sub (f.of_nat 1) m.packet_loss_rate) (f.of_nat 100)

  pub calculate_success_score : ConnectionMetrics F → F
  calculate_success_score m =
      let total = add_u64 m.success_count m.failure_count in
      if total == 0
      then f.of_nat 50
      else f.mul (f.div (f.of_nat m.success_count) (f.of_nat total)) (f.of_nat 100)

  pub calculate_bandwidth_score : ConnectionMetrics F → F
  calculate_bandwidth_score m =
      if f.gt m.bandwidth_mbps (f.of_nat 10)
      then f.of_nat 100
      else if f.gt m.bandwidth_mbps (f.of_nat 5)
      then f.of_nat 80
      else if f.gt m.bandwidth_mbps (f.of_nat 1)
      then f.of_nat 60
      else if f.gt m.bandwidth_mbps f.half
      then f.of_nat 40
      else f.of_nat 20

  unfoldable pub calculate_quality_score : ConnectionMetrics F → ℕ
  unfolding calculate_rtt_score calculate_loss_score calculate_success_score
      calculate_bandwidth_score
  calculate_quality_score m = f.clamp (
      f.div
        (f.add
          (f.add
            (f.add (f.mul (calculate_rtt_score m) (f.of_nat 40))
              (f.mul (calculate_loss_score m) (f.of_nat 30)))
            (f.mul (calculate_success_score m) (f.of_nat 20)))
          (f.mul (calculate_bandwidth_score m) (f.of_nat 10)))
        (f.of_nat 100))

  unfoldable pub add_rtt_sample : ConnectionMetrics F → ℕ → ℕ → ConnectionMetrics F
  add_rtt_sample m rtt now = record m {
    rtt_samples = push 100 m.rtt_samples rtt;
    rtt = some rtt;
    last_health_check = now;
  }

  -- `seconds` is the duration as f64.
  unfoldable pub update_bandwidth : ConnectionMetrics F → F → ConnectionMetrics F
  update_bandwidth m seconds =
      if f.gt seconds (f.of_nat 0)
      then record m {
        bandwidth_mbps =
            f.div (f.div (f.of_nat (add_u64 m.bytes_sent m.bytes_received)) seconds)
              (f.of_nat 1000000);
      }
      else m

  unfoldable pub record_success : ConnectionMetrics F → ℕ → ConnectionMetrics F
  record_success m now = record m { success_count = add_u64 m.success_count 1; last_activity = now }

  unfoldable pub record_failure : ConnectionMetrics F → ℕ → ConnectionMetrics F
  record_failure m now = record m { failure_count = add_u64 m.failure_count 1; last_activity = now }

  unfoldable pub update_transfer : ConnectionMetrics F → ℕ → ℕ → ℕ → ConnectionMetrics F
  update_transfer m sent received now = record m {
    bytes_sent = add_u64 m.bytes_sent sent;
    bytes_received = add_u64 m.bytes_received received;
    last_activity = now;
  }
