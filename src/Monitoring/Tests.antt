-- ===== src/Monitoring/Tests.antt =====
-- src/monitoring/mod.rs: calls of the monitoring system, and its theorem at some.
use gsc_fq.Common.{ℕ, ◌*◌, ◌/◌, ◌≡◌, refl, [], ◌∷◌, arith, codes, ltb}
use gsc_fq.Common.Maps
use gsc_fq.Monitoring.{Float, ErrorEvent, new_average, unhealthy}
use gsc_fq.Monitoring.Health.{health_status}
use gsc_fq.Monitoring.Global.{established, closed, errored, after}
use gsc_fq.Monitoring.Counters.{Exact, after-Exact}

-- Whole numbers in place of floating point.
abbrev whole : Float ℕ
whole = record { of_nat = λ n. n; mul = ◌*◌; div = ◌/◌; gt = λ a b. ltb b a }

abbrev failure : ErrorEvent
failure = record {
  timestamp = 5;
  error_type = codes "Timeout";
  error_message = [];
  context = Maps.empty;
}

-- Ten connections, of which one is closed, after a second.
average_of_ten : new_average 0 10 1000 ≡ 100
unfolding new_average
average_of_ten = refl

overloaded : health_status whole 91 0 ≡ unhealthy
unfolding health_status
overloaded = refl

after-Exact_example :
    Exact
      (errored failure 2 ∷ closed 7 ∷ established 1 ∷ [])
      (after whole 0 (errored failure 2 ∷ closed 7 ∷ established 1 ∷ []))
after-Exact_example =
    after-Exact whole 0 (errored failure 2 ∷ closed 7 ∷ established 1 ∷ []) (omega arith)
