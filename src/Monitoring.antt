-- ===== src/Monitoring.antt =====
-- src/monitoring/mod.rs: the monitoring system. `F` with its operations is f64; a clock reading, the
-- time since the start and the random load of the processor are arguments of the call. A u64 counter
-- wraps around. What nothing here reads or changes, the load average and the services, is left out.
use gsc_fq.Common.{
  ℕ, ◌+◌, ◌-◌, ◌*◌, ◌/◌, ◌%◌, ◌^◌, Bool, true, false, ◌||◌, Option, none, some, List, [], ◌∷◌, ◌++◌,
  arith, ltb, if◌then◌else◌, Bytes, bytes_key, codes, length,
}
use gsc_fq.Common.Maps
use gsc_fq.Common.Maps.{Map}
use gsc_fq.Common.Windows.{push}
pub mod Health
pub mod Global
pub mod Counters
pub mod Tests

abbrev pub u64_mod : ℕ
u64_mod = 2 ^ 64

abbrev pub add_u64 : ℕ → ℕ → ℕ
add_u64 a b = (a + b) % u64_mod

-- What is used of f64.
pub record Float (F : Type 0) : Type 0 where
  pub of_nat : ℕ → F
  pub mul : F → F → F
  pub div : F → F → F
  pub gt : F → F → Bool

pub record ConnectionMetrics (F : Type 0) : Type 0 where
  pub total_connections : ℕ
  pub active_connections : ℕ
  pub failed_connections : ℕ
  pub connection_rate : F
  pub avg_connection_duration_ms : ℕ
  pub total_bytes_transferred : ℕ
  pub total_packets_transferred : ℕ

pub record PerformanceMetrics (F : Type 0) : Type 0 where
  pub cpu_utilization_percent : F
  pub memory_usage_bytes : ℕ
  pub network_throughput_mbps : F
  pub request_rate : F
  pub avg_response_time_ms : ℕ
  pub error_rate_percent : F

pub record ErrorEvent : Type 0 where
  pub timestamp : ℕ
  pub error_type : Bytes
  pub error_message : Bytes
  pub context : Map Bytes Bytes

pub record ErrorMetrics (F : Type 0) : Type 0 where
  pub total_errors : ℕ
  pub errors_by_type : Map Bytes ℕ
  pub recent_errors : List ErrorEvent
  pub error_rate_trend : List (ℕ × F)

pub data HealthStatus : Type 0 where
  healthy degraded unhealthy : HealthStatus

pub record SystemHealth : Type 0 where
  pub status : HealthStatus
  pub uptime_seconds : ℕ
  pub last_check : ℕ

pub record MonitoringSystem (F : Type 0) : Type 0 where
  pub connections : ConnectionMetrics F
  pub performance : PerformanceMetrics F
  pub errors : ErrorMetrics F
  pub health : SystemHealth
  pub last_update : ℕ

-- The average over the connections, as it is written: divided by those established.
pub new_average : ℕ → ℕ → ℕ → ℕ
new_average average total duration =
    if ltb 0 total
    then ((average * (total - 1)) % u64_mod + duration) % u64_mod / total
    else average

-- `*entry(error_type).or_insert(0) += 1`.
abbrev pub or_zero : Option ℕ → ℕ
or_zero none = 0
or_zero (some n) = n

unfoldable pub count_of : Map Bytes ℕ → Bytes → ℕ
count_of m error_type = or_zero (Maps.get error_type m)

module _ {F : Type 0} (f : Float F) where
  abbrev zero_f : F
  zero_f = f.of_nat 0

  unfoldable pub new : ℕ → MonitoringSystem F
  new now = record {
    connections = record {
      total_connections = 0;
      active_connections = 0;
      failed_connections = 0;
      connection_rate = zero_f;
      avg_connection_duration_ms = 0;
      total_bytes_transferred = 0;
      total_packets_transferred = 0;
    };
    performance = record {
      cpu_utilization_percent = zero_f;
      memory_usage_bytes = 0;
      network_throughput_mbps = zero_f;
      request_rate = zero_f;
      avg_response_time_ms = 0;
      error_rate_percent = zero_f;
    };
    errors = record {
      total_errors = 0;
      errors_by_type = Maps.empty;
      recent_errors = [];
      error_rate_trend = [];
    };
    health = record { status = healthy; uptime_seconds = 0; last_check = now };
    last_update = now;
  }

  pub update_connection_rate : F → ConnectionMetrics F → ConnectionMetrics F
  update_connection_rate elapsed c = record c {
    connection_rate =
        if f.gt elapsed zero_f
        then f.div (f.of_nat c.total_connections) elapsed
        else c.connection_rate;
  }

  unfoldable pub record_connection_established : F → MonitoringSystem F → MonitoringSystem F
  unfolding update_connection_rate
  record_connection_established elapsed m =
      let c = m.connections in
      record m {
        connections = update_connection_rate elapsed (record c {
          total_connections = add_u64 c.total_connections 1;
          active_connections = add_u64 c.active_connections 1;
        });
      }

  unfoldable pub record_connection_closed : ℕ → MonitoringSystem F → MonitoringSystem F
  unfolding new_average
  record_connection_closed duration m =
      let c = m.connections in
      record m {
        connections = record c {
          active_connections = c.active_connections - 1;
          avg_connection_duration_ms =
              new_average c.avg_connection_duration_ms c.total_connections duration;
        };
      }

  unfoldable pub record_connection_failed : F → MonitoringSystem F → MonitoringSystem F
  unfolding update_connection_rate
  record_connection_failed elapsed m =
      let c = m.connections in
      record m {
        connections =
            update_connection_rate elapsed
              (record c { failed_connections = add_u64 c.failed_connections 1 });
      }

  pub update_network_throughput : F → ℕ → F → F
  update_network_throughput elapsed bytes before =
      if f.gt elapsed zero_f
      then f.div (f.mul (f.div (f.of_nat bytes) elapsed) (f.of_nat 8))
          (f.mul (f.of_nat 1024) (f.of_nat 1024))
      else before

  unfoldable pub record_data_transfer : ℕ → ℕ → F → MonitoringSystem F → MonitoringSystem F
  unfolding update_network_throughput
  record_data_transfer bytes packets elapsed m =
      let c = m.connections in
      let all = add_u64 c.total_bytes_transferred bytes in
      record m {
        connections = record c {
          total_bytes_transferred = all;
          total_packets_transferred = add_u64 c.total_packets_transferred packets;
        };
        performance = record m.performance {
          network_throughput_mbps =
              update_network_throughput elapsed all m.performance.network_throughput_mbps;
        };
      }

  pub update_error_rate : F → ℕ → ℕ → List (ℕ × F) → List (ℕ × F)
  update_error_rate elapsed now total trend =
      if f.gt elapsed zero_f then push 100 trend (now, f.div (f.of_nat total) elapsed) else trend

  unfoldable pub record_error : ErrorEvent → F → MonitoringSystem F → MonitoringSystem F
  unfolding count_of update_error_rate
  record_error event elapsed m =
      let e = m.errors in
      let total = add_u64 e.total_errors 1 in
      record m {
        errors = record {
          total_errors = total;
          errors_by_type =
              Maps.insert event.error_type (add_u64 (count_of e.errors_by_type event.error_type) 1)
                e.errors_by_type;
          recent_errors = push 100 e.recent_errors event;
          error_rate_trend = update_error_rate elapsed event.timestamp total e.error_rate_trend;
        };
      }
