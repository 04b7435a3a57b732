-- ===== src/Monitoring/Health.antt =====
-- src/monitoring/mod.rs: the performance metrics, the health status and the two reports.
use gsc_fq.Common.{ℕ, ◌*◌, ◌/◌, ◌||◌, ◌++◌, ltb, if◌then◌else◌, Bytes, codes, length}
use gsc_fq.Monitoring.{Float, MonitoringSystem, HealthStatus, healthy, degraded, unhealthy, zero_f}

-- The placeholder of the memory usage, 512 MB.
abbrev memory_usage : ℕ
memory_usage = 536870912

module _ {F : Type 0} (f : Float F) where
  pub calculate_request_rate : F → MonitoringSystem F → F
  calculate_request_rate elapsed m =
      if f.gt elapsed (zero_f f)
      then f.div (f.of_nat m.connections.total_packets_transferred) elapsed
      else zero_f f

  pub calculate_error_rate : MonitoringSystem F → F
  calculate_error_rate m =
      let total = m.connections.total_connections in
      if ltb 0 total
      then f.mul (f.div (f.of_nat m.errors.total_errors) (f.of_nat total)) (f.of_nat 100)
      else zero_f f

  -- The thresholds of `update_health_status`.
  unfoldable pub health_status : F → F → HealthStatus
  health_status cpu error_rate =
      if f.gt cpu (f.of_nat 90) || f.gt error_rate (f.of_nat 10)
      then unhealthy
      else if f.gt cpu (f.of_nat 70) || f.gt error_rate (f.of_nat 5)
      then degraded
      else healthy

  -- With the load that was drawn, the time since the start and the clock.
  unfoldable pub update_performance_metrics :
      F → F → ℕ → ℕ → MonitoringSystem F → MonitoringSystem F
  unfolding calculate_request_rate calculate_error_rate health_status
  update_performance_metrics cpu elapsed uptime now m =
      let error_rate = calculate_error_rate m in
      record m {
        performance = record m.performance {
          cpu_utilization_percent = cpu;
          memory_usage_bytes = memory_usage;
          request_rate = calculate_request_rate elapsed m;
          error_rate_percent = error_rate;
        };
        health = record {
          status = health_status cpu error_rate;
          uptime_seconds = uptime;
          last_check = now;
        };
        last_update = now;
      }

-- The summary as JSON, by its fields.
pub record StatusSummary (F : Type 0) : Type 0 where
  pub status : HealthStatus
  pub uptime_seconds : ℕ
  pub total : ℕ
  pub active : ℕ
  pub failed : ℕ
  pub rate : F
  pub cpu_percent : F
  pub memory_mb : ℕ
  pub throughput_mbps : F
  pub request_rate : F
  pub avg_response_time_ms : ℕ
  pub error_rate_percent : F
  pub total_errors : ℕ
  pub recent_count : ℕ

pub get_status_summary : {F : Type 0} → ℕ → MonitoringSystem F → StatusSummary F
get_status_summary uptime m = record {
  status = m.health.status;
  uptime_seconds = uptime;
  total = m.connections.total_connections;
  active = m.connections.active_connections;
  failed = m.connections.failed_connections;
  rate = m.connections.connection_rate;
  cpu_percent = m.performance.cpu_utilization_percent;
  memory_mb = m.performance.memory_usage_bytes / (1024 * 1024);
  throughput_mbps = m.performance.network_throughput_mbps;
  request_rate = m.performance.request_rate;
  avg_response_time_ms = m.performance.avg_response_time_ms;
  error_rate_percent = m.performance.error_rate_percent;
  total_errors = m.errors.total_errors;
  recent_count = length m.errors.recent_errors;
}

-- One metric in the format of Prometheus: its name, its help, its kind and its value.
abbrev metric : Bytes → Bytes → Bytes → Bytes → Bytes
metric name help kind value =
    codes "# HELP "
    ++ (name
        ++ (codes " "
            ++ (help
                ++ (codes "\n# TYPE "
                    ++ (name
                        ++ (codes " "
                            ++ (kind
                                ++ (codes "\n"
                                    ++ (name ++ (codes " " ++ (value ++ codes "\n")))))))))))

-- `show` and `show_f` print a number.
module _ {F : Type 0} (show : ℕ → Bytes) (show_f : F → Bytes) where
  pub export_prometheus_metrics : MonitoringSystem F → Bytes
  export_prometheus_metrics m =
      metric (codes "gsc_fq_connections_total") (codes "Total number of connections")
        (codes "counter") (show m.connections.total_connections)
      ++ (metric (codes "gsc_fq_connections_active") (codes "Current active connections")
            (codes "gauge") (show m.connections.active_connections)
          ++ (metric (codes "gsc_fq_bytes_transferred_total") (codes "Total bytes transferred")
                (codes "counter") (show m.connections.total_bytes_transferred)
              ++ (metric (codes "gsc_fq_cpu_utilization_percent")
                    (codes "CPU utilization percentage") (codes "gauge")
                    (show_f m.performance.cpu_utilization_percent)
                  ++ (metric (codes "gsc_fq_memory_usage_bytes") (codes "Memory usage in bytes")
                        (codes "gauge") (show m.performance.memory_usage_bytes)
                      ++ (metric (codes "gsc_fq_network_throughput_mbps")
                            (codes "Network throughput in MB/s") (codes "gauge")
                            (show_f m.performance.network_throughput_mbps)
                          ++ metric (codes "gsc_fq_errors_total") (codes "Total number of errors")
                              (codes "counter") (show m.errors.total_errors))))))
