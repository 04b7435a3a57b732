-- ===== src/Monitoring/Global.antt =====
-- src/monitoring/mod.rs: the calls that reach the monitoring system through its lock, one at a time.
use gsc_fq.Common.{ℕ, Bool, true, false, List, [], ◌∷◌, ◌++◌}
use gsc_fq.Monitoring.{
  Float, MonitoringSystem, ErrorEvent, new, record_connection_established, record_connection_closed,
  record_connection_failed, record_data_transfer, record_error,
}
use gsc_fq.Monitoring.Health.{update_performance_metrics}

-- A call, with the time since the start that it reads.
pub data Call (F : Type 0) : Type 0 where
  established : F → Call F
  closed : ℕ → Call F
  connection_failed : F → Call F
  transferred : ℕ → ℕ → F → Call F
  errored : ErrorEvent → F → Call F
  updated : F → F → ℕ → ℕ → Call F

module _ {F : Type 0} (f : Float F) where
  unfoldable pub step : Call F → MonitoringSystem F → MonitoringSystem F
  unfolding record_connection_established record_connection_closed record_connection_failed
      record_data_transfer record_error update_performance_metrics
  step (established elapsed) m = record_connection_established f elapsed m
  step (closed duration) m = record_connection_closed f duration m
  step (connection_failed elapsed) m = record_connection_failed f elapsed m
  step (transferred bytes packets elapsed) m = record_data_transfer f bytes packets elapsed m
  step (errored event elapsed) m = record_error f event elapsed m
  step (updated cpu elapsed uptime now) m = update_performance_metrics f cpu elapsed uptime now m

  -- The system after some calls, the last of them first.
  unfoldable pub after : ℕ → List (Call F) → MonitoringSystem F
  unfolding step new
  after start [] = new f start
  after start (c ∷ before) = step c (after start before)

module _ {F : Type 0} where
  abbrev pub is_established : Call F → Bool
  is_established (established elapsed) = true
  is_established c = false

  abbrev pub is_closed : Call F → Bool
  is_closed (closed duration) = true
  is_closed c = false

  abbrev pub is_failed : Call F → Bool
  is_failed (connection_failed elapsed) = true
  is_failed c = false

  -- The errors of some calls, the first of them first.
  abbrev pub errors_of : List (Call F) → List ErrorEvent
  errors_of [] = []
  errors_of (errored event elapsed ∷ before) = errors_of before ++ (event ∷ [])
  errors_of (c ∷ before) = errors_of before
