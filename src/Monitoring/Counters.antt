-- ===== src/Monitoring/Counters.antt =====
-- src/monitoring/mod.rs: the counters, the errors by type and the list of recent errors are exact.
use gsc_fq.Common.{
  ℕ, suc, ◌+◌, ◌^◌, ◌≤◌, ◌<◌, ◌≡◌, refl, ap, ◌∙◌, Bool, List, [], ◌∷◌, ◌++◌, arith, some,
  if◌then◌else◌, Bytes, bytes_eq, bytes_eq_iff, bytes_key, length, length-append, count_if,
  count_if-append, count_if-le-length, Bool-cases, inl, inr,
}
use gsc_fq.Common.Maps
use gsc_fq.Common.Maps.{Map, get, lookup, get-insert}
use gsc_fq.Common.Windows.{push, last_of, length-push, push-last_of}
use gsc_fq.Monitoring.{
  Float, ConnectionMetrics, ErrorMetrics, ErrorEvent, MonitoringSystem, add_u64, count_of, or_zero,
  new, update_connection_rate, update_error_rate, record_connection_established,
  record_connection_closed, record_connection_failed, record_data_transfer, record_error,
}
use gsc_fq.Monitoring.Health.{update_performance_metrics}
use gsc_fq.Monitoring.Global.{
  Call, established, closed, connection_failed, transferred, errored, updated, step, after,
  is_established, is_closed, is_failed, errors_of,
}

add_u64-exact : (a b : ℕ) → a + b < 2 ^ 64 → add_u64 a b ≡ a + b
add_u64-exact a b h = omega arith

-- The errors of one type.
abbrev pub of_type : Bytes → List ErrorEvent → ℕ
of_type t es = count_if (λ (e : ErrorEvent). bytes_eq e.error_type t) es

count_of-insert :
    (m : Map Bytes ℕ) (k : Bytes) (v : ℕ) (t : Bytes)
    → count_of (Maps.insert k v m) t ≡ (if bytes_eq k t then v else count_of m t)
unfolding count_of
count_of-insert m k v t = elim (Bool-cases (bytes_eq k t)) [
  | inl same ↦
      rw same (
        ap or_zero
          (get-insert k t v m ∙ ap (λ (b : Bool). if b then some v else Maps.get t m) same))
  | inr other ↦ rw other (
      ap or_zero (get-insert k t v m ∙ ap (λ (b : Bool). if b then some v else Maps.get t m) other))
]

module _ {F : Type 0} where
  -- The connections that some calls have established and closed.
  pub record Connections (cs : List (Call F)) (c : ConnectionMetrics F) : Type 0 where
    pub total : c.total_connections ≡ count_if is_established cs
    pub failed : c.failed_connections ≡ count_if is_failed cs
    pub active_le : c.active_connections ≤ c.total_connections
    pub open_le : c.total_connections ≤ c.active_connections + count_if is_closed cs

  -- The errors that were recorded, by number, by type and the last hundred of them.
  pub record Errors (es : List ErrorEvent) (e : ErrorMetrics F) : Type 0 where
    pub total : e.total_errors ≡ length es
    pub by_type : (t : Bytes) → count_of e.errors_by_type t ≡ of_type t es
    pub recent : e.recent_errors ≡ last_of 100 es
    pub trend : length e.error_rate_trend ≤ 100

  -- What some calls leave in the system.
  pub record Exact (cs : List (Call F)) (m : MonitoringSystem F) : Type 0 where
    pub connections : Connections cs m.connections
    pub errors : Errors (errors_of cs) m.errors

  errors_of-le : (cs : List (Call F)) → length (errors_of cs) ≤ length cs
  errors_of-le [] = omega arith
  errors_of-le (established e ∷ cs) = omega (arith, errors_of-le cs)
  errors_of-le (closed d ∷ cs) = omega (arith, errors_of-le cs)
  errors_of-le (connection_failed e ∷ cs) = omega (arith, errors_of-le cs)
  errors_of-le (transferred b p e ∷ cs) = omega (arith, errors_of-le cs)
  errors_of-le (errored event e ∷ cs) =
      omega (arith, errors_of-le cs, length-append (errors_of cs) (event ∷ []))
  errors_of-le (updated c e u n ∷ cs) = omega (arith, errors_of-le cs)

module _ {F : Type 0} (f : Float F) where
  trend-le :
      (elapsed : F) (now total : ℕ) (trend : List (ℕ × F))
      → length trend ≤ 100
      → length (update_error_rate f elapsed now total trend) ≤ 100
  unfolding update_error_rate
  trend-le elapsed now total trend h = elim (Bool-cases (f.gt elapsed (f.of_nat 0))) [
    | inl later ↦ rw later (length-push 100 trend (now, f.div (f.of_nat total) elapsed) h)
    | inr at_start ↦ rw at_start h
  ]

  counted :
      (es : List ErrorEvent) (m : Map Bytes ℕ) (event : ErrorEvent) (t : Bytes)
      → suc (length es) < 2 ^ 64
      → ((k : Bytes) → count_of m k ≡ of_type k es)
      → count_of (Maps.insert event.error_type (add_u64 (count_of m event.error_type) 1) m) t
        ≡ of_type t (es ++ (event ∷ []))
  counted es m event t small h =
      let k = event.error_type in
      let split = count_if-append (λ (e : ErrorEvent). bytes_eq e.error_type t) es (event ∷ []) in
      let le = count_if-le-length (λ (e : ErrorEvent). bytes_eq e.error_type k) es in
      let exact = add_u64-exact (count_of m k) 1 (omega (arith, h k)) in
      let here = h k in
      elim (Bool-cases (bytes_eq k t)) [
        | inl same ↦
            let one : count_if (λ (e : ErrorEvent). bytes_eq e.error_type t) (event ∷ []) ≡ 1 =
              rw same refl in
            let alike : of_type k es ≡ of_type t es =
              ap (λ u. of_type u es) ((bytes_eq_iff k t).0 same) in
            count_of-insert m k (add_u64 (count_of m k) 1) t ∙ rw same (omega arith)
        | inr other ↦
            let zero : count_if (λ (e : ErrorEvent). bytes_eq e.error_type t) (event ∷ []) ≡ 0 =
              rw other refl in
            let there = h t in
            count_of-insert m k (add_u64 (count_of m k) 1) t ∙ rw other (omega arith)
      ]

  record_error-Errors :
      (es : List ErrorEvent) (m : MonitoringSystem F) (event : ErrorEvent) (elapsed : F)
      → suc (length es) < 2 ^ 64
      → Errors es m.errors
      → Errors (es ++ (event ∷ [])) (record_error f event elapsed m).errors
  unfolding record_error count_of
  record_error-Errors es m event elapsed small e = record {
    total = omega (
      arith,
      add_u64-exact m.errors.total_errors 1 (omega (arith, e.total)),
      e.total,
      length-append es (event ∷ []),
    );
    by_type = λ t. counted es m.errors.errors_by_type event t small e.by_type;
    recent = ap (λ r. push 100 r event) e.recent ∙ push-last_of 100 es event;
    trend =
        trend-le elapsed event.timestamp (add_u64 m.errors.total_errors 1) m.errors.error_rate_trend
          e.trend;
  }

  step-Exact :
      (c : Call F) (cs : List (Call F)) (m : MonitoringSystem F)
      → suc (length cs) < 2 ^ 64
      → Exact cs m
      → Exact (c ∷ cs) (step f c m)
  unfolding step record_connection_established record_connection_closed record_connection_failed
      record_data_transfer record_error update_performance_metrics update_connection_rate
  step-Exact (established elapsed) cs m small x =
      let n = x.connections in
      let le = count_if-le-length is_established cs in
      let more = add_u64-exact m.connections.total_connections 1 (omega (arith, n.total)) in
      let active =
        add_u64-exact m.connections.active_connections 1 (omega (arith, n.total, n.active_le)) in
      record {
        connections = record {
          total = omega (arith, n.total);
          failed = omega (arith, n.failed);
          active_le = omega (arith, n.active_le);
          open_le = omega (arith, n.open_le);
        };
        errors = x.errors;
      }
  step-Exact (closed duration) cs m small x =
      let n = x.connections in
      record {
        connections = record {
          total = omega (arith, n.total);
          failed = omega (arith, n.failed);
          active_le = omega (arith, n.active_le);
          open_le = omega (arith, n.open_le);
        };
        errors = x.errors;
      }
  step-Exact (connection_failed elapsed) cs m small x =
      let n = x.connections in
      let le = count_if-le-length is_failed cs in
      let more = add_u64-exact m.connections.failed_connections 1 (omega (arith, n.failed)) in
      record {
        connections = record {
          total = omega (arith, n.total);
          failed = omega (arith, n.failed);
          active_le = n.active_le;
          open_le = omega (arith, n.open_le);
        };
        errors = x.errors;
      }
  step-Exact (transferred bytes packets elapsed) cs m small x = record {
    connections = record {
      total = omega (arith, x.connections.total);
      failed = omega (arith, x.connections.failed);
      active_le = x.connections.active_le;
      open_le = omega (arith, x.connections.open_le);
    };
    errors = x.errors;
  }
  step-Exact (errored event elapsed) cs m small x = record {
    connections = record {
      total = omega (arith, x.connections.total);
      failed = omega (arith, x.connections.failed);
      active_le = x.connections.active_le;
      open_le = omega (arith, x.connections.open_le);
    };
    errors =
        record_error-Errors (errors_of cs) m event elapsed (omega (arith, errors_of-le cs))
          x.errors;
  }
  step-Exact (updated cpu elapsed uptime now) cs m small x = record {
    connections = record {
      total = omega (arith, x.connections.total);
      failed = omega (arith, x.connections.failed);
      active_le = x.connections.active_le;
      open_le = omega (arith, x.connections.open_le);
    };
    errors = x.errors;
  }

  -- After fewer than 2^64 calls the counts of established and of failed connections and of errors,
  -- in all and by type, are those of the calls. The list of recent errors holds the last hundred of
  -- them in order, the trend at most a hundred points, and the active connections are at most all
  -- and at least all but the closed ones.
  pub after-Exact :
      (start : ℕ) (cs : List (Call F)) → length cs < 2 ^ 64 → Exact cs (after f start cs)
  unfolding after new count_of get lookup
  after-Exact start [] small = record {
    connections = record {
      total = refl;
      failed = refl;
      active_le = omega arith;
      open_le = omega arith;
    };
    errors = record { total = refl; by_type = λ t. refl; recent = refl; trend = omega arith };
  }
  after-Exact start (c ∷ cs) small =
      step-Exact c cs (after f start cs) small (after-Exact start cs (omega arith))
