-- ===== src/Proxy/Resilient.antt =====
-- src/proxy/resilient.rs: the quality monitor, reconnecting and the sessions that outlive a
-- connection. Durations and clock readings are nanoseconds; `packet_loss` and `bandwidth`, which
-- nothing writes after `new`, are left out, and `backoff` is the product by `backoff_factor`.
use gsc_fq.Common.{
  ℕ, zero, suc, ◌+◌, ◌-◌, ◌*◌, ◌/◌, ◌%◌, ◌^◌, min, max, Bool, true, false, ◌&&◌, Option, none, some,
  List, [], ◌∷◌, ◌++◌, arith, ltb, leb, if◌then◌else◌, Bytes, length, drop, nat_eq,
}
use gsc_fq.Common.Maps
use gsc_fq.Common.Maps.{Map}
use gsc_fq.Common.Results.{Result, ok, err}
pub mod Cleanup
pub mod History
pub mod Reconnect
pub mod Recovery
pub mod Forward
pub mod Tests

abbrev pub millis : ℕ → ℕ
millis n = n * 1000000

abbrev pub secs : ℕ → ℕ
secs n = n * 1000000000

pub record ConnectionQuality : Type 0 where
  pub rtt_history : List ℕ
  pub last_active : ℕ
  pub error_count : ℕ

pub new_quality : ℕ → ConnectionQuality
new_quality now = record { rtt_history = []; last_active = now; error_count = 0 }

-- `push`, then `remove(0)` when more than 20 are held.
pub push_rtt : List ℕ → ℕ → List ℕ
push_rtt history rtt =
    let pushed = history ++ (rtt ∷ []) in if ltb 20 (length pushed) then drop 1 pushed else pushed

pub record_rtt : ConnectionQuality → ℕ → ℕ → ConnectionQuality
unfolding push_rtt
record_rtt q rtt now = record q { rtt_history = push_rtt q.rtt_history rtt; last_active = now }

pub total : List ℕ → ℕ
total [] = 0
total (d ∷ ds) = d + total ds

pub get_average_rtt : List ℕ → Option ℕ
unfolding total
get_average_rtt [] = none
get_average_rtt (d ∷ ds) = some (total (d ∷ ds) / length (d ∷ ds))

abbrev pub record_error : ConnectionQuality → ConnectionQuality
record_error q = record q { error_count = (q.error_count + 1) % 2 ^ 32 }

abbrev pub reset_errors : ConnectionQuality → ConnectionQuality
reset_errors q = record q { error_count = 0 }

pub is_healthy : ConnectionQuality → ℕ → Bool
is_healthy q now = ltb q.error_count 5 && ltb (now - q.last_active) (secs 30)

pub record SessionInfo : Type 0 where
  pub client_addr : Bytes
  pub target_addr : Bytes
  pub created_at : ℕ
  pub last_updated : ℕ
  pub pending_data : List Bytes

abbrev pub new_session : Bytes → Bytes → ℕ → SessionInfo
new_session client target now = record {
  client_addr = client;
  target_addr = target;
  created_at = now;
  last_updated = now;
  pending_data = [];
}

abbrev pub add_pending_data : SessionInfo → Bytes → ℕ → SessionInfo
add_pending_data s bytes now = record s {
  pending_data = s.pending_data ++ (bytes ∷ []);
  last_updated = now;
}

abbrev pub take_pending_data : SessionInfo → ℕ → SessionInfo × List Bytes
take_pending_data s now = (record s { pending_data = []; last_updated = now }, s.pending_data)

pub is_expired : SessionInfo → ℕ → ℕ → Bool
is_expired s timeout now = ltb timeout (now - s.last_updated)

pub record ReconnectConfig : Type 0 where
  pub max_retries : ℕ
  pub initial_delay : ℕ
  pub max_delay : ℕ
  pub backoff : ℕ → ℕ

pub record Manager : Type 0 where
  pub sessions : Map ℕ SessionInfo
  pub quality_monitor : ConnectionQuality
  pub reconnect_config : ReconnectConfig

-- What the `timeout` around a connect returns.
pub data Attempt {ℓ} (S : Type ℓ) : Type ℓ where
  connected : S → Attempt S
  failed : Attempt S
  timed_out : Attempt S

pub data Failure : Type 0 where
  connection_failed : Failure
  session_not_found : Failure

-- What the retry loop leaves: the monitor, the waits it made, and the stream if it got one.
pub record Retried {ℓ} (S : Type ℓ) : Type ℓ where
  pub quality : ConnectionQuality
  pub waits : List ℕ
  pub outcome : Result S Failure

pub next_delay : ReconnectConfig → ℕ → ℕ
next_delay config delay = min (millis (config.backoff (delay / 1000000))) config.max_delay

module _ {ℓ} {S : Type ℓ} where
  -- The attempts from `attempt` on, `left` of them.
  pub retry : ReconnectConfig → (ℕ → Attempt S) → ℕ → ℕ → ℕ → ConnectionQuality → Retried S
  unfolding next_delay
  retry config net zero attempt delay q = record {
    quality = q;
    waits = [];
    outcome = err connection_failed;
  }
  retry config net (suc left) attempt delay q =
      let again = ltb attempt config.max_retries in
      let delay' = if again then next_delay config delay else delay in
      let rest = retry config net left (suc attempt) delay' (record_error q) in
      let missed = record rest { waits = if again then delay ∷ rest.waits else rest.waits } in
      elim (net attempt) [
        | connected s ↦ record { quality = reset_errors q; waits = []; outcome = ok s }
        | failed ↦ missed
        | timed_out ↦ missed
      ]

  pub connect_with_retry : Manager → (ℕ → Attempt S) → Retried S
  unfolding retry
  connect_with_retry m net =
      let config = m.reconnect_config in
      retry config net config.max_retries 1 config.initial_delay m.quality_monitor

  pub create_resilient_connection :
      Manager → (ℕ → Attempt S) → ℕ → Bytes → Bytes → ℕ → Manager × Result S Failure
  unfolding Maps.insert connect_with_retry
  create_resilient_connection m net id client target now =
      let m = record m { sessions = Maps.insert id (new_session client target now) m.sessions } in
      let tried = connect_with_retry m net in
      (record m { quality_monitor = tried.quality }, tried.outcome)

  -- The pending data leave the session before the reconnect.
  pub recover_found :
      Manager → (ℕ → Attempt S) → ℕ → SessionInfo → ℕ → Manager × Result (S × List Bytes) Failure
  unfolding Maps.insert connect_with_retry
  recover_found m net id session now =
      let (session', pending) = take_pending_data session now in
      let tried = connect_with_retry m net in
      (
        record m { sessions = Maps.insert id session' m.sessions; quality_monitor = tried.quality },
        elim tried.outcome [ ok stream ↦ ok (stream, pending) | err e ↦ err e ],
      )

  pub recover_connection :
      Manager → (ℕ → Attempt S) → ℕ → ℕ → Manager × Result (S × List Bytes) Failure
  unfolding Maps.get recover_found
  recover_connection m net id now = elim (Maps.get id m.sessions) [
    | some session ↦ recover_found m net id session now
    | none ↦ (m, err session_not_found)
  ]

pub cache_data : Manager → ℕ → Bytes → ℕ → Manager × Result (Unit {0}) Failure
unfolding Maps.get Maps.insert
cache_data m id bytes now = elim (Maps.get id m.sessions) [
  | some session ↦ (
    record m { sessions = Maps.insert id (add_pending_data session bytes now) m.sessions },
    ok tt,
  )
  | none ↦ (m, err session_not_found)
]

pub cleanup_expired_sessions : Manager → ℕ → Manager
unfolding Maps.retain
cleanup_expired_sessions m now = record m {
  sessions = Maps.retain (λ id session. leb (now - session.created_at) (secs 300)) m.sessions;
}

-- The ticks of `start_health_check`, at these clock readings; its report is output.
pub health_checks : List ℕ → Manager → Manager
unfolding cleanup_expired_sessions
health_checks [] m = m
health_checks (now ∷ later) m = health_checks later (cleanup_expired_sessions m now)

pub record QualityStats : Type 0 where
  pub average_rtt : Option ℕ
  pub errors : ℕ
  pub active_sessions : ℕ
  pub healthy : Bool

pub get_quality_stats : Manager → ℕ → QualityStats
unfolding is_healthy get_average_rtt
get_quality_stats m now = record {
  average_rtt = get_average_rtt m.quality_monitor.rtt_history;
  errors = m.quality_monitor.error_count;
  active_sessions = Maps.size m.sessions;
  healthy = is_healthy m.quality_monitor now;
}

-- `adjust_buffer_size`: halves or doubles, within the bounds.
pub adjust_buffer_size : ℕ → Option ℕ → ℕ → ℕ → ℕ
adjust_buffer_size size none min_size max_size = size
adjust_buffer_size size (some rtt) min_size max_size =
    if ltb rtt (millis 50)
    then min (size * 2) max_size
    else if ltb (millis 200) rtt
    then max (size / 2) min_size
    else size
