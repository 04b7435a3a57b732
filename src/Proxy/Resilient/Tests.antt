-- ===== src/Proxy/Resilient/Tests.antt =====
-- src/proxy/resilient.rs: runs of the manager, and its theorems at inputs.
use gsc_fq.Common.{
  ℕ, ◌≡◌, ◌⊎◌, ◌*◌, ◌-◌, ◌==◌, if◌then◌else◌, nat_eq, refl, some, [], ◌∷◌, length, drop, map, Bytes,
  codes, ◌++◌,
}
use gsc_fq.Error.{ProxyError, forwarding_failed}
use gsc_fq.Common.Maps
use gsc_fq.Common.Results.{Result, ok, err}
use gsc_fq.Proxy.Resilient.{
  Manager, ReconnectConfig, new_quality, new_session, Attempt, connected, failed, timed_out,
  connection_failed, retry, connect_with_retry, recover_connection, cache_data, millis, next_delay,
}
use gsc_fq.Proxy.Resilient.History.{measure, measure-window}
use gsc_fq.Proxy.Resilient.Reconnect.{Won, Lost, connect_with_retry-outcome}
use gsc_fq.Proxy.Resilient.Recovery.{
  pending_of, cache_all, recover_connection-cached, recover_connection-loses,
}
use gsc_fq.Proxy.Resilient.Forward.{
  Forwarded, sends, concat, forward_adaptive, forward_adaptive_echoes,
}

-- Three attempts, 100 milliseconds doubled each time.
abbrev config : ReconnectConfig
config = record {
  max_retries = 3;
  initial_delay = millis 100;
  max_delay = millis 150;
  backoff = λ d. d * 2;
}

abbrev manager : Manager
unfolding Maps.insert new_quality
manager = record {
  sessions = Maps.insert 7 (new_session [] [] 0) Maps.empty;
  quality_monitor = new_quality 0;
  reconnect_config = config;
}

abbrev down : ℕ → Attempt ℕ
down k = timed_out

abbrev third : ℕ → Attempt ℕ
third k = if k == 3 then connected 9 else failed

waits : (connect_with_retry manager down).waits ≡ millis 100 ∷ millis 150 ∷ []
unfolding connect_with_retry manager retry next_delay
waits = refl

measure-window_example :
    (measure (new_quality 0) ((4, 1) ∷ (5, 2) ∷ [])).rtt_history
    ≡ drop
        (length {A = ℕ × ℕ} ((4, 1) ∷ (5, 2) ∷ []) - 20)
        (map (λ (m : ℕ × ℕ). m.0) ((4, 1) ∷ (5, 2) ∷ []))
measure-window_example = measure-window ((4, 1) ∷ (5, 2) ∷ []) 0

connect_with_retry-outcome_example :
    Won third 1 3 (connect_with_retry manager third)
    ⊎ Lost third 1 3 (connect_with_retry manager third)
unfolding manager
connect_with_retry-outcome_example = connect_with_retry-outcome manager third

held : pending_of manager 7 ≡ some []
unfolding pending_of manager Maps.get
held = refl

comes_up : (connect_with_retry (cache_all manager 7 ((1 ∷ []) ∷ []) 5) third).outcome ≡ ok 9
unfolding connect_with_retry retry cache_all cache_data manager next_delay
comes_up = refl

recover_connection-cached_example :
    ((recover_connection (cache_all manager 7 ((1 ∷ []) ∷ []) 5) third 7 6).1
      ≡ ok (9, (1 ∷ []) ∷ []))
    × (pending_of (recover_connection (cache_all manager 7 ((1 ∷ []) ∷ []) 5) third 7 6).0 7
        ≡ some [])
recover_connection-cached_example =
    recover_connection-cached manager third 7 5 6 [] ((1 ∷ []) ∷ []) 9 held comes_up

stays_down : (connect_with_retry manager down).outcome ≡ err connection_failed
unfolding connect_with_retry manager retry next_delay
stays_down = refl

recover_connection-loses_example :
    ((recover_connection manager down 7 6).1 ≡ err connection_failed)
    × (pending_of (recover_connection manager down 7 6).0 7 ≡ some [])
recover_connection-loses_example = recover_connection-loses manager down 7 6 [] held stays_down

abbrev echoed : Result Forwarded ProxyError
echoed = forward_adaptive (ok tt) (ok tt) (sends ((1 ∷ 2 ∷ []) ∷ [])) (sends ((3 ∷ []) ∷ []))

forward_adaptive_echoes_example :
    ((◌≡◌ {A = Result (Unit {0}) Bytes} (ok tt) (ok tt))
      × (◌≡◌ {A = Result (Unit {0}) Bytes} (ok tt) (ok tt))
      × (echoed ≡ ok (record { client_write = 1 ∷ 2 ∷ []; remote_write = 3 ∷ []; bytes = (2, 1) })))
    ⊎ ((m : Bytes) × ((◌≡◌ {A = Result (Unit {0}) Bytes} (ok tt) (err m))
          ⊎ (◌≡◌ {A = Result (Unit {0}) Bytes} (ok tt) (err m)))
        × (echoed ≡ err (forwarding_failed (codes "Failed to set nodelay: " ++ m))))
unfolding concat
forward_adaptive_echoes_example =
    forward_adaptive_echoes (ok tt) (ok tt) ((1 ∷ 2 ∷ []) ∷ []) ((3 ∷ []) ∷ [])
