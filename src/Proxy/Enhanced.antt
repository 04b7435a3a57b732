-- ===== src/Proxy/Enhanced.antt =====
-- src/proxy/enhanced_handler.rs: the handler that keeps a session over a connection, and its pool. What
-- the network answers is an argument: the attempts to connect, and the bytes or the error of
-- `forward_adaptive`. `to_string` prints an address and `backoff` is the product by 1.5.
use gsc_fq.Common.{
  ◌≡◌, refl, ℕ, ◌+◌, ◌-◌, ◌%◌, ◌^◌, Bool, true, false, ◌&&◌, Option, none, some, List, [], ◌∷◌,
  ◌++◌, Bytes, length, get_elem?, arith, if◌then◌else◌,
}
use gsc_fq.Common.Net.{IpAddr, SocketAddr}
use gsc_fq.Common.Maps
use gsc_fq.Common.Results.{Result, ok, err, ◌>>=◌, map_err}
use gsc_fq.Error.{AppError, NetworkError, network}
use gsc_fq.Proxy.Handler.{Answers, failing, connected, same_family, mismatch, unwrap_or, usize_max}
use gsc_fq.Proxy.Resilient.{
  Manager, ReconnectConfig, Attempt, Failure, QualityStats, new_quality,
  create_resilient_connection, recover_connection, get_quality_stats, health_checks, millis, secs,
}
mod Tests

pub record EnhancedConnectionHandler : Type 0 where
  pub remote_addr : SocketAddr
  pub source_ip : Option IpAddr
  pub max_connections : Option ℕ
  pub resilient_manager : Manager
  pub resilient_mode : Bool

pub new : (ℕ → ℕ) → SocketAddr → Option IpAddr → Option ℕ → ℕ → EnhancedConnectionHandler
new backoff remote source max_connections now = record {
  remote_addr = remote;
  source_ip = source;
  max_connections = max_connections;
  resilient_manager = record {
    sessions = Maps.empty;
    quality_monitor = new_quality now;
    reconnect_config = record {
      max_retries = 8;
      initial_delay = millis 50;
      max_delay = secs 15;
      backoff = backoff;
    };
  };
  resilient_mode = true;
}

pub with_resilient_mode : EnhancedConnectionHandler → Bool → EnhancedConnectionHandler
with_resilient_mode h enabled = record h { resilient_mode = enabled }

-- What a session meets: its identifier and the clock, the attempts to connect, how the forwarding
-- ends, and the clock and the attempts of a recovery.
pub record Meets (S : Type 0) : Type 0 where
  pub session_id : ℕ
  pub now : ℕ
  pub net : ℕ → Attempt S
  pub forwarding : Result (ℕ × ℕ) Bytes
  pub recovery_now : ℕ
  pub recovery_net : ℕ → Attempt S

module _ {S : Type 0} (to_string : SocketAddr → Bytes) where
  -- The task that forwards: an error starts a recovery, whose stream and data nothing uses.
  unfoldable pub forwarded : Manager → Meets S → Manager
  forwarded m x = elim x.forwarding [
    | ok sent ↦ m
    | err e ↦ (recover_connection m x.recovery_net x.session_id x.recovery_now).0
  ]

  abbrev pub after_connect :
      EnhancedConnectionHandler
      → Meets S
      → Manager × Result S Failure
      → EnhancedConnectionHandler × Result (Unit {0}) Failure
  after_connect h x (m, err e) = (record h { resilient_manager = m }, err e)
  after_connect h x (m, ok stream) = (record h { resilient_manager = forwarded m x }, ok tt)

  unfoldable pub handle_resilient_connection :
      EnhancedConnectionHandler
      → SocketAddr
      → Meets S
      → EnhancedConnectionHandler × Result (Unit {0}) Failure
  unfolding forwarded
  handle_resilient_connection h client x = after_connect h x (
      create_resilient_connection h.resilient_manager x.net x.session_id (to_string client)
        (to_string h.remote_addr) x.now)

  -- `handle_connection`, with the address of the client.
  unfoldable pub handle_connection :
      EnhancedConnectionHandler
      → SocketAddr
      → Meets S
      → EnhancedConnectionHandler × Result (Unit {0}) Failure
  unfolding handle_resilient_connection
  handle_connection h client x = handle_resilient_connection h client x

  after_connect-mode :
      (h : EnhancedConnectionHandler) (source : Option IpAddr) (mode : Bool) (x : Meets S)
      (r : Manager × Result S Failure)
      → (after_connect (record h { source_ip = source; resilient_mode = mode }) x r).1
        ≡ (after_connect h x r).1
  after_connect-mode h source mode x (m, err e) = refl
  after_connect-mode h source mode x (m, ok stream) = refl

  -- The connection is the same whatever the source address and the mode of the handler are: it is
  -- always a session, opened from the default address.
  handle_connection-mode :
      (h : EnhancedConnectionHandler) (source : Option IpAddr) (mode : Bool) (client : SocketAddr)
      (x : Meets S)
      → (handle_connection (record h { source_ip = source; resilient_mode = mode }) client x).1
        ≡ (handle_connection h client x).1
  unfolding handle_connection
  handle_connection-mode h source mode client x = after_connect-mode h source mode x (
      create_resilient_connection h.resilient_manager x.net x.session_id (to_string client)
        (to_string h.remote_addr) x.now)

-- The method of the same name of the plain handler, whose code it repeats.
unfoldable pub connect_with_source_ip :
    EnhancedConnectionHandler → IpAddr → Answers → Result (Unit {0}) AppError
connect_with_source_ip h source a = elim (same_family source h.remote_addr.ip) [
  | false ↦ err (network (NetworkError.connection_failed mismatch))
  | true ↦ failing a.new_socket >>= λ _. failing a.bind >>= λ _. connected a.connect
]

abbrev dial_from : EnhancedConnectionHandler → Option IpAddr → Answers → Result (Unit {0}) AppError
unfolding connect_with_source_ip
dial_from h none a = connected a.connect
dial_from h (some source) a = connect_with_source_ip h source a

-- `handle_standard_connection`, which nothing calls.
unfoldable pub handle_standard_connection :
    EnhancedConnectionHandler → Answers → Result (ℕ × ℕ) AppError → Result (ℕ × ℕ) AppError
unfolding connect_with_source_ip
handle_standard_connection h a forwarding = dial_from h h.source_ip a >>= λ _. forwarding

pub record EnhancedConnectionStats : Type 0 where
  pub remote_addr : SocketAddr
  pub source_ip : Option IpAddr
  pub max_connections : ℕ
  pub active_connections : ℕ
  pub available_slots : ℕ
  pub resilient_mode : Bool
  pub quality_stats : QualityStats

unfoldable pub get_connection_stats : EnhancedConnectionHandler → ℕ → EnhancedConnectionStats
get_connection_stats h now = record {
  remote_addr = h.remote_addr;
  source_ip = h.source_ip;
  max_connections = unwrap_or h.max_connections usize_max;
  active_connections = 0;
  available_slots = unwrap_or h.max_connections usize_max;
  resilient_mode = h.resilient_mode;
  quality_stats = get_quality_stats h.resilient_manager now;
}

pub record EnhancedConnectionPool : Type 0 where
  pub handlers : List EnhancedConnectionHandler

pub empty_pool : EnhancedConnectionPool
empty_pool = record { handlers = [] }

pub get_handler : EnhancedConnectionPool → ℕ → Option EnhancedConnectionHandler
get_handler pool i = get_elem? pool.handlers i

pub add_handler : EnhancedConnectionPool → EnhancedConnectionHandler → EnhancedConnectionPool
add_handler pool h = record { handlers = pool.handlers ++ (h ∷ []) }

-- A handler after the ticks of its health monitor, at these clock readings, if it has started one.
unfoldable pub health_monitored : List ℕ → EnhancedConnectionHandler → EnhancedConnectionHandler
health_monitored ticks h =
    if h.resilient_mode
    then record h { resilient_manager = health_checks ticks h.resilient_manager }
    else h

-- The pool after those of all its handlers, each with its own ticks.
unfoldable pub start_all_health_monitors :
    (ℕ → List ℕ) → ℕ → List EnhancedConnectionHandler → List EnhancedConnectionHandler
unfolding health_monitored
start_all_health_monitors ticks i [] = []
start_all_health_monitors ticks i (h ∷ hs) =
    health_monitored (ticks i) h ∷ start_all_health_monitors ticks (i + 1) hs

pub record EnhancedPoolStats : Type 0 where
  pub total_handlers : ℕ
  pub total_max_connections : ℕ
  pub total_active_connections : ℕ
  pub total_available_slots : ℕ
  pub all_healthy : Bool
  pub total_sessions : ℕ

abbrev pub add_usize : ℕ → ℕ → ℕ
add_usize a b = (a + b) % 2 ^ 64

-- The sums of the loop wrap around, in a build that does not check for overflow.
unfoldable pub add_stats :
    ℕ → EnhancedPoolStats → List EnhancedConnectionHandler → EnhancedPoolStats
unfolding get_connection_stats
add_stats now acc [] = acc
add_stats now acc (h ∷ hs) =
    let stats = get_connection_stats h now in
    add_stats now
      (record acc {
        total_max_connections = add_usize acc.total_max_connections stats.max_connections;
        total_active_connections = add_usize acc.total_active_connections stats.active_connections;
        total_available_slots = add_usize acc.total_available_slots stats.available_slots;
        all_healthy = acc.all_healthy && stats.quality_stats.healthy;
        total_sessions = add_usize acc.total_sessions stats.quality_stats.active_sessions;
      })
      hs

unfoldable pub get_pool_stats : EnhancedConnectionPool → ℕ → EnhancedPoolStats
unfolding add_stats
get_pool_stats pool now =
    add_stats now
      (record {
        total_handlers = length pool.handlers;
        total_max_connections = 0;
        total_active_connections = 0;
        total_available_slots = 0;
        all_healthy = true;
        total_sessions = 0;
      })
      pool.handlers
