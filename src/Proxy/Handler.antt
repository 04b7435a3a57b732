-- ===== src/Proxy/Handler.antt =====
-- src/proxy/handler.rs and src/proxy/high_perf.rs: the plain connection handler, its pool and the
-- copies between two peers. What the network answers is an argument; a usize has 64 bits.
use gsc_fq.Common.{
  ℕ, zero, suc, ◌+◌, ◌-◌, ◌^◌, min, Bool, true, false, Option, none, some, List, [], ◌∷◌, ◌++◌, map,
  arith, Bytes, codes, length, get_elem?,
}
use gsc_fq.Common.Net.{IpAddr, v4, v6, SocketAddr}
use gsc_fq.Common.Results.{Result, ok, err, ◌>>=◌, map_err}
use gsc_fq.Error.{
  NetworkError, connection_failed, connection_timeout, ProxyError, forwarding_failed, AppError,
  network, proxy,
}
use gsc_fq.Proxy.Copy.{Event, Read, got, eof, blocked, broken, read}
pub mod Outcome
pub mod Buffered
mod Tests

abbrev pub usize_max : ℕ
usize_max = 2 ^ 64 - 1

pub record ConnectionHandler : Type 0 where
  pub remote_addr : SocketAddr
  pub source_ip : Option IpAddr
  pub max_connections : Option ℕ

-- A call under a timeout of ten seconds.
pub data Timed : Type 0 where
  timed_out : Timed
  answered : Result (Unit {0}) Bytes → Timed

-- What the network answers to the calls of one connection.
pub record Answers : Type 0 where
  pub peer_addr : Result SocketAddr Bytes
  pub new_socket : Result (Unit {0}) Bytes
  pub bind : Result (Unit {0}) Bytes
  pub connect : Timed
  pub client_nodelay : Result (Unit {0}) Bytes
  pub remote_nodelay : Result (Unit {0}) Bytes

abbrev pub failing : {A : Type 0} → Result A Bytes → Result A AppError
failing r = map_err (λ m. network (NetworkError.connection_failed m)) r

abbrev pub connected : Timed → Result (Unit {0}) AppError
connected timed_out = err (network connection_timeout)
connected (answered r) = failing r

abbrev pub same_family : IpAddr → IpAddr → Bool
same_family (v4 a) (v4 b) = true
same_family (v6 a) (v6 b) = true
same_family (v4 a) (v6 b) = false
same_family (v6 a) (v4 b) = false

abbrev pub mismatch : Bytes
mismatch = codes "Source IP family does not match remote address family"

unfoldable pub connect_with_source_ip :
    ConnectionHandler → IpAddr → Answers → Result (Unit {0}) AppError
connect_with_source_ip h source a = elim (same_family source h.remote_addr.ip) [
  | false ↦ err (network (NetworkError.connection_failed mismatch))
  | true ↦ failing a.new_socket >>= λ _. failing a.bind >>= λ _. connected a.connect
]

abbrev pub dial : ConnectionHandler → Option IpAddr → Answers → Result (Unit {0}) AppError
unfolding connect_with_source_ip
dial h none a = connected a.connect
dial h (some source) a = connect_with_source_ip h source a

-- The result of one direction, of which an error counts as no bytes.
abbrev pub copied : Result ℕ Bytes → ℕ
copied (ok n) = n
copied (err e) = 0

-- `high_perf::adaptive_copy`, which is `optimized_bidirectional`, with what tokio's copy returns in
-- each direction.
unfoldable pub optimized_bidirectional : Result ℕ Bytes → Result ℕ Bytes → ℕ × ℕ
optimized_bidirectional up down = (copied up, copied down)

unfoldable pub adaptive_copy : Result ℕ Bytes → Result ℕ Bytes → ℕ × ℕ
unfolding optimized_bidirectional
adaptive_copy up down = optimized_bidirectional up down

abbrev pub nodelay : Result (Unit {0}) Bytes → Result (Unit {0}) AppError
nodelay r = map_err (λ m. proxy (ProxyError.forwarding_failed m)) r

-- `forward_data`: the bytes of both directions.
unfoldable pub forward_data : Answers → Result ℕ Bytes → Result ℕ Bytes → Result (ℕ × ℕ) AppError
unfolding adaptive_copy
forward_data a up down =
    nodelay a.client_nodelay >>= λ _. nodelay a.remote_nodelay >>= λ _. ok (adaptive_copy up down)

unfoldable pub handle_connection :
    ConnectionHandler → Answers → Result ℕ Bytes → Result ℕ Bytes → Result (ℕ × ℕ) AppError
unfolding connect_with_source_ip forward_data
handle_connection h a up down =
    failing a.peer_addr >>= λ _. dial h h.source_ip a >>= λ _. forward_data a up down

module _ {W E : Type 0} (write_all : W → Bytes → Result W E) where
  -- One direction of `buffered_bidirectional`: the bytes that were written, and the writer. Fuel
  -- bounds the reads.
  unfoldable pub buffered : ℕ → List Event → W → ℕ → Option (ℕ × W)
  unfolding read
  buffered zero s w total = none
  buffered (suc fuel) s w total =
      let (result, s') = read 65536 s in
      elim result [
        | eof ↦ some (total, w)
        | got b ↦ elim (write_all w b) [
          | err e ↦ some (total, w)
          | ok w' ↦ buffered fuel s' w' (total + length b)
        ]
        | blocked ↦ some (total, w)
        | broken ↦ some (total, w)
      ]

  -- Both directions, which end on their own: what comes from each peer, and the writer to it.
  unfoldable pub buffered_bidirectional :
      ℕ → List Event × W → List Event × W → Option ((ℕ × W) × (ℕ × W))
  unfolding buffered
  buffered_bidirectional fuel (from_client, to_client) (from_server, to_server) =
      elim (buffered fuel from_client to_server 0) [
        | none ↦ none
        | some up ↦ elim (buffered fuel from_server to_client 0) [
          | none ↦ none
          | some down ↦ some (up, down)
        ]
      ]

abbrev pub unwrap_or : Option ℕ → ℕ → ℕ
unwrap_or none n = n
unwrap_or (some m) n = m

abbrev pub saturating_add : ℕ → ℕ → ℕ
saturating_add a b = min (a + b) usize_max

pub record ConnectionStats : Type 0 where
  pub remote_addr : SocketAddr
  pub source_ip : Option IpAddr
  pub max_connections : ℕ
  pub active_connections : ℕ
  pub available_slots : ℕ

unfoldable pub get_connection_stats : ConnectionHandler → ConnectionStats
get_connection_stats h = record {
  remote_addr = h.remote_addr;
  source_ip = h.source_ip;
  max_connections = unwrap_or h.max_connections usize_max;
  active_connections = 0;
  available_slots = unwrap_or h.max_connections usize_max;
}

pub record HandlerPool : Type 0 where
  pub handlers : List ConnectionHandler

unfoldable pub add_handler : HandlerPool → ConnectionHandler → HandlerPool
add_handler pool h = record { handlers = pool.handlers ++ (h ∷ []) }

unfoldable pub get_handler : HandlerPool → ℕ → Option ConnectionHandler
get_handler pool i = get_elem? pool.handlers i

pub record PoolStats : Type 0 where
  pub total_handlers : ℕ
  pub total_max_connections : ℕ
  pub total_active_connections : ℕ
  pub total_available_slots : ℕ

-- `reduce` by the saturating sum.
unfoldable pub sum_from : ℕ → List ConnectionHandler → ℕ
unfolding get_connection_stats
sum_from acc [] = acc
sum_from acc (h ∷ hs) = sum_from (saturating_add acc (get_connection_stats h).max_connections) hs

unfoldable pub total_max : List ConnectionHandler → ℕ
unfolding sum_from get_connection_stats
total_max [] = usize_max
total_max (h ∷ hs) = sum_from (get_connection_stats h).max_connections hs

unfoldable pub get_pool_stats : HandlerPool → PoolStats
unfolding total_max
get_pool_stats pool = record {
  total_handlers = length pool.handlers;
  total_max_connections = total_max pool.handlers;
  total_active_connections = 0;
  total_available_slots = total_max pool.handlers;
}
