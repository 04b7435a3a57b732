-- ===== src/ReverseProxy/Serving.antt =====
-- src/reverse_proxy/server.rs: what `handle_client` does behind the handshake. Its listeners hear
-- connections and datagrams, a channel brings them to the main loop, and the loop opens a tunnel for
-- each. Yamux and the sockets are a library: their answers are arguments.
use gsc_fq.Common.{
  ℕ, ◌+◌, suc, ◌%◌, Bool, true, false, Option, none, some, List, [], ◌∷◌, ◌++◌, Bytes, length, take,
  if◌then◌else◌,
}
use gsc_fq.Common.Net.{SocketAddr}
use gsc_fq.Common.Wire.{be16}
use gsc_fq.ReverseProxy.Protocol.{ReverseProxyConfig}
use gsc_fq.ReverseProxy.Tunnel.{header, delivered}
pub mod Reached
pub mod Accept
pub mod Tests

-- The task of a socket that was bound for the port of a proxy.
pub data Listener : Type 0 where
  tcp_listener udp_listener : ℕ → Listener

-- How the two binds for a port end.
pub record Binds : Type 0 where
  pub tcp : Bool
  pub udp : Bool

abbrev pub listeners_of : Binds → ℕ → List Listener
listeners_of b port =
    if b.tcp then tcp_listener port ∷ (if b.udp then udp_listener port ∷ [] else []) else []

-- The loop over the proxies, with the answers of the operating system by their position.
unfoldable pub bind_listeners : (ℕ → Binds) → ℕ → List ReverseProxyConfig → List Listener
bind_listeners answers i [] = []
bind_listeners answers i (config ∷ configs) =
    listeners_of (answers i) config.server_port ++ bind_listeners answers (i + 1) configs

-- A connection is the bytes that the copy takes from it.
pub record TunnelRequest : Type 0 where
  pub tcp_stream : Option Bytes
  pub target_port : ℕ
  pub udp_data : Option Bytes
  pub udp_peer : Option SocketAddr

-- What a socket hears: a connection or a datagram, or an error after which the task sleeps.
pub data Heard : Type 0 where
  connection : Bytes → Heard
  datagram : Bytes → SocketAddr → Heard
  failed : Heard

-- One round of a task. A datagram is cut to the buffer of 65535 bytes.
unfoldable pub request_of : Listener → Heard → Option TunnelRequest
request_of (tcp_listener port) (connection stream) =
    some (record { tcp_stream = some stream; target_port = port; udp_data = none; udp_peer = none })
request_of (udp_listener port) (datagram bytes peer) = some (record {
  tcp_stream = none;
  target_port = port;
  udp_data = some (take 65535 bytes);
  udp_peer = some peer;
})
request_of (tcp_listener port) (datagram bytes peer) = none
request_of (udp_listener port) (connection stream) = none
request_of (tcp_listener port) failed = none
request_of (udp_listener port) failed = none

-- A task: the requests that it sends, where each send says whether the channel is still open.
unfoldable pub listen : Listener → List (Heard × Bool) → List TunnelRequest
unfolding request_of
listen l [] = []
listen l ((heard, open_channel) ∷ rest) =
    let later = listen l rest in
    elim (request_of l heard) [ none ↦ later | some r ↦ if open_channel then r ∷ later else [] ]

-- What a tunnel has written to the client, whether all was written, and what the peer was sent.
pub record Tunnel : Type 0 where
  pub to_client : Bytes
  pub whole : Bool
  pub to_peer : List Bytes

abbrev pub nothing : Tunnel
nothing = record { to_client = []; whole = false; to_peer = [] }

-- Writes in a row, which stop at the first that fails; of that one nothing is counted.
unfoldable pub write_parts : List Bytes → List Bool → Bytes × Bool
write_parts [] oks = ([], true)
write_parts (p ∷ ps) [] = ([], false)
write_parts (p ∷ ps) (false ∷ oks) = ([], false)
write_parts (p ∷ ps) (true ∷ oks) = let (written, done) = write_parts ps oks in (p ++ written, done)

-- The header, and then the copy both ways.
unfoldable pub tcp_tunnel : ℕ → Bytes → List Bool → Bytes → Tunnel
unfolding write_parts
tcp_tunnel port stream oks reply =
    let (written, done) = write_parts (header 0x01 port ∷ []) oks in
    if done
    then record { to_client = written ++ stream; whole = true; to_peer = reply ∷ [] }
    else nothing

abbrev pub some_or_nil : Option (List Bytes) → List Bytes
some_or_nil none = []
some_or_nil (some ds) = ds

-- Three writes, and then the loop over the answers.
unfoldable pub udp_tunnel : ℕ → Bytes → List Bool → Bytes → Tunnel
unfolding write_parts
udp_tunnel port bytes oks reply =
    let parts = header 0x02 port ∷ be16 (length bytes % 65536) ∷ bytes ∷ [] in
    let (written, done) = write_parts parts oks in
    let answers = delivered (suc (length reply)) reply in
    record { to_client = written; whole = done; to_peer = if done then some_or_nil answers else [] }

-- The task of a tunnel, with the outcome of each write and what the client sends back.
unfoldable pub tunnel_task : TunnelRequest → List Bool → Bytes → Tunnel
unfolding tcp_tunnel udp_tunnel
tunnel_task r oks reply = elim r.tcp_stream [
  | some stream ↦ tcp_tunnel r.target_port stream oks reply
  | none ↦ elim r.udp_data [
    | none ↦ nothing
    | some bytes ↦ elim r.udp_peer [
      | none ↦ nothing
      | some peer ↦ udp_tunnel r.target_port bytes oks reply
    ]
  ]
]

-- What the main loop selects: a request, with the stream that is opened for it unless that fails, or
-- a stream of the client, or the end of the connection.
pub data Selected : Type 0 where
  opened : TunnelRequest → List Bool → Bytes → Selected
  not_opened : TunnelRequest → Selected
  inbound yamux_error yamux_closed : Selected

-- The main loop: the tunnels that it starts.
unfoldable pub main_loop : List Selected → List Tunnel
unfolding tunnel_task
main_loop [] = []
main_loop (opened r oks reply ∷ rest) = tunnel_task r oks reply ∷ main_loop rest
main_loop (not_opened r ∷ rest) = main_loop rest
main_loop (inbound ∷ rest) = main_loop rest
main_loop (yamux_error ∷ rest) = []
main_loop (yamux_closed ∷ rest) = []
