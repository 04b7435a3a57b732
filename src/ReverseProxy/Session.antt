-- ===== src/ReverseProxy/Session.antt =====
-- src/reverse_proxy/client.rs: a client from the configuration, and one session of it: it parses its
-- proxies, connects, shakes hands and takes the tunnels that the server opens. What the sockets, the
-- peer and Yamux answer are arguments.
use gsc_fq.Common.{
  ℕ, Bool, true, false, Option, none, some, List, [], ◌∷◌, ◌≡◌, refl, ◌&&◌, if◌then◌else◌, Bytes,
}
use gsc_fq.Common.Net.{SocketAddr, v6}
use gsc_fq.Common.Results.{Result, ok, err, ◌>>=◌, map_err}
use gsc_fq.Config.Sections.{ReverseProxySection, InvalidConfigValue}
use gsc_fq.ReverseProxy.Protocol.{
  ReverseProxyConfig, client_hello, ProtocolError, Codec, write_to, read_from,
}
use gsc_fq.ReverseProxy.Configs.{parse_proxy_configs}
use gsc_fq.ReverseProxy.Handshake.{Env, Client, HandshakeError, ClientError, make_hello, judge}
use gsc_fq.ReverseProxy.Tunnel.{Target, TunnelError, handle_tunnel_stream}
pub mod Answer
pub mod Example
pub mod Served
pub mod Tests

abbrev first_token : Option (List Bytes) → Option Bytes
first_token none = none
first_token (some []) = none
first_token (some (t ∷ ts)) = some t

-- `ReverseProxyClient::new`: the token of the environment, or else the first that the section of the
-- server allows, and the secret of the client's own section.
pub new_client : Option Bytes → Option (List Bytes) → Option (Option Bytes) → Client
new_client env_token allowed_tokens client_section = record {
  auth_token = elim env_token [ none ↦ first_token allowed_tokens | some t ↦ some t ];
  totp_secret = elim client_section [ none ↦ none | some secret ↦ secret ];
}

pub data SessionError : Type 0 where
  bad_config : InvalidConfigValue → SessionError
  no_configurations : SessionError
  io_failed connection_timeout : SessionError
  hello_failed : HandshakeError → SessionError
  protocol_failed : ProtocolError → SessionError
  refused : ClientError → SessionError
  yamux_failed closed_by_server : SessionError

-- How an attempt to connect ends.
pub data Connect : Type 0 where
  connected connect_failed timed_out : Connect

-- A socket of IPv4 with its options, of which the first that fails is the error, and the connection
-- within 30 seconds.
pub create_optimized_tcp :
    Bool → (SocketAddr → Connect) → SocketAddr → Result (Unit {0}) SessionError
create_optimized_tcp options_hold connect_v4 server_addr =
    if options_hold
    then (elim (connect_v4 server_addr) [
      | connected ↦ ok tt
      | connect_failed ↦ err io_failed
      | timed_out ↦ err connection_timeout
    ])
    else err io_failed

abbrev or_io_failed : Option Bytes → Result Bytes SessionError
or_io_failed none = err io_failed
or_io_failed (some stream) = ok stream

-- The hello in its frame, the frame of the answer and the judgement; `peer` is what the stream holds
-- for what was written, unless the write fails.
pub do_handshake :
    Env
    → Codec
    → Client
    → List ReverseProxyConfig
    → ℕ
    → (Bytes → Option Bytes)
    → Result (Unit {0}) SessionError
do_handshake env bincode c configs now peer = do
  hello ← map_err hello_failed (make_hello env c configs now)
  sent ← map_err protocol_failed (write_to bincode (client_hello hello))
  stream ← or_io_failed (peer sent)
  (message, _) ← map_err protocol_failed (read_from bincode stream)
  map_err refused (judge message)

-- What the loop selects: a tunnel with its bytes, or an end.
pub data Selected : Type 0 where
  tunnel : Bytes → Selected
  yamux_error yamux_closed shutdown : Selected

-- What became of each tunnel, and how the session ended, if it did.
pub record Session : Type 0 where
  pub tunnels : List (Result Target TunnelError)
  pub result : Option (Result (Unit {0}) SessionError)

abbrev pub ended : Result (Unit {0}) SessionError → Session
ended r = record { tunnels = []; result = some r }

pub tunnel_loop : List ReverseProxyConfig → List Selected → Session
tunnel_loop configs [] = record { tunnels = []; result = none }
tunnel_loop configs (tunnel bytes ∷ rest) =
    let later = tunnel_loop configs rest in
    record later { tunnels = handle_tunnel_stream configs bytes ∷ later.tunnels }
tunnel_loop configs (yamux_error ∷ rest) = ended (err yamux_failed)
tunnel_loop configs (yamux_closed ∷ rest) = ended (err closed_by_server)
tunnel_loop configs (shutdown ∷ rest) = ended (ok tt)

abbrev or_ended : Result (Unit {0}) SessionError → Session → Session
or_ended (err e) s = ended (err e)
or_ended (ok _) s = s

-- `run_connection_with_shutdown` behind the parsing of the proxies.
pub run_with :
    List ReverseProxyConfig
    → Result (Unit {0}) SessionError
    → Result (Unit {0}) SessionError
    → List Selected
    → Session
unfolding tunnel_loop
run_with [] tcp handshake selected = ended (err no_configurations)
run_with (c ∷ cs) tcp handshake selected =
    or_ended (tcp >>= λ _. handshake) (tunnel_loop (c ∷ cs) selected)

-- The connection and the handshake of these proxies, and what the loop then selects.
pub run_connection :
    List ReverseProxySection
    → Result (Unit {0}) SessionError
    → (List ReverseProxyConfig → Result (Unit {0}) SessionError)
    → List Selected
    → Session
unfolding run_with
run_connection sections tcp handshake selected = elim (parse_proxy_configs sections) [
  | err e ↦ ended (err (bad_config e))
  | ok configs ↦ run_with configs tcp (handshake configs) selected
]
