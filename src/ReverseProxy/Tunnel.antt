-- ===== src/ReverseProxy/Tunnel.antt =====
-- src/reverse_proxy: the tunnel streams, as server.rs writes and client.rs reads them, and the
-- answers to datagrams, as client.rs writes and server.rs reads them.
-- A stream is the list of its bytes. Ports are u16.
pub mod Requests
pub mod Answers
mod Tests
use gsc_fq.Common.{
  ℕ, zero, suc, ◌+◌, ◌*◌, ◌/◌, ◌%◌, ◌≡◌, Option, none, some, List, [], ◌∷◌, ◌++◌, if◌then◌else◌,
  ◌==◌, Bytes, length, take, drop,
}
use gsc_fq.Common.Results.{Result, ok, err, ◌>>=◌}
use gsc_fq.Common.Wire.{be16, from_be16, read_exact}
use gsc_fq.ReverseProxy.Protocol.{ReverseProxyConfig}

-- `[type, 0x00, (target_port >> 8) as u8, target_port as u8]`.
abbrev pub header : ℕ → ℕ → Bytes
header type port = type ∷ 0x00 ∷ (port / 256 % 256) ∷ (port % 256) ∷ []

-- What the server writes at the start of a TCP tunnel.
unfoldable pub tcp_request : ℕ → Bytes
tcp_request port = header 0x01 port

-- What the server writes for a datagram; the length is `udp_data.len() as u16`.
unfoldable pub udp_request : ℕ → Bytes → Bytes
udp_request port payload = header 0x02 port ++ be16 (length payload % 65536) ++ payload

-- What the client does with a stream: forward the rest of it, or send one datagram.
pub data Target : Type 0 where
  tcp_target : ReverseProxyConfig → Bytes → Target
  udp_target : ReverseProxyConfig → Bytes → Target

pub data TunnelError : Type 0 where
  header_eof length_eof payload_eof not_implemented : TunnelError
  no_local_target unknown_type : ℕ → TunnelError

-- `iter().find(|c| c.server_port == target_port)`.
unfoldable pub find_target : List ReverseProxyConfig → ℕ → Result ReverseProxyConfig TunnelError
find_target [] port = err (no_local_target port)
find_target (c ∷ cs) port = if c.server_port == port then ok c else find_target cs port

abbrev pub or_fail {ℓ} : {A : Type ℓ} → Option A → TunnelError → Result A TunnelError
or_fail none e = err e
or_fail (some a) e = ok a

unfoldable pub read_udp : List ReverseProxyConfig → ℕ → Bytes → Result Target TunnelError
read_udp configs port stream = do
  target ← find_target configs port
  (len_bytes, rest) ← or_fail (read_exact 2 stream) length_eof
  (payload, _) ← or_fail (read_exact (from_be16 len_bytes) rest) payload_eof
  ok (udp_target target payload)

unfoldable pub read_tcp : List ReverseProxyConfig → ℕ → Bytes → Result Target TunnelError
read_tcp configs port stream = do target ← find_target configs port; ok (tcp_target target stream)

-- The match on the message type.
unfoldable pub dispatch : List ReverseProxyConfig → Bytes → Bytes → Result Target TunnelError
unfolding read_udp read_tcp
dispatch configs (type ∷ reserved ∷ hi ∷ lo ∷ []) stream =
    let port = from_be16 (hi ∷ lo ∷ []) in
    if type == 0x01
    then read_tcp configs port stream
    else if type == 0x02
    then read_udp configs port stream
    else if type == 0x03
    then err not_implemented
    else err (unknown_type type)
dispatch configs _ stream = err header_eof

unfoldable pub handle_tunnel_stream : List ReverseProxyConfig → Bytes → Result Target TunnelError
unfolding dispatch
handle_tunnel_stream configs stream = do
  (head, rest) ← or_fail (read_exact 4 stream) header_eof
  dispatch configs head rest

-- What the client writes back when the local service answers: `write_all(&buf[..n])`.
pub answer : Bytes → Bytes
answer reply = reply

abbrev pub prepend : Bytes → Option (List Bytes) → Option (List Bytes)
prepend d none = none
prepend d (some ds) = some (d ∷ ds)

-- The server's loop over the answers of a stream, until the end of it or an unfinished answer. Each
-- answer is sent to the peer. On fuel; `none` means that the fuel ran out.
unfoldable pub delivered : ℕ → Bytes → Option (List Bytes)
delivered zero stream = none
delivered (suc fuel) stream = elim (read_exact 2 stream) [
  | none ↦ some []
  | some (len_bytes, rest) ↦ elim (read_exact (from_be16 len_bytes) rest) [
    | none ↦ some []
    | some (datagram, rest') ↦ prepend datagram (delivered fuel rest')
  ]
]
