-- ===== src/ReverseProxy/Tunnel/Requests.antt =====
-- src/reverse_proxy: what the server asks for on a stream is what the client does.
use gsc_fq.Common.{ℕ, ◌%◌, ◌<◌, ◌≡◌, refl, List, ◌++◌, arith, Bytes, length}
use gsc_fq.Common.Results.{ok, ◌>>=◌}
use gsc_fq.Common.Wire.{be16, from_be16-be16, read_exact-append}
use gsc_fq.ReverseProxy.Protocol.{ReverseProxyConfig}
use gsc_fq.ReverseProxy.Tunnel.{
  header, tcp_request, udp_request, tcp_target, udp_target, find_target, read_udp,
  handle_tunnel_stream,
}

-- A TCP tunnel for a port of 16 bits goes to the first proxy of that port, with all that follows
-- the header, or fails for want of one.
pub handle_tunnel_stream-tcp_request :
    (configs : List ReverseProxyConfig) (port : ℕ) (stream : Bytes)
    → port < 65536
    → handle_tunnel_stream configs (tcp_request port ++ stream)
      ≡ (find_target configs port >>= λ c. ok (tcp_target c stream))
unfolding handle_tunnel_stream tcp_request
handle_tunnel_stream-tcp_request configs port stream h =
    rw (read_exact-append (tcp_request port) stream 4 refl, from_be16-be16 port h)

read_udp-framed :
    (configs : List ReverseProxyConfig) (port : ℕ) (payload stream : Bytes)
    → length payload < 65536
    → read_udp configs port (be16 (length payload % 65536) ++ (payload ++ stream))
      ≡ (find_target configs port >>= λ c. ok (udp_target c payload))
unfolding read_udp
read_udp-framed configs port payload stream small =
    let size : length payload % 65536 ≡ length payload = omega arith in
    rw (
      size,
      read_exact-append (be16 (length payload)) (payload ++ stream) 2 refl,
      from_be16-be16 (length payload) small,
      read_exact-append payload stream (length payload) refl,
    )

-- A datagram below 64 KiB for a port of 16 bits reaches the first proxy of that port whole, or
-- fails for want of one.
pub handle_tunnel_stream-udp_request :
    (configs : List ReverseProxyConfig) (port : ℕ) (payload stream : Bytes)
    → port < 65536
    → length payload < 65536
    → handle_tunnel_stream configs (udp_request port payload ++ stream)
      ≡ (find_target configs port >>= λ c. ok (udp_target c payload))
unfolding handle_tunnel_stream udp_request
handle_tunnel_stream-udp_request configs port payload stream h small =
    let size : length payload % 65536 ≡ length payload = omega arith in
    rw
      (
        read_exact-append (header 0x02 port) (be16 (length payload % 65536) ++ (payload ++ stream))
            4 refl,
        from_be16-be16 port h,
      )
      (read_udp-framed configs port payload stream small)
