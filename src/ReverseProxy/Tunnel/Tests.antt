-- ===== src/ReverseProxy/Tunnel/Tests.antt =====
-- src/reverse_proxy: runs of the tunnel streams, and their theorems at inputs.
use gsc_fq.Common.{
  ◌+◌, ◌≤◌, ◌≡◌, ◌≢◌, refl, none, some, List, [], ◌∷◌, ◌++◌, arith, Bytes, length, All, suc,
}
use gsc_fq.Common.Results.{ok, err}
use gsc_fq.Common.Wire.{read_exact}
use gsc_fq.ReverseProxy.Protocol.{ReverseProxyConfig}
use gsc_fq.ReverseProxy.Tunnel.{
  tcp_request, udp_request, tcp_target, udp_target, find_target, handle_tunnel_stream, answer,
  delivered, unknown_type, no_local_target,
}
use gsc_fq.ReverseProxy.Tunnel.Requests.{handle_tunnel_stream-udp_request}
use gsc_fq.ReverseProxy.Tunnel.Answers.{answer_never_delivered, framed}

abbrev web : ReverseProxyConfig
web = record { server_port = 8080; server_host = none; local_host = b'h' ∷ []; local_port = 80 }

tcp_served :
    handle_tunnel_stream (web ∷ []) (tcp_request 8080 ++ 1 ∷ 2 ∷ [])
    ≡ ok (tcp_target web (1 ∷ 2 ∷ []))
unfolding handle_tunnel_stream tcp_request find_target read_exact
tcp_served = refl

handle_tunnel_stream-udp_request_example :
    handle_tunnel_stream (web ∷ []) (udp_request 8080 (5 ∷ 6 ∷ 7 ∷ []) ++ [])
    ≡ ok (udp_target web (5 ∷ 6 ∷ 7 ∷ []))
unfolding find_target
handle_tunnel_stream-udp_request_example =
    handle_tunnel_stream-udp_request (web ∷ []) 8080 (5 ∷ 6 ∷ 7 ∷ []) [] (omega arith) (omega arith)

unknown_port : handle_tunnel_stream (web ∷ []) (tcp_request 9 ++ []) ≡ err (no_local_target 9)
unfolding handle_tunnel_stream find_target read_exact tcp_request
unknown_port = refl

unknown : handle_tunnel_stream (web ∷ []) (7 ∷ 0 ∷ 0 ∷ 9 ∷ []) ≡ err (unknown_type 7)
unfolding handle_tunnel_stream read_exact
unknown = refl

-- The service answers "\0\1abc": the peer gets "a".
mangled : delivered 6 (answer (0 ∷ 1 ∷ b'a' ∷ b'b' ∷ b'c' ∷ [])) ≡ some ((b'a' ∷ []) ∷ [])
unfolding delivered answer read_exact
mangled = refl

answer_never_delivered_example :
    (ds : List Bytes) × (delivered
        (suc (length (answer (1 ∷ 2 ∷ 3 ∷ []))))
        (answer (1 ∷ 2 ∷ 3 ∷ []))
      ≡ some ds)
    × All (λ d. (d ≢ 1 ∷ 2 ∷ 3 ∷ []) × (length d + 2 ≤ 3)) ds
answer_never_delivered_example = answer_never_delivered (1 ∷ 2 ∷ 3 ∷ [])

framed_answers : delivered 3 (framed ((1 ∷ 2 ∷ []) ∷ [] ∷ [])) ≡ some ((1 ∷ 2 ∷ []) ∷ [] ∷ [])
unfolding delivered read_exact framed
framed_answers = refl
