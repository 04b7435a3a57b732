-- ===== src/ReverseProxy/Serving/Tests.antt =====
-- src/reverse_proxy/server.rs: runs of the listeners and the main loop, and their theorem at an input.
use gsc_fq.Common.{◌≡◌, refl, true, false, none, some, [], ◌∷◌}
use gsc_fq.Common.Net.{SocketAddr, v4}
use gsc_fq.Common.Wire.{read_exact}
use gsc_fq.ReverseProxy.Protocol.{ReverseProxyConfig}
use gsc_fq.ReverseProxy.Tunnel.{delivered}
use gsc_fq.ReverseProxy.Serving.{
  tcp_listener, udp_listener, Binds, bind_listeners, TunnelRequest, datagram, failed, request_of,
  listen, write_parts, tunnel_task, udp_tunnel, opened, inbound, yamux_closed, main_loop,
}

abbrev web : ReverseProxyConfig
web = record { server_port = 8080; server_host = none; local_host = b'h' ∷ []; local_port = 80 }

abbrev dns : ReverseProxyConfig
dns = record { server_port = 53; server_host = none; local_host = b'h' ∷ []; local_port = 5353 }

abbrev tcp_only : Binds
tcp_only = record { tcp = true; udp = false }

abbrev both : Binds
both = record { tcp = true; udp = true }

abbrev peer : SocketAddr
peer = record { ip = v4 7; port = 9 }

abbrev query : TunnelRequest
query = record {
  tcp_stream = none;
  target_port = 53;
  udp_data = some (1 ∷ 2 ∷ []);
  udp_peer = some peer;
}

-- A port whose TCP socket is not bound has no UDP socket either.
bound : bind_listeners (λ _. record { tcp = false; udp = true }) 0 (web ∷ []) ≡ []
unfolding bind_listeners
bound = refl

bound_both : bind_listeners (λ _. both) 0 (dns ∷ []) ≡ tcp_listener 53 ∷ udp_listener 53 ∷ []
unfolding bind_listeners
bound_both = refl

-- A task goes on after an error and ends when the channel is closed.
heard :
    listen (udp_listener 53) (
      (failed, true)
      ∷ (datagram (1 ∷ 2 ∷ []) peer, true)
      ∷ (datagram (3 ∷ []) peer, false)
      ∷ (datagram (4 ∷ []) peer, true)
      ∷ [])
    ≡ query ∷ []
unfolding listen request_of
heard = refl

-- The answer of a framed byte is sent to the peer, and nothing is opened after the end.
served :
    main_loop (
      inbound
      ∷ opened query (true ∷ true ∷ true ∷ []) (0 ∷ 1 ∷ 9 ∷ [])
      ∷ yamux_closed
      ∷ opened query (true ∷ []) []
      ∷ [])
    ≡ record {
      to_client = 2 ∷ 0 ∷ 0 ∷ 53 ∷ 0 ∷ 2 ∷ 1 ∷ 2 ∷ [];
      whole = true;
      to_peer = (9 ∷ []) ∷ [];
    }
      ∷ []
unfolding main_loop tunnel_task udp_tunnel write_parts delivered read_exact
served = refl
