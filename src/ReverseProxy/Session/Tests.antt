-- ===== src/ReverseProxy/Session/Tests.antt =====
-- src/reverse_proxy/client.rs: runs of a session, and its theorem at an input.
use gsc_fq.Common.{
  ◌≡◌, refl, inl, inr, true, false, none, some, [], ◌∷◌, ◌++◌, arith, Bytes, codes, contains,
}
use gsc_fq.Common.Net.{SocketAddr, v4}
use gsc_fq.Common.Results.{ok, err}
use gsc_fq.Config.Sections.{
  ReverseProxySection, get_server_port, get_service_port, split, parse_u16, digits_u16, port_behind,
}
use gsc_fq.Config.Sections
use gsc_fq.Common.Wire.{read_exact}
use gsc_fq.ReverseProxy.Protocol.{
  client_hello, server_hello, write_to, read_from, frame, unexpected_eof,
}
use gsc_fq.ReverseProxy.Configs.{parse_proxy_configs}
use gsc_fq.ReverseProxy.Handshake.{Client, Server, make_hello, welcome}
use gsc_fq.ReverseProxy.Handshake.Agreement.{Knows}
use gsc_fq.Utils.Totp.Codes.{IsHmac}
use gsc_fq.ReverseProxy.Tunnel.{unknown_type, handle_tunnel_stream}
use gsc_fq.ReverseProxy.Serving.{
  tcp_listener, bind_listeners, connection, request_of, tunnel_task, tcp_tunnel, write_parts,
}
use gsc_fq.ReverseProxy.Session.{
  connected, create_optimized_tcp, protocol_failed, tunnel, yamux_closed, shutdown,
  closed_by_server, tunnel_loop, do_handshake, run_connection, new_client,
}
use gsc_fq.ReverseProxy.Session.Served.{
  Arrival, Arrives, arrives, from_client, carried, Framed, Continues, answered, session_serves,
}
use gsc_fq.ReverseProxy.Session.Example.{env, ssh, hello, greetings, greetings-IsCodec}

abbrev server : Server
server = record { auth_token = some (b't' ∷ []); allowed_tokens = []; totp_secret = none }

abbrev client : Client
client = record { auth_token = some (b't' ∷ []); totp_secret = none }

abbrev service : ReverseProxySection
service = record { server = codes "7000"; local = codes "127.0.0.1:22"; source_ip = none }

abbrev arrival : Arrival
arrival = record {
  index = 0;
  listener = tcp_listener 7000;
  heard = connection (1 ∷ 2 ∷ []);
  request = record {
    tcp_stream = some (1 ∷ 2 ∷ []);
    target_port = 7000;
    udp_data = none;
    udp_peer = none;
  };
  oks = true ∷ [];
  reply = [];
}

-- The token of the environment comes before those of the file.
from_file :
    new_client none (some (codes "a" ∷ codes "b" ∷ [])) none
    ≡ record { auth_token = some (codes "a"); totp_secret = none }
unfolding new_client
from_file = refl

env-IsHmac : IsHmac env.hmac
env-IsHmac key msg = record { sized = refl; bytes = omega arith }

client-Knows : Knows client server
client-Knows = record { token = inr refl; secret = inl refl }

parsed : parse_proxy_configs (service ∷ []) ≡ ok (ssh ∷ [])
unfolding parse_proxy_configs get_server_port get_service_port split parse_u16 digits_u16
    Sections.port_of port_behind Sections.get_server_ip Sections.get_local_host contains
parsed = refl

arrival-Arrives : Arrives (λ _. record { tcp = true; udp = false }) (ssh ∷ []) arrival
unfolding bind_listeners request_of tunnel_task tcp_tunnel write_parts
arrival-Arrives = record { bound = refl; sent = refl; whole = refl }

made : make_hello env client (ssh ∷ []) 1010 ≡ ok hello
unfolding make_hello
made = refl

abbrev hello_frame : Bytes
hello_frame = 0 ∷ 0 ∷ 0 ∷ 1 ∷ 0 ∷ []

abbrev answer_frame : Bytes
answer_frame = 0 ∷ 0 ∷ 0 ∷ 1 ∷ 1 ∷ []

asked : Framed greetings (client_hello hello) hello_frame
unfolding write_to frame
asked = record { written = refl; small = omega arith }

replies : Framed greetings (server_hello (welcome env [] (ssh ∷ []))) answer_frame
unfolding write_to frame welcome
replies = record { written = refl; small = omega arith }

address : SocketAddr
address = record { ip = v4 2130706433; port = 7001 }

session_serves_example :
    Continues (ssh ∷ []) (arrival ∷ []) (tunnel_loop (ssh ∷ []) (yamux_closed ∷ [])) (
      run_connection
        (service ∷ [])
        (create_optimized_tcp true (λ _. connected) address)
        (λ cs.
          do_handshake env greetings client cs 1010
            (answered env greetings env-IsHmac greetings-IsCodec server 1000 []))
        (carried (from_client ∷ arrives arrival ∷ []) ++ yamux_closed ∷ []))
session_serves_example =
    session_serves env greetings env-IsHmac greetings-IsCodec client server (service ∷ [])
      (ssh ∷ []) 1010 1000 [] (b'h' ∷ []) hello hello_frame answer_frame (λ _. connected) address
      (λ _. record { tcp = true; udp = false }) (from_client ∷ arrives arrival ∷ [])
      (yamux_closed ∷ []) client-Knows parsed refl (λ e. cc) (omega arith) (omega arith)
      (omega arith) made asked replies refl (omega arith) (arrival-Arrives, tt)

-- A server that closes without an answer.
unanswered :
    do_handshake env greetings client (ssh ∷ []) 1010 (λ _. some [])
    ≡ err (protocol_failed unexpected_eof)
unfolding do_handshake make_hello write_to frame read_from read_exact
unanswered = refl

-- A tunnel of a type that is not known fails, and the session goes on to its end.
closed :
    tunnel_loop (ssh ∷ []) (tunnel (7 ∷ 0 ∷ 0 ∷ 9 ∷ []) ∷ yamux_closed ∷ tunnel [] ∷ [])
    ≡ record { tunnels = err (unknown_type 7) ∷ []; result = some (err closed_by_server) }
unfolding tunnel_loop handle_tunnel_stream read_exact
closed = refl

stopped : tunnel_loop (ssh ∷ []) (shutdown ∷ []) ≡ record { tunnels = []; result = some (ok tt) }
unfolding tunnel_loop
stopped = refl
