-- ===== src/ReverseProxy/Serving/Reached.antt =====
-- src/reverse_proxy: what a listener of the server hears reaches a proxy of the client.
use gsc_fq.Common.{
  ℕ, ◌+◌, ◌<◌, ◌≡◌, inl, inr, refl, Bool, true, false, some, List, [], ◌∷◌, arith, ◌∙◌, Bytes, take,
  length-take, All, All-append, All-mono, get_elem?, get_elem?-All, ◌==◌, ==_iff, Bool-cases,
}
use mathlib.Core.Path.{subst}
use mathlib.Core.Option.{some-injective}
use gsc_fq.Common.Net.{SocketAddr}
use gsc_fq.Common.Results.{ok, ◌>>=◌}
use gsc_fq.ReverseProxy.Protocol.{ReverseProxyConfig}
use gsc_fq.ReverseProxy.Tunnel.{
  tcp_request, udp_request, Target, tcp_target, udp_target, find_target, handle_tunnel_stream,
}
use gsc_fq.ReverseProxy.Tunnel.Requests.{
  handle_tunnel_stream-tcp_request, handle_tunnel_stream-udp_request,
}
use gsc_fq.ReverseProxy.Serving.{
  Listener, tcp_listener, udp_listener, Binds, listeners_of, bind_listeners, TunnelRequest, Heard,
  connection, datagram, failed, request_of, Tunnel, write_parts, tcp_tunnel, udp_tunnel,
  tunnel_task,
}

abbrev pub port_of : Listener → ℕ
port_of (tcp_listener port) = port
port_of (udp_listener port) = port

-- A port of 16 bits, and a proxy of the client that is found for it.
abbrev Serves : List ReverseProxyConfig → ℕ → Type 0
Serves configs port =
    (c : ReverseProxyConfig) × (find_target configs port ≡ ok c)
    × (c.server_port ≡ port)
    × (port < 65536)

-- What a proxy of a port is handed for what was heard.
abbrev pub target_of : Heard → ReverseProxyConfig → Target
target_of (connection stream) c = tcp_target c stream
target_of (datagram bytes peer) c = udp_target c (take 65535 bytes)
target_of failed c = tcp_target c []

-- The client hands the tunnel to the first proxy of the port that the listener heard on.
abbrev pub Handed : List ReverseProxyConfig → ℕ → Heard → Bytes → Type 0
Handed configs port h bytes =
    (c : ReverseProxyConfig) × (find_target configs port ≡ ok c)
    × (c.server_port ≡ port)
    × (handle_tunnel_stream configs bytes ≡ ok (target_of h c))

find_target-own :
    (c : ReverseProxyConfig) (cs : List ReverseProxyConfig)
    → c.server_port < 65536
    → Serves (c ∷ cs) c.server_port
unfolding find_target
find_target-own c cs h = (c, rw ((==_iff c.server_port c.server_port).1 refl) refl, refl, h)

find_target-more :
    (c : ReverseProxyConfig) (cs : List ReverseProxyConfig) (port : ℕ)
    → Serves cs port
    → Serves (c ∷ cs) port
unfolding find_target
find_target-more c cs port (d, found, own, small) = elim (Bool-cases (c.server_port == port)) [
  | inl same ↦ (c, rw same refl, (==_iff c.server_port port).0 same, small)
  | inr other ↦ (d, rw other found, own, small)
]

abbrev AllServe : List ReverseProxyConfig → List Listener → Type 0
AllServe configs ls = All (λ l. Serves configs (port_of l)) ls

listeners_of-Serves :
    (configs : List ReverseProxyConfig) (b : Binds) (port : ℕ)
    → Serves configs port
    → AllServe configs (listeners_of b port)
listeners_of-Serves configs b port s = elim (Bool-cases b.tcp) [
  | inr off ↦ rw off tt
  | inl on ↦ elim (Bool-cases b.udp) [
    | inr off ↦ rw (on, off) (s, tt)
    | inl both ↦ rw (on, both) (s, (s, tt))
  ]
]

bind_listeners-Serves :
    (answers : ℕ → Binds) (i : ℕ) (configs : List ReverseProxyConfig)
    → All (λ c. c.server_port < 65536) configs
    → AllServe configs (bind_listeners answers i configs)
unfolding bind_listeners
bind_listeners-Serves answers i [] _ = tt
bind_listeners-Serves answers i (c ∷ cs) (small, smalls) =
    All-append (λ l. Serves (c ∷ cs) (port_of l)) (listeners_of (answers i) c.server_port)
      (bind_listeners answers (i + 1) cs)
      (listeners_of-Serves (c ∷ cs) (answers i) c.server_port (find_target-own c cs small))
      (All-mono (λ l. Serves cs (port_of l)) (λ l. Serves (c ∷ cs) (port_of l))
        (bind_listeners answers (i + 1) cs) (λ l s. find_target-more c cs (port_of l) s)
        (bind_listeners-Serves answers (i + 1) cs smalls))

on_target :
    (configs : List ReverseProxyConfig) (port : ℕ) {c : ReverseProxyConfig}
    (make : ReverseProxyConfig → Target)
    → find_target configs port ≡ ok c
    → (find_target configs port >>= λ d. ok (make d)) ≡ ok (make c)
on_target configs port make found = rw found refl

tcp_tunnel-Handed :
    (configs : List ReverseProxyConfig) (port : ℕ) (stream : Bytes) (oks : List Bool)
    (reply : Bytes)
    → Serves configs port
    → (tcp_tunnel port stream oks reply).whole ≡ true
    → Handed configs port (connection stream) (tcp_tunnel port stream oks reply).to_client
unfolding tcp_tunnel write_parts tcp_request
tcp_tunnel-Handed configs port stream [] reply s e = absurd (cc)
tcp_tunnel-Handed configs port stream (false ∷ oks) reply s e = absurd (cc)
tcp_tunnel-Handed configs port stream (true ∷ oks) reply (c, found, own, small) e = (
  c,
  found,
  own,
  handle_tunnel_stream-tcp_request configs port stream small
      ∙ on_target configs port (λ d. tcp_target d stream) found,
)

udp_tunnel-Handed :
    (configs : List ReverseProxyConfig) (port : ℕ) (bytes : Bytes) (peer : SocketAddr)
    (oks : List Bool) (reply : Bytes)
    → Serves configs port
    → (udp_tunnel port (take 65535 bytes) oks reply).whole ≡ true
    → Handed configs port
        (datagram bytes peer)
        (udp_tunnel port (take 65535 bytes) oks reply).to_client
unfolding udp_tunnel write_parts udp_request
udp_tunnel-Handed configs port bytes peer [] reply s e = absurd (cc)
udp_tunnel-Handed configs port bytes peer (false ∷ oks) reply s e = absurd (cc)
udp_tunnel-Handed configs port bytes peer (true ∷ []) reply s e = absurd (cc)
udp_tunnel-Handed configs port bytes peer (true ∷ false ∷ oks) reply s e = absurd (cc)
udp_tunnel-Handed configs port bytes peer (true ∷ true ∷ []) reply s e = absurd (cc)
udp_tunnel-Handed configs port bytes peer (true ∷ true ∷ false ∷ oks) reply s e = absurd (cc)
udp_tunnel-Handed configs port bytes peer (true ∷ true ∷ true ∷ oks) reply (c, found, own, small)
      e =
    (
      c,
      found,
      own,
      handle_tunnel_stream-udp_request configs port (take 65535 bytes) [] small
            (omega (arith, length-take 65535 bytes))
          ∙ on_target configs port (λ d. udp_target d (take 65535 bytes)) found,
    )

abbrev Reaches : List ReverseProxyConfig → ℕ → Heard → Tunnel → Type 0
Reaches configs port heard t = t.whole ≡ true → Handed configs port heard t.to_client

by_listener :
    (configs : List ReverseProxyConfig) (l : Listener) (heard : Heard) (oks : List Bool)
    (reply : Bytes) (r : TunnelRequest)
    → Serves configs (port_of l)
    → request_of l heard ≡ some r
    → (tunnel_task r oks reply).whole ≡ true
    → Handed configs (port_of l) heard (tunnel_task r oks reply).to_client
unfolding request_of tunnel_task
by_listener configs (tcp_listener port) (connection stream) oks reply r s sent whole =
    subst (λ q. Reaches configs port (connection stream) (tunnel_task q oks reply))
      (some-injective _ _ sent) (tcp_tunnel-Handed configs port stream oks reply s) whole
by_listener configs (udp_listener port) (datagram bytes peer) oks reply r s sent whole =
    subst (λ q. Reaches configs port (datagram bytes peer) (tunnel_task q oks reply))
      (some-injective _ _ sent) (udp_tunnel-Handed configs port bytes peer oks reply s) whole
by_listener configs (tcp_listener port) (datagram bytes peer) oks reply r s sent whole = absurd (cc)
by_listener configs (udp_listener port) (connection stream) oks reply r s sent whole = absurd (cc)
by_listener configs (tcp_listener port) failed oks reply r s sent whole = absurd (cc)
by_listener configs (udp_listener port) failed oks reply r s sent whole = absurd (cc)

-- Whatever a listener of a client hears, a connection or a datagram of which 65535 bytes count, and
-- whatever sockets the operating system binds: a tunnel for it that is written whole is handed by
-- the client, as it was heard, to its first proxy of the port of the listener, for proxies with
-- ports of 16 bits.
pub tunnel_reached :
    (configs : List ReverseProxyConfig) (answers : ℕ → Binds) (i : ℕ) (heard : Heard)
    (oks : List Bool) (reply : Bytes) {l : Listener} {r : TunnelRequest}
    → All (λ c. c.server_port < 65536) configs
    → get_elem? (bind_listeners answers 0 configs) i ≡ some l
    → request_of l heard ≡ some r
    → (tunnel_task r oks reply).whole ≡ true
    → Handed configs (port_of l) heard (tunnel_task r oks reply).to_client
tunnel_reached configs answers i heard oks reply {l} {r} small bound sent whole =
    by_listener configs l heard oks reply r
      (get_elem?-All (λ k. Serves configs (port_of k)) (bind_listeners answers 0 configs) i l
        (bind_listeners-Serves answers 0 configs small) bound)
      sent whole
