-- ===== src/ReverseProxy/Session/Served.antt =====
-- src/reverse_proxy: a session of a client with a server that it knows, from the handshake to the last
-- tunnel.
use gsc_fq.Common.{
  ℕ, ◌+◌, ◌^◌, ◌≤◌, ◌<◌, ◌≡◌, ◌≢◌, refl, sym, ap, ◌∙◌, Bool, true, Option, some, List, [], ◌∷◌,
  ◌++◌, append-nil, map, length, Bytes, get_elem?, All,
}
use gsc_fq.Common.Net.{SocketAddr}
use gsc_fq.Common.Results.{Result, ok}
use gsc_fq.Config.Sections.{ReverseProxySection}
use gsc_fq.ReverseProxy.Protocol.{
  ReverseProxyConfig, ClientHello, ControlMessage, client_hello, server_hello, Codec, write_to,
  read_from,
}
use gsc_fq.ReverseProxy.Protocol.Frames.{IsCodec, read_from-write_to}
use gsc_fq.ReverseProxy.Configs.{parse_proxy_configs}
use gsc_fq.ReverseProxy.Handshake.{Env, Client, Server, welcome, make_hello, handle_client}
use gsc_fq.ReverseProxy.Handshake.Agreement.{Knows, client_welcomed}
use gsc_fq.Utils.Totp.{max_u64}
use gsc_fq.Utils.Totp.Codes.{IsHmac}
use gsc_fq.ReverseProxy.Tunnel.{Target, TunnelError, find_target, handle_tunnel_stream}
use gsc_fq.ReverseProxy.Serving.{
  Listener, Binds, bind_listeners, TunnelRequest, Heard, request_of, tunnel_task, opened,
  not_opened, inbound, main_loop,
}
use gsc_fq.ReverseProxy.Serving
use gsc_fq.ReverseProxy.Serving.Reached.{port_of, target_of, tunnel_reached}
use gsc_fq.ReverseProxy.Session.{
  Selected, tunnel, Session, Connect, connected, create_optimized_tcp, do_handshake, tunnel_loop,
  run_with, run_connection,
}
use gsc_fq.ReverseProxy.Session.Answer.{reply, answer_stream, on_stream}

-- Something that a listener heard, the request that it made of it, and how the writes of the tunnel
-- ended and what came back.
pub record Arrival : Type 0 where
  pub index : ℕ
  pub listener : Listener
  pub heard : Heard
  pub request : TunnelRequest
  pub oks : List Bool
  pub reply : Bytes

-- A listener that was bound heard it, and the tunnel was written whole.
pub record Arrives (answers : ℕ → Binds) (configs : List ReverseProxyConfig) (a : Arrival)
    : Type 0 where
  pub bound : get_elem? (bind_listeners answers 0 configs) a.index ≡ some a.listener
  pub sent : request_of a.listener a.heard ≡ some a.request
  pub whole : (tunnel_task a.request a.oks a.reply).whole ≡ true

-- What the server's main loop selects: such an arrival, with a stream that is opened for it; a request
-- for which none is; or a stream of the client.
pub data Happening : Type 0 where
  arrives : Arrival → Happening
  unopened : TunnelRequest → Happening
  from_client : Happening

abbrev pub selects : List Happening → List Serving.Selected
selects [] = []
selects (arrives a ∷ more) = opened a.request a.oks a.reply ∷ selects more
selects (unopened r ∷ more) = not_opened r ∷ selects more
selects (from_client ∷ more) = inbound ∷ selects more

abbrev pub arrivals_of : List Happening → List Arrival
arrivals_of [] = []
arrivals_of (arrives a ∷ more) = a ∷ arrivals_of more
arrivals_of (unopened r ∷ more) = arrivals_of more
arrivals_of (from_client ∷ more) = arrivals_of more

-- The tunnels of the server's main loop, as the client's loop selects them.
abbrev pub carried : List Happening → List Selected
carried happenings = map (λ t. tunnel t.to_client) (main_loop (selects happenings))

-- One by one, the first proxy of the port is handed what was heard.
abbrev pub AllHanded :
    List ReverseProxyConfig → List Arrival → List (Result Target TunnelError) → Type 0
AllHanded configs [] [] = Unit
AllHanded configs [] (t ∷ ts) = ⊥
AllHanded configs (a ∷ more) [] = ⊥
AllHanded configs (a ∷ more) (t ∷ ts) =
    ((c : ReverseProxyConfig) × (find_target configs (port_of a.listener) ≡ ok c)
      × (c.server_port ≡ port_of a.listener)
      × (t ≡ ok (target_of a.heard c)))
    × AllHanded configs more ts

-- The tunnels of a session that goes on with what is selected next.
pub record Continues (configs : List ReverseProxyConfig) (arrivals : List Arrival)
    (next run : Session) : Type 0 where
  pub handed : List (Result Target TunnelError)
  pub each : AllHanded configs arrivals handed
  pub tunnels : run.tunnels ≡ handed ++ next.tunnels
  pub result : run.result ≡ next.result

tunnel_loop-Continues :
    (configs : List ReverseProxyConfig) (answers : ℕ → Binds) (happenings : List Happening)
    (more : List Selected)
    → All (λ c. c.server_port < 65536) configs
    → All (Arrives answers configs) (arrivals_of happenings)
    → Continues configs
        (arrivals_of happenings)
        (tunnel_loop configs more)
        (tunnel_loop configs (carried happenings ++ more))
unfolding tunnel_loop main_loop
tunnel_loop-Continues configs answers [] more small _ = record {
  handed = [];
  each = tt;
  tunnels = refl;
  result = refl;
}
tunnel_loop-Continues configs answers (arrives a ∷ rest) more small (h, hs) =
    let later = tunnel_loop-Continues configs answers rest more small hs in
    record {
      handed =
          handle_tunnel_stream configs (tunnel_task a.request a.oks a.reply).to_client
          ∷ later.handed;
      each = (
        tunnel_reached configs answers a.index a.heard a.oks a.reply small h.bound h.sent h.whole,
        later.each,
      );
      tunnels =
          ap
            (λ ts.
              handle_tunnel_stream configs (tunnel_task a.request a.oks a.reply).to_client ∷ ts)
            later.tunnels;
      result = later.result;
    }
tunnel_loop-Continues configs answers (unopened r ∷ rest) more small hs =
    tunnel_loop-Continues configs answers rest more small hs
tunnel_loop-Continues configs answers (from_client ∷ rest) more small hs =
    tunnel_loop-Continues configs answers rest more small hs

-- A message whose frame is written, and is below 4 GiB.
pub record Framed (bincode : Codec) (m : ControlMessage) (w : Bytes) : Type 0 where
  pub written : write_to bincode m ≡ ok w
  pub small : length w < 2 ^ 32

read_from-Framed :
    (bincode : Codec) (m : ControlMessage) (w : Bytes)
    → IsCodec bincode
    → Framed bincode m w
    → read_from bincode w ≡ ok (m, [])
read_from-Framed bincode m w codec f =
    ap (read_from bincode) (sym (append-nil w))
    ∙ read_from-write_to bincode m w [] codec f.written f.small

module _ (env : Env) (bincode : Codec) (tags : IsHmac env.hmac) (codec : IsCodec bincode) where
  -- What the client reads for a frame that it wrote to this server.
  abbrev pub answered : Server → ℕ → Bytes → Bytes → Option Bytes
  answered s now session written =
      some (on_stream (answer_stream env bincode s now session written))

  do_handshake-ok :
      (c : Client) (s : Server) (configs : List ReverseProxyConfig) (sent now : ℕ)
      (session hash : Bytes) (hello : ClientHello) (hello_frame answer_frame : Bytes)
      → Knows c s
      → env.digest configs ≡ some hash
      → configs ≢ []
      → sent ≤ now + 30
      → now ≤ sent + 30
      → now + 30 ≤ max_u64
      → make_hello env c configs sent ≡ ok hello
      → Framed bincode (client_hello hello) hello_frame
      → Framed bincode (server_hello (welcome env session configs)) answer_frame
      → do_handshake env bincode c configs sent (answered s now session) ≡ ok tt
  unfolding do_handshake answer_stream handle_client reply
  do_handshake-ok c s configs sent now session hash hello hello_frame answer_frame k d some_configs
        early late fits makes asked answers =
      let (met, made, decided, judged) =
        client_welcomed env tags c s configs sent now session hash k d some_configs early late
          fits in
      let same : hello ≡ met = cc (makes, made) in
      rw
        (
          makes,
          asked.written,
          read_from-Framed bincode (client_hello hello) hello_frame codec asked,
          same,
          decided,
          answers.written,
          read_from-Framed bincode _ answer_frame codec answers,
          judged,
        )
        refl

  -- A client that knows the server's token and secret, and whose clock is within 30 seconds of the
  -- server's, connects, exchanges the frames of the handshake with that server and serves. Whatever
  -- the server's listeners then hear, each tunnel is handed to the first proxy of the port that heard
  -- it, with what was heard, and the session goes on with what it selects next. Conditions: the
  -- client's IPv4 socket takes its options and connects; the proxies parse to at least one, have
  -- ports of 16 bits and have a hash; tags are 20 bytes; the clock does not overflow with a step; the
  -- codec decodes what it encoded; hello and answer are written, in frames below 4 GiB; each stream of
  -- a tunnel is written whole and, as Yamux does, brought to the client with its bytes and in the
  -- order of opening. Requests for which no stream opens, and streams of the client, may come between.
  pub session_serves :
      (c : Client) (s : Server) (sections : List ReverseProxySection)
      (configs : List ReverseProxyConfig) (sent now : ℕ) (session hash : Bytes)
      (hello : ClientHello) (hello_frame answer_frame : Bytes) (connect_v4 : SocketAddr → Connect)
      (server_addr : SocketAddr) (answers : ℕ → Binds) (happenings : List Happening)
      (more : List Selected)
      → Knows c s
      → parse_proxy_configs sections ≡ ok configs
      → env.digest configs ≡ some hash
      → configs ≢ []
      → sent ≤ now + 30
      → now ≤ sent + 30
      → now + 30 ≤ max_u64
      → make_hello env c configs sent ≡ ok hello
      → Framed bincode (client_hello hello) hello_frame
      → Framed bincode (server_hello (welcome env session configs)) answer_frame
      → connect_v4 server_addr ≡ connected
      → All (λ p. p.server_port < 65536) configs
      → All (Arrives answers configs) (arrivals_of happenings)
      → Continues configs (arrivals_of happenings) (tunnel_loop configs more) (
          run_connection sections
            (create_optimized_tcp true connect_v4 server_addr)
            (λ cs. do_handshake env bincode c cs sent (answered s now session))
            (carried happenings ++ more))
  unfolding run_connection run_with create_optimized_tcp
  session_serves c s sections [] sent now session hash hello hello_frame answer_frame connect_v4
        server_addr answers happenings more k parsed d some_configs early late fits makes asked
        replies connects small arrive =
      absurd (some_configs refl)
  session_serves c s sections (p ∷ ps) sent now session hash hello hello_frame answer_frame
        connect_v4 server_addr answers happenings more k parsed d some_configs early late fits makes
        asked replies connects small arrive =
      rw
        (
          parsed,
          run_connection,
          connects,
          do_handshake-ok c s (p ∷ ps) sent now session hash hello hello_frame answer_frame k d
              some_configs early late fits makes asked replies,
        )
        (tunnel_loop-Continues (p ∷ ps) answers happenings more small arrive)
