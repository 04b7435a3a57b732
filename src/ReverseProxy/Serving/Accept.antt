-- ===== src/ReverseProxy/Serving/Accept.antt =====
-- src/reverse_proxy/server.rs: how a server is made, and the loop that accepts control connections.
use gsc_fq.Common.{◌≡◌, refl, ap, Option, none, some, List, [], ◌∷◌, Bytes}
use gsc_fq.Common.Net.{SocketAddr}
use gsc_fq.ReverseProxy.Handshake.{Server}

-- `ReverseProxyServer::new`, with the variable REVERSE_PROXY_TOKEN.
unfoldable pub new : Option Bytes → Server
new env_token = record { auth_token = env_token; allowed_tokens = []; totp_secret = none }

unfoldable pub new_with_auth : Option Bytes → List Bytes → Server
new_with_auth auth_token allowed_tokens = record {
  auth_token = auth_token;
  allowed_tokens = allowed_tokens;
  totp_secret = none;
}

unfoldable pub with_totp_secret : Server → Option Bytes → Server
with_totp_secret s secret = record s { totp_secret = secret }

-- What the loop selects.
pub data Selected : Type 0 where
  accepted : SocketAddr → Selected
  accept_error shutdown : Selected

-- A control connection with the server that its task handles it for.
pub record Handled : Type 0 where
  pub peer : SocketAddr
  pub server : Server

-- The tasks that were spawned, and whether the loop has ended.
pub record Accepting : Type 0 where
  pub tasks : List Handled
  pub stopped : Option (Unit {0})

-- `start`, behind the bind of its listener.
pub accept_loop : Server → List Selected → Accepting
accept_loop s [] = record { tasks = []; stopped = none }
accept_loop s (accepted peer ∷ rest) =
    let later = accept_loop s rest in
    record later { tasks = record { peer = peer; server = s } ∷ later.tasks }
accept_loop s (accept_error ∷ rest) = accept_loop s rest
accept_loop s (shutdown ∷ rest) = record { tasks = []; stopped = some tt }

-- The peers that connect before a shutdown, and whether there is one.
abbrev arrived : List Selected → List SocketAddr
arrived [] = []
arrived (accepted peer ∷ rest) = peer ∷ arrived rest
arrived (accept_error ∷ rest) = arrived rest
arrived (shutdown ∷ rest) = []

abbrev each_by : Server → List SocketAddr → List Handled
each_by s [] = []
each_by s (peer ∷ peers) = record { peer = peer; server = s } ∷ each_by s peers

-- Every connection that arrives before a shutdown is handled, in order and with the settings that
-- the server started with; a failed accept loses none.
accept_loop-tasks :
    (s : Server) (selected : List Selected)
    → (accept_loop s selected).tasks ≡ each_by s (arrived selected)
unfolding accept_loop
accept_loop-tasks s [] = refl
accept_loop-tasks s (accepted peer ∷ rest) =
    ap (λ tasks. record { peer = peer; server = s } ∷ tasks) (accept_loop-tasks s rest)
accept_loop-tasks s (accept_error ∷ rest) = accept_loop-tasks s rest
accept_loop-tasks s (shutdown ∷ rest) = refl
