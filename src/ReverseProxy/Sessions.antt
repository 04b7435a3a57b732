-- ===== src/ReverseProxy/Sessions.antt =====
-- src/reverse_proxy/server.rs: the sessions of connected clients, and the task that removes idle ones.
-- A client's id is its address as a text, the handle of a listener task is a number, and clock
-- readings are seconds.
use gsc_fq.Common.{
  ℕ, ◌-◌, Bool, true, false, Option, none, some, List, [], ◌∷◌, ◌++◌, arith, ltb, if◌then◌else◌,
  Bytes, bytes_key,
}
use gsc_fq.Common.Maps
use gsc_fq.Common.Maps.{Map}
use gsc_fq.ReverseProxy.Protocol.{ReverseProxyConfig}
pub mod Aborted
pub mod Idle
pub mod Tests

pub record ClientSession : Type 0 where
  pub proxies : List ReverseProxyConfig
  pub listeners : List ℕ
  pub last_activity : ℕ

-- `ClientSession::new`.
abbrev pub new : List ReverseProxyConfig → List ℕ → ℕ → ClientSession
new proxies listeners now = record { proxies = proxies; listeners = listeners; last_activity = now }

abbrev pub update_activity : ℕ → ClientSession → ClientSession
update_activity now session = record session { last_activity = now }

-- The map, and the tasks that were aborted.
pub record Sessions : Type 0 where
  pub clients : Map Bytes ClientSession
  pub aborted : List ℕ

abbrev pub get : Bytes → Sessions → Option ClientSession
get id s = Maps.get id s.clients

-- When the listeners of a client are bound.
pub store_session : Bytes → List ReverseProxyConfig → List ℕ → ℕ → Sessions → Sessions
store_session id proxies listeners now s = record s {
  clients = Maps.insert id (new proxies listeners now) s.clients;
}

abbrev pub handles : Option ClientSession → List ℕ
handles none = []
handles (some session) = session.listeners

-- A session is taken from the map and its listeners are aborted: at the end of the control connection,
-- and for each client that is idle.
pub remove_session : Bytes → Sessions → Sessions
remove_session id s = record {
  clients = Maps.remove id s.clients;
  aborted = s.aborted ++ handles (get id s);
}

-- The ids that the filter lets through.
pub to_remove : ℕ → List (Bytes × ClientSession) → List Bytes
to_remove now [] = []
to_remove now ((id, session) ∷ rest) =
    let ids = to_remove now rest in if ltb 300 (now - session.last_activity) then id ∷ ids else ids

pub remove_all : List Bytes → Sessions → Sessions
unfolding remove_session
remove_all [] s = s
remove_all (id ∷ ids) s = remove_all ids (remove_session id s)

-- One round of the cleanup task.
pub cleanup : ℕ → Sessions → Sessions
unfolding to_remove remove_all
cleanup now s = remove_all (to_remove now s.clients.entries) s

-- What happens to the map: a client is stored with its listeners, a tunnel of it carries data, its
-- connection ends, the task makes a round.
pub data Event : Type 0 where
  connected : Bytes → List ReverseProxyConfig → List ℕ → ℕ → Event
  tunnel : Bytes → ℕ → Event
  disconnected : Bytes → Event
  tick : ℕ → Event

pub step : Event → Sessions → Sessions
unfolding store_session remove_session cleanup
step (connected id proxies listeners now) s = store_session id proxies listeners now s
step (tunnel id now) s = s
step (disconnected id) s = remove_session id s
step (tick now) s = cleanup now s

pub run : List Event → Sessions → Sessions
unfolding step
run [] s = s
run (e ∷ es) s = run es (step e s)
