-- ===== src/ReverseProxy/Sessions/Tests.antt =====
-- src/reverse_proxy/server.rs: runs of the session map, and its theorem at an input.
use gsc_fq.Common.{◌≡◌, refl, ℕ, none, some, List, [], ◌∷◌, arith, All, Bytes, codes, bytes_key}
use gsc_fq.Common.Maps
use gsc_fq.ReverseProxy.Sessions.{
  Sessions, Event, tunnel, tick, get, update_activity, new, store_session, remove_session, cleanup,
  run, step, to_remove, remove_all,
}
use gsc_fq.ReverseProxy.Sessions.Aborted.{IsAborted, reconnects}
use gsc_fq.ReverseProxy.Sessions.Idle.{session_cut_off}

abbrev peer : Bytes
peer = codes "10.0.0.1:5000"

abbrev nobody : Sessions
nobody = record { clients = Maps.empty; aborted = [] }

-- A client that is busy all the time.
abbrev busy : List Event
busy = tunnel peer 200 ∷ tick 230 ∷ tunnel peer 300 ∷ []

still_there :
    get peer (run busy (store_session peer [] (7 ∷ 8 ∷ []) 0 nobody)) ≡ some (new [] (7 ∷ 8 ∷ []) 0)
unfolding run step store_session cleanup to_remove remove_all Maps.get Maps.insert
still_there = refl

abbrev both : List ℕ
both = 7 ∷ 8 ∷ []

-- With an activity on record the session stays, and its listeners with it.
stays_when_updated :
    cleanup 301 (record {
      clients = Maps.insert peer (update_activity 200 (new [] both 0)) Maps.empty;
      aborted = [];
    })
    ≡ record { clients = Maps.insert peer (new [] both 200) Maps.empty; aborted = [] }
unfolding cleanup to_remove remove_all Maps.insert
stays_when_updated = refl

-- The end of the connection aborts what the session holds.
ends : (remove_session peer (store_session peer [] both 0 nobody)).aborted ≡ both
unfolding remove_session store_session Maps.insert Maps.get
ends = refl

session_cut_off_example :
    (later : Sessions) × (cleanup 301 (run busy (store_session peer [] both 0 nobody)) ≡ later)
    × (get peer later ≡ none)
    × All (IsAborted later.aborted) both
unfolding reconnects
session_cut_off_example =
    session_cut_off nobody peer [] both 0 301 busy (refl, (refl, (refl, tt))) (omega arith)
