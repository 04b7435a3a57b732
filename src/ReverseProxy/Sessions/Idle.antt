-- ===== src/ReverseProxy/Sessions/Idle.antt =====
-- src/reverse_proxy/server.rs: which sessions the cleanup removes, with their listeners.
use gsc_fq.Common.{
  ℕ, ◌+◌, ◌-◌, ◌<◌, ◌≡◌, inl, inr, refl, true, false, none, some, List, [], ◌∷◌, arith, ltb, lt→ltb,
  Bytes, bytes_eq, bytes_key, nat_eq, bytes_eq_iff, contains, Bool-cases, Option-cases, All,
}
use gsc_fq.Common.Maps
use gsc_fq.Common.Maps.{get-insert, get-remove, lookup}
use gsc_fq.ReverseProxy.Protocol.{ReverseProxyConfig}
use gsc_fq.ReverseProxy.Sessions.{
  ClientSession, new, Sessions, get, store_session, remove_session, to_remove, remove_all, cleanup,
  Event, run,
}
use gsc_fq.ReverseProxy.Sessions.Aborted.{IsAborted, Kept, reconnects, run-Kept, remove_all-Kept}

remove_session-none :
    (j id : Bytes) (s : Sessions) → get id s ≡ none → get id (remove_session j s) ≡ none
unfolding remove_session
remove_session-none j id s e = ground (arith, get-remove j id s.clients, e)

remove_all-none :
    (ids : List Bytes) (id : Bytes) (s : Sessions)
    → get id s ≡ none
    → get id (remove_all ids s) ≡ none
unfolding remove_all
remove_all-none [] id s e = e
remove_all-none (j ∷ ids) id s e =
    remove_all-none ids id (remove_session j s) (remove_session-none j id s e)

remove_all-gone :
    (ids : List Bytes) (id : Bytes) (s : Sessions)
    → contains ids id ≡ true
    → get id (remove_all ids s) ≡ none
unfolding remove_all remove_session contains
remove_all-gone [] id s e = absurd (cc)
remove_all-gone (j ∷ ids) id s e = elim (Bool-cases (bytes_eq j id)) [
  | inl same ↦
      remove_all-none ids id (remove_session j s) (rw (get-remove j id s.clients, same) refl)
  | inr other ↦ remove_all-gone ids id (remove_session j s) (rw other at e)
]

to_remove-idle :
    (now : ℕ) (entries : List (Bytes × ClientSession)) (id : Bytes) (s : ClientSession)
    → lookup id entries ≡ some s
    → 300 < now - s.last_activity
    → contains (to_remove now entries) id ≡ true
unfolding to_remove contains lookup
to_remove-idle now [] id s e idle = absurd (cc)
to_remove-idle now ((j, t) ∷ rest) id s e idle = elim (Bool-cases (bytes_eq j id)) [
  | inl same ↦
      let own : t ≡ s = cc (rw same at e) in
      let old : ltb 300 (now - t.last_activity) ≡ true = lt→ltb _ _ (rw own idle) in
      rw (old, same) refl
  | inr other ↦
      let ih = to_remove-idle now rest id s (rw other at e) idle in
      elim (Bool-cases (ltb 300 (now - t.last_activity))) [
        | inl old ↦ rw (old, other) ih
        | inr young ↦ rw young ih
      ]
]

-- A round of the cleanup after more than 300 seconds leaves no session that is as it was stored.
cleanup-gone :
    (now start : ℕ) (hs : List ℕ) (id : Bytes) (s : Sessions)
    → Kept start hs s.aborted (get id s)
    → start + 300 < now
    → get id (cleanup now s) ≡ none
unfolding cleanup Maps.get
cleanup-gone now start hs id s k late = elim (Option-cases (lookup id s.clients.entries)) [
  | inl e ↦ remove_all-none (to_remove now s.clients.entries) id s e
  | inr (c, e) ↦
      let (_, own) : (c.listeners ≡ hs) × (c.last_activity ≡ start) = rw e at k in
      remove_all-gone (to_remove now s.clients.entries) id s
        (to_remove-idle now s.clients.entries id c e (omega (arith, own)))
]

stored :
    (s : Sessions) (id : Bytes) (proxies : List ReverseProxyConfig) (hs : List ℕ) (start : ℕ)
    → Kept start hs s.aborted (get id (store_session id proxies hs start s))
unfolding store_session
stored s id proxies hs start =
    rw (get-insert id id (new proxies hs start) s.clients, (bytes_eq_iff id id).1 refl) (refl, refl)

-- Whatever happens after a client has connected, but for a new connection of it, and whatever data
-- its tunnels carry, the first round of the cleanup later than 300 seconds leaves it no session, and
-- all of its listeners are aborted.
pub session_cut_off :
    (s : Sessions) (id : Bytes) (proxies : List ReverseProxyConfig) (listeners : List ℕ)
    (start now : ℕ) (es : List Event)
    → All (λ e. reconnects id e ≡ false) es
    → start + 300 < now
    → (later : Sessions) × (cleanup now (run es (store_session id proxies listeners start s))
        ≡ later)
      × (get id later ≡ none)
      × All (IsAborted later.aborted) listeners
unfolding cleanup store_session
session_cut_off s id proxies listeners start now es others late =
    let before = run es (store_session id proxies listeners start s) in
    let kept =
      run-Kept start listeners id es (store_session id proxies listeners start s) others
        (stored s id proxies listeners start) in
    let gone = cleanup-gone now start listeners id before kept late in
    let after : Kept start listeners (cleanup now before).aborted (get id (cleanup now before)) =
      remove_all-Kept start listeners id (to_remove now before.clients.entries) before kept in
    (cleanup now before, refl, gone, rw gone at after)
