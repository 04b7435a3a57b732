-- ===== src/ReverseProxy/Sessions/Aborted.antt =====
-- src/reverse_proxy/server.rs: the listeners of a client are running as long as its session is there,
-- and aborted with it.
use gsc_fq.Common.{
  ℕ, ◌≡◌, inl, inr, refl, Bool, true, false, ◌||◌, Option, none, some, List, [], ◌∷◌, ◌++◌, arith,
  ==_iff, Bytes, bytes_eq, bytes_key, nat_eq, bytes_eq_iff, contains, Bool-cases, All, All-mono,
}
use gsc_fq.Common.Maps.{get-insert, get-remove}
use gsc_fq.ReverseProxy.Sessions.{
  ClientSession, new, Sessions, get, handles, store_session, remove_session, to_remove, remove_all,
  cleanup, Event, connected, tunnel, disconnected, tick, step, run,
}

abbrev pub IsAborted : List ℕ → ℕ → Type 0
IsAborted aborted handle = contains aborted handle ≡ true

contains-append :
    (hs ks : List ℕ) (h : ℕ) → contains (hs ++ ks) h ≡ (contains hs h || contains ks h)
unfolding contains
contains-append [] ks h = refl
contains-append (k ∷ hs) ks h = ground (arith, contains-append hs ks h)

AllAborted-self : (hs : List ℕ) → All (IsAborted hs) hs
unfolding contains
AllAborted-self [] = tt
AllAborted-self (h ∷ hs) = (
  ground (arith, ==_iff h h),
  All-mono (IsAborted hs) (IsAborted (h ∷ hs)) hs (λ k e. ground (arith, e)) (AllAborted-self hs),
)

AllAborted-more :
    (aborted more hs : List ℕ) → All (IsAborted aborted) hs → All (IsAborted (aborted ++ more)) hs
AllAborted-more aborted more hs h =
    All-mono (IsAborted aborted) (IsAborted (aborted ++ more)) hs
      (λ k e. ground (arith, contains-append aborted more k, e)) h

AllAborted-last : (aborted hs : List ℕ) → All (IsAborted (aborted ++ hs)) hs
AllAborted-last aborted hs =
    All-mono (IsAborted hs) (IsAborted (aborted ++ hs)) hs
      (λ k e. ground (arith, contains-append aborted hs k, e)) (AllAborted-self hs)

-- A client's session, with these listeners and the activity of its start, or their tasks are aborted.
abbrev pub Kept : ℕ → List ℕ → List ℕ → Option ClientSession → Type 0
Kept start hs aborted none = All (IsAborted aborted) hs
Kept start hs aborted (some c) = (c.listeners ≡ hs) × (c.last_activity ≡ start)

Kept-more :
    (start : ℕ) (hs aborted more : List ℕ) (found : Option ClientSession)
    → Kept start hs aborted found
    → Kept start hs (aborted ++ more) found
Kept-more start hs aborted more none k = AllAborted-more aborted more hs k
Kept-more start hs aborted more (some c) k = k

Kept-handles :
    (start : ℕ) (hs aborted : List ℕ) (found : Option ClientSession)
    → Kept start hs aborted found
    → All (IsAborted (aborted ++ handles found)) hs
Kept-handles start hs aborted none k = AllAborted-more aborted [] hs k
Kept-handles start hs aborted (some c) (own, _) = rw own (AllAborted-last aborted hs)

-- Whether an event is another connection of this client.
unfoldable pub reconnects : Bytes → Event → Bool
reconnects id (connected j proxies listeners now) = bytes_eq j id
reconnects id (tunnel j now) = false
reconnects id (disconnected j) = false
reconnects id (tick now) = false

module _ (start : ℕ) (hs : List ℕ) (id : Bytes) where
  abbrev Session : Sessions → Type 0
  Session s = Kept start hs s.aborted (get id s)

  remove_session-Kept : (j : Bytes) (s : Sessions) → Session s → Session (remove_session j s)
  unfolding remove_session
  remove_session-Kept j s k = elim (Bool-cases (bytes_eq j id)) [
    | inl same ↦
        let own : j ≡ id = (bytes_eq_iff j id).0 same in
        rw (get-remove j id s.clients, same, own) (Kept-handles start hs s.aborted (get id s) k)
    | inr other ↦
        rw (get-remove j id s.clients, other)
          (Kept-more start hs s.aborted (handles (get j s)) (get id s) k)
  ]

  pub remove_all-Kept : (ids : List Bytes) (s : Sessions) → Session s → Session (remove_all ids s)
  unfolding remove_all
  remove_all-Kept [] s k = k
  remove_all-Kept (j ∷ ids) s k =
      remove_all-Kept ids (remove_session j s) (remove_session-Kept j s k)

  step-Kept : (e : Event) (s : Sessions) → reconnects id e ≡ false → Session s → Session (step e s)
  unfolding step reconnects store_session cleanup
  step-Kept (connected j proxies listeners now) s other k =
      rw (get-insert j id (new proxies listeners now) s.clients, other) k
  step-Kept (tunnel j now) s other k = k
  step-Kept (disconnected j) s other k = remove_session-Kept j s k
  step-Kept (tick now) s other k = remove_all-Kept (to_remove now s.clients.entries) s k

  pub run-Kept :
      (es : List Event) (s : Sessions)
      → All (λ e. reconnects id e ≡ false) es
      → Session s
      → Session (run es s)
  unfolding run
  run-Kept [] s _ k = k
  run-Kept (e ∷ es) s (other, others) k = run-Kept es (step e s) others (step-Kept e s other k)
