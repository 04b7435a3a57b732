-- ===== src/Proxy/Resilient/Cleanup.antt =====
-- src/proxy/resilient.rs: which sessions the health check leaves.
use gsc_fq.Common.{ℕ, ◌+◌, ◌-◌, ◌≤◌, ◌≡◌, some, List, [], ◌∷◌, arith, leb, le→leb, nat_eq, All}
use gsc_fq.Common.Maps
use gsc_fq.Common.Maps.{get-retain}
use gsc_fq.Proxy.Resilient.{SessionInfo, Manager, cleanup_expired_sessions, health_checks, secs}

cleanup_expired_sessions-live :
    (m : Manager) (id now : ℕ) (s : SessionInfo)
    → Maps.get id m.sessions ≡ some s
    → now ≤ s.created_at + secs 300
    → Maps.get id (cleanup_expired_sessions m now).sessions ≡ some s
unfolding cleanup_expired_sessions
cleanup_expired_sessions-live m id now s found young =
    get-retain (λ _ session. leb (now - session.created_at) (secs 300)) id s m.sessions found
      (le→leb _ _ (omega arith))

-- The health check, however often it runs, leaves a session as it is while that is no older than 300
-- seconds.
health_checks-live :
    (ticks : List ℕ) (m : Manager) (id : ℕ) (s : SessionInfo)
    → Maps.get id m.sessions ≡ some s
    → All (λ now. now ≤ s.created_at + secs 300) ticks
    → Maps.get id (health_checks ticks m).sessions ≡ some s
unfolding health_checks
health_checks-live [] m id s found _ = found
health_checks-live (now ∷ later) m id s found (young, rest) =
    health_checks-live later (cleanup_expired_sessions m now) id s
      (cleanup_expired_sessions-live m id now s found young) rest
