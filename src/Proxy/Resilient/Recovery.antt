-- ===== src/Proxy/Resilient/Recovery.antt =====
-- src/proxy/resilient.rs: what a session keeps for the time after a reconnect.
use gsc_fq.Common.{
  ℕ, ◌≡◌, refl, sym, ap, ◌∙◌, Option, none, some, List, [], ◌∷◌, ◌++◌, arith, Bytes, append_assoc,
  append-nil, nat_eq, beq_self, Option-cases, inl, inr,
}
use gsc_fq.Common.Maps
use gsc_fq.Common.Maps.{get-insert}
use gsc_fq.Common.Results.{Result, ok, err}
use gsc_fq.Proxy.Resilient.{
  SessionInfo, Manager, Attempt, Failure, connection_failed, connect_with_retry, cache_data,
  recover_connection, recover_found, add_pending_data, take_pending_data,
}

-- The data that a manager holds for a session, if it has it.
unfoldable pub pending_of : Manager → ℕ → Option (List Bytes)
pending_of m id = elim (Maps.get id m.sessions) [ some s ↦ some s.pending_data | none ↦ none ]

-- Several items cached one after the other.
unfoldable pub cache_all : Manager → ℕ → List Bytes → ℕ → Manager
cache_all m id [] now = m
cache_all m id (d ∷ ds) now = cache_all (cache_data m id d now).0 id ds now

get-insert_same :
    (id : ℕ) (s : SessionInfo) (m : Manager) → Maps.get id (Maps.insert id s m.sessions) ≡ some s
get-insert_same id s m = ground (arith, get-insert id id s m.sessions, beq_self id)

cache_data-pending :
    (m : Manager) (id : ℕ) (d : Bytes) (now : ℕ) (held : List Bytes)
    → pending_of m id ≡ some held
    → pending_of (cache_data m id d now).0 id ≡ some (held ++ (d ∷ []))
unfolding pending_of cache_data
cache_data-pending m id d now held h = elim (Option-cases (Maps.get id m.sessions)) [
  | inl e ↦ absurd (cc (rw (e, pending_of) at h))
  | inr (s, e) ↦
      let same : s.pending_data ≡ held = cc (rw (e, pending_of) at h) in
      rw (e, cache_data)
        (rw (get-insert_same id (add_pending_data s d now) m, pending_of) (rw same refl))
]

cache_all-pending :
    (ds : List Bytes) (m : Manager) (id now : ℕ) (held : List Bytes)
    → pending_of m id ≡ some held
    → pending_of (cache_all m id ds now) id ≡ some (held ++ ds)
unfolding cache_all
cache_all-pending [] m id now held h = rw (append-nil held) h
cache_all-pending (d ∷ ds) m id now held h = rw (sym (append_assoc held (d ∷ []) ds)) (
    cache_all-pending ds (cache_data m id d now).0 id now (held ++ (d ∷ []))
      (cache_data-pending m id d now held h))

module _ {ℓ} {S : Type ℓ} where
  -- What a recovery returns, for the result of the reconnect.
  abbrev with_pending : List Bytes → Result S Failure → Result (S × List Bytes) Failure
  with_pending held (ok stream) = ok (stream, held)
  with_pending held (err e) = err e

  recover_connection-lem :
      (m : Manager) (net : ℕ → Attempt S) (id now : ℕ) (held : List Bytes)
      → pending_of m id ≡ some held
      → ((recover_connection m net id now).1 ≡ with_pending held (connect_with_retry m net).outcome)
        × (pending_of (recover_connection m net id now).0 id ≡ some [])
  unfolding pending_of recover_connection recover_found
  recover_connection-lem m net id now held h = elim (Option-cases (Maps.get id m.sessions)) [
    | inl e ↦ absurd (cc (rw (e, pending_of) at h))
    | inr (s, e) ↦
        let same : s.pending_data ≡ held = cc (rw (e, pending_of) at h) in
        rw (e, recover_connection)
          (
            ap (λ (p : List Bytes). with_pending p (connect_with_retry m net).outcome) same,
            rw (get-insert_same id (take_pending_data s now).0 m, pending_of) refl,
          )
  ]

  -- For a session that the manager has, data cached for it come back, after those it held and in
  -- order, when a connection is recovered by a reconnect that succeeds; the session then holds
  -- none.
  pub recover_connection-cached :
      (m : Manager) (net : ℕ → Attempt S) (id now later : ℕ) (held ds : List Bytes) (stream : S)
      → pending_of m id ≡ some held
      → (connect_with_retry (cache_all m id ds now) net).outcome ≡ ok stream
      → ((recover_connection (cache_all m id ds now) net id later).1 ≡ ok (stream, held ++ ds))
        × (pending_of (recover_connection (cache_all m id ds now) net id later).0 id ≡ some [])
  recover_connection-cached m net id now later held ds stream h up =
      let (result, left) =
        recover_connection-lem (cache_all m id ds now) net id later (held ++ ds)
          (cache_all-pending ds m id now held h) in
      (result ∙ ap (with_pending (held ++ ds)) up, left)

  -- For a session that the manager has, a recovery whose reconnect fails reports the failure, and
  -- the data that the session held are gone from it.
  pub recover_connection-loses :
      (m : Manager) (net : ℕ → Attempt S) (id now : ℕ) (held : List Bytes)
      → pending_of m id ≡ some held
      → (connect_with_retry m net).outcome ≡ err connection_failed
      → ((recover_connection m net id now).1 ≡ err connection_failed)
        × (pending_of (recover_connection m net id now).0 id ≡ some [])
  recover_connection-loses m net id now held h down =
      let (result, left) = recover_connection-lem m net id now held h in
      (result ∙ ap (with_pending held) down, left)
