-- ===== src/Service/Commands.antt =====
-- src/service: what each command leaves, on a platform that keeps to its words.
use gsc_fq.Common.{◌≡◌, refl, Bool, true, false, Bytes, codes}
use gsc_fq.Common.Results.{Result, ok, err}
use gsc_fq.Service.{
  Platform, service_not_found, service_failed, ServiceStatus, not_installed, stopped, running,
  service_name, is_installed, is_running, status_of, get_status, done, handle_service_command,
}

-- A call that succeeds has done what it says, and a stop or a start of a service that is there and a
-- removal of one that is stopped succeed.
pub record IsPlatform {S : Type 0} (p : Platform S) : Type 0 where
  pub started :
      (s : S) (active : Bool)
      → p.status s service_name ≡ ok active
      → (t : S) × (p.start s service_name ≡ ok t) × (p.status t service_name ≡ ok true)
  pub halted :
      (s : S) (active : Bool)
      → p.status s service_name ≡ ok active
      → (t : S) × (p.stop s service_name ≡ ok t) × (p.status t service_name ≡ ok false)
  pub removed :
      (s : S)
      → p.status s service_name ≡ ok false
      → (t : S) × (p.remove s service_name ≡ ok t)
        × (p.status t service_name ≡ err service_not_found)

abbrev status_for : Bool → ServiceStatus
status_for true = running
status_for false = stopped

-- The command ends in a state in which the service has this status.
abbrev pub Leaves : {S : Type 0} → Platform S → S → Bytes → ServiceStatus → Type 0
Leaves {S} p s command status =
    (t : S) × ((exe : Result Bytes Bytes) → handle_service_command p s exe command ≡ ok (done t))
    × (get_status p t ≡ ok status)

module _ {S : Type 0} (p : Platform S) where
  get_status-installed :
      (s : S) (active : Bool)
      → p.status s service_name ≡ ok active
      → get_status p s ≡ ok (status_for active)
  unfolding get_status
  get_status-installed s true e =
      let installed : is_installed p s ≡ ok true = rw (e, is_installed) refl in
      rw (installed, e, status_of) refl
  get_status-installed s false e =
      let installed : is_installed p s ≡ ok true = rw (e, is_installed) refl in
      rw (installed, e, status_of) refl

  get_status-absent :
      (s : S) → p.status s service_name ≡ err service_not_found → get_status p s ≡ ok not_installed
  unfolding get_status
  get_status-absent s e =
      let absent : is_installed p s ≡ ok false = rw (e, is_installed) refl in rw absent refl

  -- A status that cannot be had is an error, whatever else is so.
  get_status-failed :
      (s : S) (message : Bytes)
      → p.status s service_name ≡ err (service_failed message)
      → get_status p s ≡ err message
  unfolding get_status
  get_status-failed s message e =
      let unknown : is_installed p s ≡ err message = rw (e, is_installed) refl in rw unknown refl

  module _ (lawful : IsPlatform p) where
    start-running :
        (s : S) (active : Bool)
        → p.status s service_name ≡ ok active
        → Leaves p s (codes "start") running
    unfolding handle_service_command
    start-running s active e =
        let (t, started, up) = lawful.started s active e in
        (t, λ exe. rw started refl, get_status-installed t true up)

    stop-stopped :
        (s : S) (active : Bool)
        → p.status s service_name ≡ ok active
        → Leaves p s (codes "stop") stopped
    unfolding handle_service_command
    stop-stopped s active e =
        let (t, halted, down) = lawful.halted s active e in
        (t, λ exe. rw halted refl, get_status-installed t false down)

    restart-running :
        (s : S) (active : Bool)
        → p.status s service_name ≡ ok active
        → Leaves p s (codes "restart") running
    unfolding handle_service_command
    restart-running s active e =
        let (t, halted, down) = lawful.halted s active e in
        let (u, started, up) = lawful.started t false down in
        (u, λ exe. rw (halted, started) refl, get_status-installed u true up)

    uninstall-absent :
        (s : S) (active : Bool)
        → p.status s service_name ≡ ok active
        → Leaves p s (codes "uninstall") not_installed
    unfolding handle_service_command
    uninstall-absent s true e =
        let (t, halted, down) = lawful.halted s true e in
        let (u, removed, gone) = lawful.removed t down in
        let asked : is_running p s ≡ ok true = rw (e, is_running) refl in
        (u, λ exe. rw (asked, halted, removed) refl, get_status-absent u gone)
    uninstall-absent s false e =
        let (u, removed, gone) = lawful.removed s e in
        let asked : is_running p s ≡ ok false = rw (e, is_running) refl in
        (u, λ exe. rw (asked, removed) refl, get_status-absent u gone)

    -- Of an installed service, running or not, each command does what it says and leaves the service
    -- in that status: "start" and "restart" running, "stop" stopped, "uninstall" not installed.
    pub handle_service_command-status :
        (s : S) (active : Bool)
        → p.status s service_name ≡ ok active
        → Leaves p s (codes "start") running
          × Leaves p s (codes "stop") stopped
          × Leaves p s (codes "restart") running
          × Leaves p s (codes "uninstall") not_installed
    handle_service_command-status s active e = (
      start-running s active e,
      stop-stopped s active e,
      restart-running s active e,
      uninstall-absent s active e,
    )
