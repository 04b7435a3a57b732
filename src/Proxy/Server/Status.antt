-- ===== src/Proxy/Server/Status.antt =====
-- src/proxy/server.rs: what the status and the flag of an instance say after a start.
use gsc_fq.Common.{
  ◌≡◌, refl, true, false, List, [], ◌∷◌, arith, map, length, count_if, ◌⊎◌, inl, inr,
}
use gsc_fq.Common.Results.{Result, ok, err}
use gsc_fq.Error.{AppError}
use gsc_fq.Proxy.Server.{
  ProxyInstance, ProxyServer, placeholder_from, start, get_status, Calls, Arrival, opened, spawned,
  start_instance, stopped,
}

none_running :
    (is : List ProxyInstance)
    → (count_if (λ (i : ProxyInstance). i.running) (map placeholder_from is) ≡ 0)
      × (length (map placeholder_from is) ≡ length is)
unfolding placeholder_from
none_running [] = (refl, refl)
none_running (i ∷ is) = let (none, same) = none_running is in (omega arith, omega arith)

-- From the start on the status counts no active instance, however many run: the tasks own the
-- instances, and the server keeps placeholders.
start-none_active :
    (s : ProxyServer)
    → ((get_status (start s).0).active_instances ≡ 0)
      × ((get_status (start s).0).total_instances ≡ length s.proxy_instances)
unfolding start get_status
start-none_active s = none_running s.proxy_instances

stopped-cases :
    (i : ProxyInstance) (arrivals : List Arrival) (r : Result (Unit {0}) AppError)
    → ((e : AppError) × (r ≡ err e) × (stopped i arrivals r ≡ (i, err e)))
      ⊎ ((r ≡ ok tt)
          × (stopped i arrivals r ≡ (record i { running = false }, ok (spawned arrivals))))
unfolding stopped
stopped-cases i arrivals (err e) = inl (e, refl, refl)
stopped-cases i arrivals (ok u) = inr (refl, refl)

-- An instance that cannot open its listeners ends with an error and still says that it runs; one
-- that stops at the shutdown does not, and has started a task for each arrival but the errors.
start_instance-outcome :
    (c : Calls) (arrivals : List Arrival) (i : ProxyInstance)
    → ((e : AppError) × (opened c ≡ err e)
        × (start_instance c arrivals i ≡ (record i { running = true }, err e)))
      ⊎ ((opened c ≡ ok tt)
          × (start_instance c arrivals i ≡ (record i { running = false }, ok (spawned arrivals))))
unfolding start_instance
start_instance-outcome c arrivals i =
    stopped-cases (record i { running = true }) arrivals (opened c)
