-- ===== src/Utils/Signal.antt =====
-- src/utils/signal.rs, for Unix: the handler that notifies those who wait for shutdown. `Notify` of
-- tokio is a parameter: who waits on it and who was woken, by their numbers.
use gsc_fq.Common.{
  ℕ, ◌+◌, ◌≡◌, refl, ap, ◌∙◌, Bool, true, false, List, [], ◌∷◌, arith, if◌then◌else◌, Bool-cases,
  inl, inr, Bytes, codes, ◌++◌,
}
use gsc_fq.Common.Results.{Result, ok, err}
use gsc_fq.Error.{SystemError, signal_handling_failed}

pub record Notify (N : Type 0) : Type 0 where
  pub new : N
  pub notified : N → N
  pub notify_waiters : N → N
  pub waiting : N → ℕ
  pub woken : N → ℕ

-- Whether the tasks for SIGTERM and SIGINT still run: each of them handles one signal.
pub record SignalHandler (N : Type 0) : Type 0 where
  pub shutdown_notify : N
  pub terminate_task : Bool
  pub interrupt_task : Bool

module _ {N : Type 0} (notify : Notify N) where
  pub new : SignalHandler N
  new = record { shutdown_notify = notify.new; terminate_task = false; interrupt_task = false }

  -- With the answers of the operating system to the two registrations. The first task stays where the
  -- second registration fails.
  pub setup_signal_handlers :
      Result (Unit {0}) Bytes
      → Result (Unit {0}) Bytes
      → SignalHandler N
      → SignalHandler N × Result (Unit {0}) SystemError
  setup_signal_handlers (err e) interrupt h =
      (h, err (signal_handling_failed (codes "Failed to setup SIGTERM handler: " ++ e)))
  setup_signal_handlers (ok _) (err e) h = (
    record h { terminate_task = true },
    err (signal_handling_failed (codes "Failed to setup SIGINT handler: " ++ e)),
  )
  setup_signal_handlers (ok _) (ok _) h =
      (record h { terminate_task = true; interrupt_task = true }, ok tt)

  -- `wait_for_shutdown` up to its wait.
  unfoldable pub wait_for_shutdown : SignalHandler N → SignalHandler N
  wait_for_shutdown h = record h { shutdown_notify = notify.notified h.shutdown_notify }

  unfoldable pub trigger_shutdown : SignalHandler N → SignalHandler N
  trigger_shutdown h = record h { shutdown_notify = notify.notify_waiters h.shutdown_notify }

  -- The tasks.
  unfoldable pub on_terminate : SignalHandler N → SignalHandler N
  on_terminate h =
      if h.terminate_task
      then record h {
        shutdown_notify = notify.notify_waiters h.shutdown_notify;
        terminate_task = false;
      }
      else h

  unfoldable pub on_interrupt : SignalHandler N → SignalHandler N
  on_interrupt h =
      if h.interrupt_task
      then record h {
        shutdown_notify = notify.notify_waiters h.shutdown_notify;
        interrupt_task = false;
      }
      else h

-- What is documented of `Notify`: a wait adds one who waits, and `notify_waiters` wakes those who
-- wait then and no one later.
pub record IsNotify {N : Type 0} (notify : Notify N) : Type 0 where
  pub adds :
      (n : N)
      → (notify.waiting (notify.notified n) ≡ notify.waiting n + 1)
        × (notify.woken (notify.notified n) ≡ notify.woken n)
  pub wakes :
      (n : N)
      → (notify.waiting (notify.notify_waiters n) ≡ 0)
        × (notify.woken (notify.notify_waiters n) ≡ notify.woken n + notify.waiting n)

pub data Event : Type 0 where
  waits terminates : Event

module _ {N : Type 0} (notify : Notify N) (lawful : IsNotify notify) where
  step : Event → SignalHandler N → SignalHandler N
  step waits h = wait_for_shutdown notify h
  step terminates h = on_terminate notify h

  run : List Event → SignalHandler N → SignalHandler N
  run [] h = h
  run (e ∷ es) h = run es (step e h)

  on_terminate-over : (h : SignalHandler N) → h.terminate_task ≡ false → on_terminate notify h ≡ h
  unfolding on_terminate
  on_terminate-over h over = simp over

  run-woken :
      (es : List Event) (h : SignalHandler N)
      → h.terminate_task ≡ false
      → notify.woken (run es h).shutdown_notify ≡ notify.woken h.shutdown_notify
  unfolding run step wait_for_shutdown
  run-woken [] h over = refl
  run-woken (waits ∷ es) h over =
      run-woken es (wait_for_shutdown notify h) over ∙ (lawful.adds h.shutdown_notify).1
  run-woken (terminates ∷ es) h over =
      ap (λ k. notify.woken (run es k).shutdown_notify) (on_terminate-over h over)
      ∙ run-woken es h over

  -- A SIGTERM that comes while no one waits for shutdown wakes no one, and neither does any later one,
  -- whoever waits by then.
  terminate_lost :
      (es : List Event) (h : SignalHandler N)
      → notify.waiting h.shutdown_notify ≡ 0
      → notify.woken (run (terminates ∷ es) h).shutdown_notify ≡ notify.woken h.shutdown_notify
  unfolding run step on_terminate
  terminate_lost es h alone = elim (Bool-cases h.terminate_task) [
    | inl runs ↦ rw runs (
        run-woken es
          (record h {
            shutdown_notify = notify.notify_waiters h.shutdown_notify;
            terminate_task = false;
          })
          refl
        ∙ ((lawful.wakes h.shutdown_notify).1 ∙ omega (arith, alone)))
    | inr over ↦
        ap (λ k. notify.woken (run es k).shutdown_notify) (on_terminate-over h over)
        ∙ run-woken es h over
  ]
