-- ===== src/ReverseProxy/Retry.antt =====
-- src/reverse_proxy/client.rs: `start`, which connects again after a failure. What a connection attempt and the shutdown channel answer are arguments;
-- the loop is on fuel.
use gsc_fq.Common.{
  ℕ, zero, suc, ◌+◌, ◌-◌, ◌*◌, min, Bool, true, false, Option, none, some, List, [], ◌∷◌, arith,
  leb, ltb, if◌then◌else◌, Bytes,
}
pub mod Bounded
pub mod Tests

abbrev pub max_backoff : ℕ
max_backoff = 60

abbrev pub max_retries : ℕ
max_retries = 10

-- The answers by the number of failures so far: whether shutdown was signalled before the attempt
-- and during the wait after it, and whether the connection ended well.
pub record Outside : Type 0 where
  pub shutdown : ℕ → Bool
  pub connection : ℕ → Bool
  pub shutdown_in_wait : ℕ → Bool

pub data Ending : Type 0 where
  shut_down : Ending
  completed : Ending
  gave_up : Ending
  out_of_fuel : Ending

-- The attempts made, the waits begun, in seconds, and how the loop ended.
pub record Started : Type 0 where
  pub attempts : ℕ
  pub waits : List ℕ
  pub ending : Ending

abbrev pub ended : Ending → Started
ended e = record { attempts = 0; waits = []; ending = e }

abbrev pub attempted : Started → Started
attempted s = record s { attempts = suc s.attempts }

abbrev pub waited : ℕ → Started → Started
waited d s = record s { waits = d ∷ s.waits }

-- One round and the rounds behind it; `retry_count` and `backoff` as in the code.
pub start_loop : ℕ → Outside → ℕ → ℕ → Started
start_loop zero out retry_count backoff = ended out_of_fuel
start_loop (suc fuel) out retry_count backoff =
    let failures = suc retry_count in
    let again = ltb failures max_retries in
    let rest =
      start_loop fuel out failures (if again then min (backoff * 2) max_backoff else backoff) in
    let after_wait = if out.shutdown_in_wait failures then ended shut_down else rest in
    let after_failure = if again then waited backoff after_wait else rest in
    if out.shutdown retry_count
    then ended shut_down
    else if leb max_retries retry_count
    then ended gave_up
    else attempted (if out.connection retry_count then ended completed else after_failure)

pub start : ℕ → Outside → Started
unfolding start_loop
start fuel out = start_loop fuel out 0 1
