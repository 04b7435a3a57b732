-- ===== src/ReverseProxy/Retry/Bounded.antt =====
-- src/reverse_proxy/client.rs: the attempts and waits of the loop that connects again.
use gsc_fq.Common.{
  ℕ, zero, suc, ◌-◌, ◌*◌, ◌≤◌, ◌<◌, ◌≡◌, ◌≢◌, inl, inr, min, arith, leb, ltb, length, All,
  Bool-cases,
}
use gsc_fq.ReverseProxy.Retry.{
  Outside, Ending, shut_down, gave_up, out_of_fuel, Started, ended, max_backoff, max_retries,
  start_loop, start,
}

-- What a run from some number of failures may do.
pub record Within (left : ℕ) (s : Started) : Type 0 where
  pub attempts : s.attempts ≤ left
  pub waits : length s.waits ≤ left - 1
  pub short : All (λ d. d ≤ max_backoff) s.waits
  pub done : s.ending ≢ out_of_fuel
  pub exhausted : s.ending ≡ gave_up → s.attempts ≡ left

ended-Within : (left : ℕ) (e : Ending) → e ≢ out_of_fuel → e ≢ gave_up → Within left (ended e)
ended-Within left e d g = record {
  attempts = omega arith;
  waits = omega arith;
  short = tt;
  done = d;
  exhausted = λ same. absurd (g same);
}

start_loop-Within :
    (fuel : ℕ) (out : Outside) (retry_count backoff : ℕ)
    → retry_count ≤ max_retries
    → max_retries - retry_count < fuel
    → backoff ≤ max_backoff
    → Within (max_retries - retry_count) (start_loop fuel out retry_count backoff)
unfolding start_loop
start_loop-Within zero out retry_count backoff low enough short = absurd (omega arith)
start_loop-Within (suc fuel) out retry_count backoff low enough short =
    elim (Bool-cases (out.shutdown retry_count)) [
      | inl stop ↦ rw stop (ended-Within _ shut_down (λ e. cc) (λ e. cc))
      | inr going ↦ elim (Bool-cases (leb max_retries retry_count)) [
        | inl over ↦
            rw (going, over)
              (record {
                attempts = omega arith;
                waits = omega arith;
                short = tt;
                done = λ e. cc;
                exhausted = λ e. ground arith;
              })
        | inr under ↦ elim (Bool-cases (out.connection retry_count)) [
          | inl well ↦
              rw (going, under, well)
                (record {
                  attempts = ground arith;
                  waits = omega arith;
                  short = tt;
                  done = λ e. cc;
                  exhausted = λ e. absurd (cc);
                })
          | inr failed ↦ elim (Bool-cases (ltb (suc retry_count) max_retries)) [
            | inl again ↦ elim (Bool-cases (out.shutdown_in_wait (suc retry_count))) [
              | inl stop ↦
                  rw (going, under, failed, again, stop)
                    (record {
                      attempts = ground arith;
                      waits = ground arith;
                      short = (short, tt);
                      done = λ e. cc;
                      exhausted = λ e. absurd (cc);
                    })
              | inr waited_for ↦
                  let next =
                    start_loop-Within fuel out (suc retry_count) (min (backoff * 2) max_backoff)
                      (ground arith) (ground arith) (omega arith) in
                  rw (going, under, failed, again, waited_for)
                    (record {
                      attempts = ground (arith, next.attempts);
                      waits = ground (arith, next.waits);
                      short = (short, next.short);
                      done = next.done;
                      exhausted = λ e. ground (arith, next.exhausted e);
                    })
            ]
            | inr last ↦
                let next =
                  start_loop-Within fuel out (suc retry_count) backoff (ground arith) (ground arith)
                    short in
                rw (going, under, failed, last)
                  (record {
                    attempts = ground (arith, next.attempts);
                    waits = ground (arith, next.waits);
                    short = next.short;
                    done = next.done;
                    exhausted = λ e. ground (arith, next.exhausted e);
                  })
          ]
        ]
      ]
    ]

-- On fuel above 10 the loop ends: it makes at most ten attempts and nine waits, each of at most a
-- minute, and gives up only after ten attempts.
pub start-Within : (fuel : ℕ) (out : Outside) → 10 < fuel → Within 10 (start fuel out)
unfolding start
start-Within fuel out enough =
    start_loop-Within fuel out 0 1 (omega arith) (omega arith) (omega arith)
