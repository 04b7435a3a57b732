-- ===== src/Proxy/ZeroCopy/Optimizer.antt =====
-- src/proxy/splice_optimizer.rs: the transfers by splice through a pipe, on what each call of splice
-- answers. Totals are below 2^64.
use gsc_fq.Common.{
  ℕ, zero, suc, ◌+◌, ◌-◌, ◌*◌, ◌≡◌, refl, Bool, true, false, Option, none, some, List, [], ◌∷◌, ltb,
  if◌then◌else◌, Bytes, keep, map, min,
}
use gsc_fq.Common.Results.{Result, ok, err}
pub mod Blocks

-- The number of bytes, of which 0 is the end; `WouldBlock`, after which the thread sleeps,
-- `Interrupted`, or another error.
pub data Answer : Type 0 where
  moved : ℕ → Answer
  would_block interrupted : Answer
  failed : Bytes → Answer

-- How the pipe is emptied: with a total and the answers that are left, by an error, or not within the
-- answers.
pub data Drained : Type 0 where
  emptied : ℕ → List Answer → Drained
  faulted : Bytes → Drained
  unfinished : Drained

-- The inner loop, with the bytes that remain in the pipe.
unfoldable pub drain : ℕ → ℕ → List Answer → Drained
drain zero total answers = emptied total answers
drain (suc r) total [] = unfinished
drain (suc r) total (moved zero ∷ answers) = emptied total answers
drain (suc r) total (moved (suc w) ∷ answers) = drain (r - w) (total + suc w) answers
drain (suc r) total (would_block ∷ answers) = drain (suc r) total answers
drain (suc r) total (interrupted ∷ answers) = drain (suc r) total answers
drain (suc r) total (failed e ∷ answers) = faulted e

abbrev pub after_drain {ℓ} :
    {A : Type ℓ} → Drained → (ℕ → List Answer → Option (Result A Bytes)) → Option (Result A Bytes)
after_drain (emptied total answers) next = next total answers
after_drain (faulted e) next = some (err e)
after_drain unfinished next = none

-- The outer loop, with the answers to the calls that fill the pipe and to those that drain it; `none`
-- where the answers end before the loop.
unfoldable pub splice_loop : List Answer → List Answer → ℕ → Option (Result ℕ Bytes)
unfolding drain
splice_loop [] drains total = none
splice_loop (moved zero ∷ fills) drains total = some (ok total)
splice_loop (moved (suc n) ∷ fills) drains total =
    after_drain (drain (suc n) total drains) (λ total' left. splice_loop fills left total')
splice_loop (would_block ∷ fills) drains total = splice_loop fills drains total
splice_loop (interrupted ∷ fills) drains total = splice_loop fills drains total
splice_loop (failed e ∷ fills) drains total = some (err e)

-- A call of splice moves at most as many bytes as it asks for.
abbrev pub asked : ℕ → Answer → Answer
asked size (moved n) = moved (min n size)
asked size would_block = would_block
asked size interrupted = interrupted
asked size (failed e) = failed e

abbrev pub buffer_size : ℕ
buffer_size = 262144

-- With the answer of `pipe`, and what each call that fills it could move.
unfoldable pub splice_blocking :
    Result (Unit {0}) Bytes → List Answer → List Answer → Option (Result ℕ Bytes)
unfolding splice_loop
splice_blocking (err e) fills drains = some (err e)
splice_blocking (ok _) fills drains = splice_loop (map (asked buffer_size) fills) drains 0

-- The task that blocks, or the error of joining it.
unfoldable pub splice_zero_copy : Result (Option (Result ℕ Bytes)) Bytes → Option (Result ℕ Bytes)
splice_zero_copy (err e) = some (err e)
splice_zero_copy (ok result) = result

-- The second loop repeats the first with another size.
unfoldable pub splice_adaptive_blocking :
    ℕ → Result (Unit {0}) Bytes → List Answer → List Answer → Option (Result ℕ Bytes)
unfolding splice_loop
splice_adaptive_blocking chunk_size (err e) fills drains = some (err e)
splice_adaptive_blocking chunk_size (ok _) fills drains =
    splice_loop (map (asked chunk_size) fills) drains 0

-- The size that `splice_adaptive` asks for, by its sample.
pub chunk_size : ℕ → ℕ
chunk_size initial_sample_size =
    if ltb initial_sample_size (64 * 1024)
    then 64 * 1024
    else if ltb initial_sample_size (1024 * 1024)
    then 128 * 1024
    else 256 * 1024

-- The kind of a file that `fstat` tells, if it succeeds.
pub data FileKind : Type 0 where
  socket fifo other : FileKind

pub supports_splice : Option FileKind → Bool
supports_splice none = false
supports_splice (some socket) = true
supports_splice (some fifo) = true
supports_splice (some other) = false

-- An answer that is not a reason to try again.
abbrev progresses : Answer → Bool
progresses (moved n) = true
progresses would_block = false
progresses interrupted = false
progresses (failed e) = true

abbrev pub without_retries : List Answer → List Answer
without_retries = keep progresses

abbrev rest_without_retries : Drained → Drained
rest_without_retries (emptied total answers) = emptied total (without_retries answers)
rest_without_retries (faulted e) = faulted e
rest_without_retries unfinished = unfinished

drain-without_retries :
    (answers : List Answer) (r total : ℕ)
    → drain r total (without_retries answers) ≡ rest_without_retries (drain r total answers)
unfolding drain
drain-without_retries answers zero total = refl
drain-without_retries [] (suc r) total = refl
drain-without_retries (moved zero ∷ answers) (suc r) total = refl
drain-without_retries (moved (suc w) ∷ answers) (suc r) total =
    drain-without_retries answers (r - w) (total + suc w)
drain-without_retries (would_block ∷ answers) (suc r) total =
    drain-without_retries answers (suc r) total
drain-without_retries (interrupted ∷ answers) (suc r) total =
    drain-without_retries answers (suc r) total
drain-without_retries (failed e ∷ answers) (suc r) total = refl

after_drain-without_retries :
    (fills : List Answer) (d : Drained)
    → ((total : ℕ) (left : List Answer)
        → splice_loop (without_retries fills) (without_retries left) total
          ≡ splice_loop fills left total)
    → after_drain
        (rest_without_retries d)
        (λ total left. splice_loop (without_retries fills) left total)
      ≡ after_drain d (λ total left. splice_loop fills left total)
after_drain-without_retries fills (emptied total left) ih = ih total left
after_drain-without_retries fills (faulted e) ih = refl
after_drain-without_retries fills unfinished ih = refl

-- Calls that would block or are interrupted, however many there are and wherever they fall, change
-- nothing of a transfer: its result is that of the other answers alone.
pub splice_loop-without_retries :
    (fills drains : List Answer) (total : ℕ)
    → splice_loop (without_retries fills) (without_retries drains) total
      ≡ splice_loop fills drains total
unfolding splice_loop
splice_loop-without_retries [] drains total = refl
splice_loop-without_retries (moved zero ∷ fills) drains total = refl
splice_loop-without_retries (moved (suc n) ∷ fills) drains total =
    rw (drain-without_retries drains (suc n) total) (
      after_drain-without_retries fills (drain (suc n) total drains)
        (λ t left. splice_loop-without_retries fills left t))
splice_loop-without_retries (would_block ∷ fills) drains total =
    splice_loop-without_retries fills drains total
splice_loop-without_retries (interrupted ∷ fills) drains total =
    splice_loop-without_retries fills drains total
splice_loop-without_retries (failed e ∷ fills) drains total = refl
