-- ===== src/Proxy/ZeroCopy.antt =====
-- src/proxy/zero_copy.rs: the two directions of the splice loop of Linux, on what each call of splice
-- returns, and the bulk copy.
use gsc_fq.Common.{
  ℕ, zero, suc, ◌+◌, ◌-◌, Bool, true, false, Option, none, some, List, [], ◌∷◌, Bytes, leb,
  if◌then◌else◌,
}
use gsc_fq.Common.Results.{Result, ok, err}
use gsc_fq.Proxy.Copy.{Event, Run, Plan, copy_loop}
pub mod Splice
pub mod Optimizer
pub mod Portable
mod Tests

-- What splice returns: a number of bytes, of which 0 is the end, or an error.
pub data Moved : Type 0 where
  moved : ℕ → Moved
  would_block : Moved
  failed : Moved

-- The inner loop, from the pipe to the peer, for `n` bytes of which some are written: those written,
-- and the answers that are left.
unfoldable pub drain : ℕ → ℕ → List Moved → ℕ × List Moved
drain n written [] = (written, [])
drain n written (moved zero ∷ answers) =
    if leb n written then (written, moved zero ∷ answers) else (written, answers)
drain n written (moved (suc w) ∷ answers) =
    let more = drain n (written + suc w) answers in
    if leb n written then (written, moved (suc w) ∷ answers) else more
drain n written (would_block ∷ answers) =
    let more = drain n written answers in
    if leb n written then (written, would_block ∷ answers) else more
drain n written (failed ∷ answers) =
    if leb n written then (written, failed ∷ answers) else (written, answers)

-- One direction, with the answers to the calls that fill the pipe and to those that drain it; `none`
-- where the answers end before the loop.
unfoldable pub direction : List Moved → List Moved → ℕ → Option ℕ
unfolding drain
direction [] answers total = none
direction (moved zero ∷ fills) answers total = some total
direction (moved (suc n) ∷ fills) answers total =
    let (written, left) = drain (suc n) 0 answers in direction fills left (total + written)
direction (would_block ∷ fills) answers total = direction fills answers total
direction (failed ∷ fills) answers total = some total

-- Both directions, which end on their own. `set_up` is the first error of the socket options and the
-- two pipes, if there is one.
abbrev pub joined : Option ℕ → Option ℕ → Option (ℕ × ℕ)
joined none down = none
joined (some up) none = none
joined (some up) (some down) = some (up, down)

unfoldable pub zero_copy_bidirectional :
    Result (Unit {0}) Bytes
    → List Moved × List Moved
    → List Moved × List Moved
    → Result (Option (ℕ × ℕ)) Bytes
unfolding direction
zero_copy_bidirectional (err e) up down = err e
zero_copy_bidirectional (ok _) (fills, drains) (fills', drains') =
    ok (joined (direction fills drains 0) (direction fills' drains' 0))

module _ {W E : Type 0} (write_all : W → Bytes → Result W E) (flush : W → Result W E) where
  -- `bulk_copy_optimized` of this file, which is flushed at each 2 MB or short read.
  unfoldable pub bulk_copy_optimized : ℕ → List Event → W → ℕ → Run (ℕ × W) E
  unfolding copy_loop
  bulk_copy_optimized fuel s w size =
      let plan : Plan = record { buffer_size = size; flush_interval = 2097152; frequent = true } in
      copy_loop write_all flush fuel plan s w 0 0

  unfoldable pub bulk_copy : ℕ → List Event → W → Run (ℕ × W) E
  unfolding bulk_copy_optimized
  bulk_copy fuel s w = bulk_copy_optimized fuel s w 131072
