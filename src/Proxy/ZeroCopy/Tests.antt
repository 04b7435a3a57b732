-- ===== src/Proxy/ZeroCopy/Tests.antt =====
-- src/proxy/zero_copy.rs and src/proxy/splice_optimizer.rs: runs of the splice loops, and a theorem at
-- an input.
use gsc_fq.Common.{◌≡◌, refl, some, none, List, [], ◌∷◌, ◌+◌, ◌++◌, Bytes, arith}
use gsc_fq.Common.Results.{Result, ok}
use gsc_fq.Proxy.Copy.{arrives, breaks, copy_loop, read, should_flush, flush_if}
use gsc_fq.Proxy.ZeroCopy.Portable
use gsc_fq.Proxy.ZeroCopy.Optimizer
use gsc_fq.Proxy.ZeroCopy.Optimizer.Blocks
use gsc_fq.Proxy.ZeroCopy.Optimizer.Blocks.{splice_blocking-written}
use gsc_fq.Proxy.ZeroCopy.{
  moved, would_block, failed, drain, direction, bulk_copy_optimized, zero_copy_bidirectional,
}

both :
    zero_copy_bidirectional
      (ok tt)
      (moved 5 ∷ would_block ∷ moved 0 ∷ [], moved 2 ∷ would_block ∷ moved 3 ∷ [])
      (moved 7 ∷ failed ∷ [], moved 7 ∷ [])
    ≡ ok (some (5, 7))
unfolding zero_copy_bidirectional direction drain
both = refl

-- A peer that is gone: the pipe fills up, and then the reader waits as long as it is asked.
waits : direction (moved 5 ∷ would_block ∷ would_block ∷ []) (failed ∷ []) 0 ≡ none
unfolding direction drain
waits = refl

abbrev put : Bytes → Bytes → Result Bytes Bytes
put w b = ok (w ++ b)

abbrev push_out : Bytes → Result Bytes Bytes
push_out w = ok w

-- A client that sends two bytes and breaks off, and a server that sends one.
abbrev client : Portable.Peer Bytes
client = record { sends = arrives 1 (2 ∷ []) ∷ breaks ∷ []; writer = []; set_nodelay = ok tt }

abbrev server : Portable.Peer Bytes
server = record { sends = arrives 3 [] ∷ []; writer = []; set_nodelay = ok tt }

-- Two bytes were written to the server, and none is counted.
broken_off : Portable.zero_copy_bidirectional put push_out 5 client server ≡ ok (some (0, 1))
unfolding Portable.zero_copy_bidirectional Portable.one_way bulk_copy_optimized copy_loop read
    should_flush flush_if
broken_off = refl

-- A block of 5 in two pieces, and one of 5 of which 4 stay behind.
abbrev blocks : List Blocks.Block
blocks = record { pieces = 2 ∷ 3 ∷ []; lost = 0 } ∷ record { pieces = 1 ∷ []; lost = 4 } ∷ []

abbrev fills : List Optimizer.Answer
fills =
    Optimizer.would_block
    ∷ Optimizer.moved 5
    ∷ Optimizer.interrupted
    ∷ Optimizer.moved 5
    ∷ Optimizer.moved 0
    ∷ []

abbrev drains : List Optimizer.Answer
drains =
    Optimizer.moved 2
    ∷ Optimizer.would_block
    ∷ Optimizer.moved 3
    ∷ Optimizer.moved 1
    ∷ Optimizer.moved 0
    ∷ []

splice_blocking-written_example :
    (Optimizer.splice_blocking (ok tt) fills drains ≡ some (ok 6))
    × (Optimizer.splice_adaptive_blocking 5 (ok tt) fills drains ≡ some (ok 6))
    × (Blocks.written blocks + Blocks.behind blocks ≡ Blocks.taken blocks)
splice_blocking-written_example =
    splice_blocking-written 5 blocks fills drains (omega arith)
      (
        ((omega arith, (omega arith, tt)), omega arith, omega arith),
        (((omega arith, tt), omega arith, omega arith), tt),
      )
      refl refl
