-- ===== src/Proxy/ZeroCopy/Portable.antt =====
-- src/proxy/zero_copy.rs: the versions for macOS, Windows and other systems, which copy both ways with
-- buffers of 256 KiB. The two peers are what arrives from each and a writer to each.
use gsc_fq.Common.{ℕ, ◌+◌, ◌<◌, ◌≡◌, refl, Option, none, some, List, arith, Bytes, length, inl}
use gsc_fq.Common.Results.{Result, ok, ◌>>=◌}
use gsc_fq.Proxy.Copy.{Event, Run, done, io, forwarding_failed, unfinished}
use gsc_fq.Proxy.Copy.Source.{bytes_of, work, IsHealthy}
use gsc_fq.Proxy.Copy.Whole.{IsWriter, Delivers, copy_loop-Delivers}
use gsc_fq.Proxy.ZeroCopy.{bulk_copy_optimized, joined}

-- What the task of one direction returns: an error counts as no bytes.
abbrev pub counted : {W E : Type 0} → Run (ℕ × W) E → Option ℕ
counted (done (n, w)) = some n
counted (io e) = some 0
counted forwarding_failed = some 0
counted unfinished = none

-- A peer, with what comes from it, the writer to it, and how its socket takes TCP_NODELAY.
pub record Peer (W : Type 0) : Type 0 where
  pub sends : List Event
  pub writer : W
  pub set_nodelay : Result (Unit {0}) Bytes

module _ {W E : Type 0} (write_all : W → Bytes → Result W E) (flush : W → Result W E) where
  -- The direction from one peer to another.
  unfoldable pub one_way : ℕ → Peer W → Peer W → Run (ℕ × W) E
  one_way fuel from to = bulk_copy_optimized write_all flush fuel from.sends to.writer 262144

  -- The version for macOS.
  unfoldable pub zero_copy_bidirectional : ℕ → Peer W → Peer W → Result (Option (ℕ × ℕ)) Bytes
  unfolding one_way
  zero_copy_bidirectional fuel client server = do
    _ ← client.set_nodelay
    _ ← server.set_nodelay
    ok (joined (counted (one_way fuel client server)) (counted (one_way fuel server client)))

  -- The other three repeat it.
  unfoldable pub zero_copy_windows : ℕ → Peer W → Peer W → Result (Option (ℕ × ℕ)) Bytes
  unfolding zero_copy_bidirectional
  zero_copy_windows fuel client server = zero_copy_bidirectional fuel client server

  unfoldable pub zero_copy_other : ℕ → Peer W → Peer W → Result (Option (ℕ × ℕ)) Bytes
  unfolding zero_copy_bidirectional
  zero_copy_other fuel client server = zero_copy_bidirectional fuel client server

  unfoldable pub bulk_copy_bidirectional : ℕ → Peer W → Peer W → Result (Option (ℕ × ℕ)) Bytes
  unfolding zero_copy_bidirectional
  bulk_copy_bidirectional fuel client server = zero_copy_bidirectional fuel client server

  module _ (content flushed : W → Bytes) (lawful : IsWriter write_all flush content flushed) where
    one_way-Delivers :
        (fuel : ℕ) (from to : Peer W)
        → work from.sends < fuel
        → IsHealthy from.sends
        → flushed to.writer ≡ content to.writer
        → Delivers write_all flush content flushed to.writer 0
            (bytes_of from.sends)
            (one_way fuel from to)
    unfolding one_way bulk_copy_optimized
    one_way-Delivers fuel from to fueled healthy clean =
        copy_loop-Delivers write_all flush content flushed lawful fuel _ from.sends to.writer 0 0
          fueled (omega arith) healthy (omega arith) (inl (λ _. clean))

    -- Between two healthy peers whose sockets take their option, all that each sends is delivered to
    -- the other, flushed, and both lengths are returned. The writers take what they are given and
    -- start with nothing unflushed, and there is more fuel than reads.
    zero_copy_bidirectional-Delivers :
        (fuel : ℕ) (client server : Peer W)
        → client.set_nodelay ≡ ok tt
        → server.set_nodelay ≡ ok tt
        → work client.sends < fuel
        → work server.sends < fuel
        → IsHealthy client.sends
        → IsHealthy server.sends
        → flushed client.writer ≡ content client.writer
        → flushed server.writer ≡ content server.writer
        → (zero_copy_bidirectional fuel client server
            ≡ ok (some (length (bytes_of client.sends), length (bytes_of server.sends))))
          × Delivers write_all flush content flushed server.writer 0
              (bytes_of client.sends)
              (one_way fuel client server)
          × Delivers write_all flush content flushed client.writer 0
              (bytes_of server.sends)
              (one_way fuel server client)
    unfolding zero_copy_bidirectional
    zero_copy_bidirectional-Delivers fuel client server c s fueled fueled' h h' clean clean' =
        let up = one_way-Delivers fuel client server fueled h clean' in
        let down = one_way-Delivers fuel server client fueled' h' clean in
        let same : (n : ℕ) → 0 + n ≡ n = λ n. omega arith in
        (
          rw
              (
                c,
                s,
                up.returned,
                down.returned,
                same (length (bytes_of client.sends)),
                same (length (bytes_of server.sends)),
              )
              refl,
          up,
          down,
        )
