-- ===== src/Proxy/Handler/Buffered.antt =====
-- src/proxy/high_perf.rs: what the buffered copy writes and counts, errors included.
use gsc_fq.Common.{
  ℕ, zero, suc, ◌+◌, ◌<◌, ◌≡◌, refl, sym, ap, ◌∙◌, Option, some, List, [], ◌∷◌, ◌++◌, arith, Bytes,
  length, take, drop, take-append-drop, length-drop, length-append, append_assoc, append-nil, inl,
  inr,
}
use gsc_fq.Common.Results.{Result, ok, Result-cases}
use gsc_fq.Proxy.Copy.{Event, arrives, would_block, breaks, Read, got, eof, blocked, broken, read}
use gsc_fq.Proxy.Copy.Source.{bytes_of, bytes_of-left, work, work-left}
use gsc_fq.Proxy.Handler.{buffered, buffered_bidirectional}

-- A read of any stream: bytes from its front, or nothing.
data Front (s s' : List Event) : Read → Type 0 where
  ended : Front s s' eof
  bytes : {b : Bytes} → bytes_of s ≡ b ++ bytes_of s' → work s' < work s → Front s s' (got b)
  waits : Front s s' blocked
  fails : Front s s' broken

read-Front : (k : ℕ) (s : List Event) → Front s (read (suc k) s).1 (read (suc k) s).0
unfolding read bytes_of work
read-Front k [] = ended
read-Front k (arrives c cs ∷ s) =
    bytes
      (ap (λ (t : Bytes). c ∷ t)
        (ap (λ (t : Bytes). t ++ bytes_of s) (sym (take-append-drop k cs))
          ∙ (append_assoc (take k cs) (drop k cs) (bytes_of s)
              ∙ ap (λ (t : Bytes). take k cs ++ t) (sym (bytes_of-left (drop k cs) s)))))
      (omega (arith, work-left (drop k cs) s, length-drop k cs))
read-Front k (would_block ∷ s) = waits
read-Front k (breaks ∷ s) = fails

module _ {W E : Type 0} (write_all : W → Bytes → Result W E) (content : W → Bytes) where
  -- A write that succeeds has written all.
  Writes : Type 0
  Writes = (w w' : W) (b : Bytes) → write_all w b ≡ ok w' → content w' ≡ content w ++ b

  -- The writer has got bytes from the front of the stream, and their number is counted.
  record Counts (s : List Event) (w : W) (total : ℕ) (r : Option (ℕ × W)) : Type 0 where
    given : Bytes
    rest : Bytes
    writer : W
    returned : r ≡ some (total + length given, writer)
    front : bytes_of s ≡ given ++ rest
    content-eq : content writer ≡ content w ++ given

  stops : (s : List Event) (w : W) (total : ℕ) → Counts s w total (some (total, w))
  stops s w total = record {
    given = [];
    rest = bytes_of s;
    writer = w;
    returned = ap (λ n. some (n, w)) (omega arith);
    front = refl;
    content-eq = sym (append-nil (content w));
  }

  goes_on :
      (s s' : List Event) (w w' : W) (total : ℕ) (b : Bytes) (r : Option (ℕ × W))
      → bytes_of s ≡ b ++ bytes_of s'
      → content w' ≡ content w ++ b
      → Counts s' w' (total + length b) r
      → Counts s w total r
  goes_on s s' w w' total b r cut added c = record {
    given = b ++ c.given;
    rest = c.rest;
    writer = c.writer;
    returned = c.returned ∙ ap (λ n. some (n, c.writer)) (omega (arith, length-append b c.given));
    front = cut ∙ (ap (λ (t : Bytes). b ++ t) c.front ∙ sym (append_assoc b c.given c.rest));
    content-eq =
        c.content-eq
        ∙ (ap (λ (t : Bytes). t ++ c.given) added ∙ append_assoc (content w) b c.given);
  }

  buffered-read :
      Writes
      → (fuel : ℕ) (s s' : List Event) (w : W) (total : ℕ) (result : Read)
      → read 65536 s ≡ (result, s')
      → Front s s' result
      → ((w' : W) (total' : ℕ)
          → work s' < work s
          → Counts s' w' total' (buffered write_all fuel s' w' total'))
      → Counts s w total (buffered write_all (suc fuel) s w total)
  unfolding buffered Writes
  buffered-read lawful fuel s s' w total eof e f ih = rw (e, buffered) (stops s w total)
  buffered-read lawful fuel s s' w total blocked e f ih = rw (e, buffered) (stops s w total)
  buffered-read lawful fuel s s' w total broken e f ih = rw (e, buffered) (stops s w total)
  buffered-read lawful fuel s s' w total (got b) e (bytes cut less) ih =
      elim (Result-cases (write_all w b)) [
        | inr (x, bad) ↦ rw (e, buffered, bad) (stops s w total)
        | inl (w', good) ↦
            rw
              (
                ap (λ (p : Read × List Event). p.0) e,
                buffered,
                good,
                ap (λ (p : Read × List Event). p.1) e,
              )
              (goes_on s s' w w' total b _ cut (lawful w w' b good) (ih w' (total + length b) less))
      ]

  buffered-Counts :
      Writes
      → (fuel : ℕ) (s : List Event) (w : W) (total : ℕ) → work s < fuel
      → Counts s w total (buffered write_all fuel s w total)
  buffered-Counts lawful zero s w total enough = absurd (omega arith)
  buffered-Counts lawful (suc fuel) s w total enough =
      let next = read 65536 s in
      buffered-read lawful fuel s next.1 w total next.0 refl (read-Front 65535 s)
        (λ w' total' less. buffered-Counts lawful fuel next.1 w' total' (omega arith))

  -- Whatever the two peers send, and wherever a read or a write fails, the copy ends, each peer has
  -- been given bytes from the front of what the other sent, and their numbers are returned. A write
  -- that succeeds has written all, and there is more fuel than reads.
  buffered_bidirectional-Counts :
      Writes
      → (fuel : ℕ) (from_client from_server : List Event) (to_client to_server : W)
      → work from_client < fuel
      → work from_server < fuel
      → (up : ℕ × W) × (down : ℕ × W) × (buffered_bidirectional write_all fuel
            (from_client, to_client)
            (from_server, to_server)
          ≡ some (up, down))
        × Counts from_client to_server 0 (some up)
        × Counts from_server to_client 0 (some down)
  unfolding buffered_bidirectional
  buffered_bidirectional-Counts lawful fuel from_client from_server to_client to_server enough
        enough' =
      let up = buffered-Counts lawful fuel from_client to_server 0 enough in
      let down = buffered-Counts lawful fuel from_server to_client 0 enough' in
      (
        (0 + length up.given, up.writer),
        (0 + length down.given, down.writer),
        rw (buffered_bidirectional, up.returned, down.returned) refl,
        rw up.returned at up,
        rw down.returned at down,
      )
