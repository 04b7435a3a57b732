-- ===== src/Proxy/Copy/Whole.antt =====
-- src/proxy/adaptive_copy.rs, src/proxy/adaptive_stream.rs: the copy loop and the copy with a size
-- deliver the whole stream.
use gsc_fq.Common.{
  ℕ, zero, suc, ◌+◌, ◌≤◌, ◌<◌, ◌≡◌, ◌==◌, ◌≢◌, ◌⊎◌, refl, sym, ap, ◌∙◌, Bool, true, false, List, [],
  ◌++◌, arith, Bytes, length, length-append, append_assoc, append-nil, Bool-cases, inl, inr, ltb,
  ltb→lt, not-ltb→le, ◌∷◌,
}
use gsc_fq.Common.Results.{Result, ok, err}
use gsc_fq.Proxy.Copy.{
  Event, arrives, would_block, breaks, io, Read, got, eof, blocked, broken, read, Run, done, Plan,
  should_flush, flush_if, copy_loop, bulk_copy_optimized, adaptive_copy, optimal_buffer_size, Os,
  linux, macos, windows, other_system, large_buffer,
}
use gsc_fq.Proxy.Copy.Source.{
  bytes_of, work, IsHealthy, Reads, at_end, some_bytes, nothing_yet, read-Reads,
}

-- A writer that takes all it is given. `content` is what it was given, `flushed` what it was given
-- before its last flush.
pub record IsWriter {W E : Type 0} (write_all : W → Bytes → Result W E) (flush : W → Result W E)
    (content flushed : W → Bytes) : Type 0 where
  pub writes :
      (w : W) (b : Bytes) → (w' : W) × (write_all w b ≡ ok w') × (content w' ≡ content w ++ b)
  pub flushes :
      (w : W) → (w' : W) × (flush w ≡ ok w') × (content w' ≡ content w) × (flushed w' ≡ content w)

-- Whether some read of a stream ends in the error `WouldBlock`.
unfoldable pub blocks : List Event → Bool
blocks [] = false
blocks (arrives c cs ∷ s) = blocks s
blocks (would_block ∷ s) = true
blocks (breaks ∷ s) = blocks s

-- tokio's copy returns at once with the error of any read, `WouldBlock` among them. Otherwise it
-- copies all of the stream, and returns its length.
pub record Copies {W E : Type 0} (content : W → Bytes) (io_copy : List Event → W → Result (ℕ × W) E)
    : Type 0 where
  pub copies :
      (s : List Event) (w : W)
      → IsHealthy s
      → blocks s ≡ false
      → (w' : W) × (io_copy s w ≡ ok (length (bytes_of s), w'))
        × (content w' ≡ content w ++ bytes_of s)
  pub fails :
      (s : List Event) (w : W) → IsHealthy s → blocks s ≡ true → (e : E) × (io_copy s w ≡ err e)

large_buffer-large : (os : Os) → (0 < large_buffer os) × ((large_buffer os == 8192) ≡ false)
large_buffer-large linux = (omega arith, refl)
large_buffer-large macos = (omega arith, refl)
large_buffer-large windows = (omega arith, refl)
large_buffer-large other_system = (omega arith, refl)

module _ {W E : Type 0} (write_all : W → Bytes → Result W E) (flush : W → Result W E)
    (content flushed : W → Bytes) where
  -- A copy that delivers bytes: their number behind the number before, and all of them flushed.
  pub record Delivers (w : W) (total : ℕ) (b : Bytes) (r : Run (ℕ × W) E) : Type 0 where
    pub writer : W
    pub returned : r ≡ done (total + length b, writer)
    pub content-eq : content writer ≡ content w ++ b
    pub flushed-eq : flushed writer ≡ content writer

  -- What was written is flushed, as far as the loop has counted.
  abbrev Settled : W → ℕ → ℕ → Type 0
  Settled w total last = (last ≡ total → flushed w ≡ content w)

  record Flushed (b : Bool) (w : W) (total last : ℕ) : Type 0 where
    writer : W
    last' : ℕ
    returned : flush_if write_all flush b w total last ≡ done (writer, last')
    same : content writer ≡ content w
    behind : last' ≤ total
    settled : Settled writer total last'
    counted : b ≡ true → last' ≡ total
    kept : b ≡ false → last' ≡ last

  flush_if-Flushed :
      IsWriter write_all flush content flushed
      → (b : Bool) (w : W) (total last : ℕ) → last ≤ total
      → (b ≡ true) ⊎ Settled w total last
      → Flushed b w total last
  unfolding flush_if
  flush_if-Flushed ok_w true w total last le s =
      let (w', e, same, out) = ok_w.flushes w in
      record {
        writer = w';
        last' = total;
        returned = rw e refl;
        same = same;
        behind = omega arith;
        settled = λ _. out ∙ sym same;
        counted = λ _. refl;
        kept = λ e. absurd (cc);
      }
  flush_if-Flushed ok_w false w total last le (inl e) = absurd (cc)
  flush_if-Flushed ok_w false w total last le (inr s) = record {
    writer = w;
    last' = last;
    returned = refl;
    same = refl;
    behind = le;
    settled = s;
    counted = λ e. absurd (cc);
    kept = λ _. refl;
  }

  -- Nothing that was written is unflushed, or some bytes are still to come.
  abbrev pub Ready : List Event → W → ℕ → ℕ → Type 0
  Ready s w total last = Settled w total last ⊎ (bytes_of s ≢ [])

  Loop : ℕ → Plan → List Event → W → ℕ → ℕ → Type 0
  Loop fuel p s w total last =
      Delivers w total (bytes_of s) (copy_loop write_all flush fuel p s w total last)

  Loop-read :
      IsWriter write_all flush content flushed
      → (fuel : ℕ) (p : Plan) (s s' : List Event) (w : W) (total last : ℕ) (result : Read)
      → last ≤ total
      → Ready s w total last
      → read p.buffer_size s ≡ (result, s')
      → Reads p.buffer_size s s' result
      → ((w' : W) (total' last' : ℕ)
          → last' ≤ total'
          → Ready s' w' total' last'
          → work s' < work s
          → IsHealthy s'
          → Loop fuel p s' w' total' last')
      → Loop (suc fuel) p s w total last
  unfolding Loop copy_loop flush_if
  Loop-read ok_w fuel p s s' w total last eof le ready e (at_end nothing same) ih =
      let settled : (ltb last total ≡ true) ⊎ Settled w total last = elim ready [
        | inl h ↦ inr h
        | inr some_left ↦ absurd (some_left nothing)
      ] in
      let f = flush_if-Flushed ok_w (ltb last total) w total last le settled in
      let all : f.last' ≡ total = ground (arith, f.counted, f.kept) in
      rw (e, copy_loop, f.returned, nothing)
        (record {
          writer = f.writer;
          returned = ap (λ n. done (n, f.writer)) (omega arith);
          content-eq = f.same ∙ sym (append-nil (content w));
          flushed-eq = f.settled all;
        })
  Loop-read ok_w fuel p s s' w total last (got b) le ready e (some_bytes pos fits cut h' less) ih =
      let (w1, written, added) = ok_w.writes w b in
      let f =
        flush_if-Flushed ok_w (should_flush p (length b) (total + length b) last) w1
          (total + length b) last (omega arith) (inr (λ e. absurd (omega arith))) in
      let later = ih f.writer (total + length b) f.last' f.behind (inl f.settled) less h' in
      rw (e, copy_loop, written, f.returned, e, cut)
        (record {
          writer = later.writer;
          returned =
              later.returned
              ∙ ap (λ n. done (n, later.writer)) (omega (arith, length-append b (bytes_of s')));
          content-eq =
              later.content-eq
              ∙ (ap (λ (t : Bytes). t ++ bytes_of s') (f.same ∙ added)
                  ∙ append_assoc (content w) b (bytes_of s'));
          flushed-eq = later.flushed-eq;
        })
  Loop-read ok_w fuel p s s' w total last blocked le ready e (nothing_yet same h' less) ih =
      let ready' : Ready s' w total last = elim ready [
        | inl h ↦ inl h
        | inr some_left ↦ inr (λ none. some_left (same ∙ none))
      ] in
      rw (e, copy_loop, e, same) (ih w total last le ready' less h')
  Loop-read ok_w fuel p s s' w total last broken le ready e r ih = elim r [ ]

  -- With more fuel than reads, the loop delivers what is left of a healthy stream.
  pub copy_loop-Delivers :
      IsWriter write_all flush content flushed
      → (fuel : ℕ) (p : Plan) (s : List Event) (w : W) (total last : ℕ) → work s < fuel
      → 0 < p.buffer_size
      → IsHealthy s
      → last ≤ total
      → Ready s w total last
      → Delivers w total (bytes_of s) (copy_loop write_all flush fuel p s w total last)
  unfolding Loop
  copy_loop-Delivers ok_w zero p s w total last fueled pos h le ready = absurd (omega arith)
  copy_loop-Delivers ok_w (suc fuel) p s w total last fueled pos h le ready =
      let next = read p.buffer_size s in
      Loop-read ok_w fuel p s next.1 w total last next.0 le ready refl
        (read-Reads p.buffer_size s pos h)
        (λ w' total' last' le' ready' less h'.
          copy_loop-Delivers ok_w fuel p next.1 w' total' last' (omega arith) pos h' le' ready')

  -- How a copy of a stream ends: with all of it, or, where a read would block and the size that was
  -- expected is below 256 KiB, with that error.
  pub data Copied (n : ℕ) (s : List Event) (w : W) : Run (ℕ × W) E → Type 0 where
    whole :
        {r : Run (ℕ × W) E}
        → (blocks s ≡ false) ⊎ (262144 ≤ n)
        → Delivers w 0 (bytes_of s) r
        → Copied n s w r
    cut_off : {e : E} → blocks s ≡ true → n < 262144 → Copied n s w (io e)

  small_copied :
      (io_copy : List Event → W → Result (ℕ × W) E)
      → IsWriter write_all flush content flushed
      → Copies content io_copy
      → (os : Os) (fuel : ℕ) (s : List Event) (w : W) (n : ℕ) → ltb n 262144 ≡ true
      → IsHealthy s
      → Copied n s w (adaptive_copy write_all flush io_copy os fuel s w n)
  unfolding adaptive_copy optimal_buffer_size
  small_copied io_copy ok_w ok_copy os fuel s w n small h = elim (Bool-cases (blocks s)) [
    | inl stutters ↦
        let (e, failed) = ok_copy.fails s w h stutters in
        rw (small, failed) (cut_off stutters (ltb→lt n 262144 small))
    | inr smooth ↦
        let (w1, copied, added) = ok_copy.copies s w h smooth in
        let (w2, out, same, all) = ok_w.flushes w1 in
        rw (small, copied, out)
          (whole (inl smooth) (record {
            writer = w2;
            returned = ap (λ n. done (n, w2)) (omega arith);
            content-eq = same ∙ added;
            flushed-eq = all ∙ sym same;
          }))
  ]

  -- On every system, whatever size is expected, a copy of a healthy stream no read of which would
  -- block delivers all of it, flushed, and returns its length: the choice of the loop and its buffer
  -- changes nothing of that. Where a read would block, a copy for which 256 KiB or more are expected
  -- does the same, and one for less fails. The writer takes what it is given and starts with nothing
  -- unflushed, there is more fuel than reads, and tokio's copy returns the error of a read at once.
  pub adaptive_copy-Copied :
      (io_copy : List Event → W → Result (ℕ × W) E)
      → IsWriter write_all flush content flushed
      → Copies content io_copy
      → (os : Os) (fuel : ℕ) (s : List Event) (w : W) (estimated_size : ℕ) → work s < fuel
      → IsHealthy s
      → flushed w ≡ content w
      → Copied estimated_size s w (adaptive_copy write_all flush io_copy os fuel s w estimated_size)
  unfolding adaptive_copy optimal_buffer_size bulk_copy_optimized
  adaptive_copy-Copied io_copy ok_w ok_copy os fuel s w n fueled h clean =
      elim (Bool-cases (ltb n 262144)) [
        | inl small ↦ small_copied io_copy ok_w ok_copy os fuel s w n small h
        | inr large ↦
            let (positive, bulk) = large_buffer-large os in
            rw (large, bulk)
              (whole (inr (not-ltb→le n 262144 large)) (
                copy_loop-Delivers ok_w fuel _ s w 0 0 fueled positive h (omega arith)
                  (inl (λ _. clean))))
      ]
