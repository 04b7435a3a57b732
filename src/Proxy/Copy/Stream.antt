-- ===== src/Proxy/Copy/Stream.antt =====
-- src/proxy/adaptive_stream.rs: the copies that take a sample first.
use gsc_fq.Common.{
  ℕ, zero, suc, ◌≤◌, ◌<◌, ◌≡◌, ◌≢◌, ◌⊎◌, refl, sym, ap, ◌∙◌, Bool, true, false, List, [], ◌∷◌, ◌++◌,
  arith, Bytes, length, length-append, append_assoc, append-nil, append-eq_nil, Bool-cases, inl,
  inr, ltb,
}
use gsc_fq.Common.Results.{Result, ok}
use gsc_fq.Proxy.Copy.{
  Os, linux, macos, windows, other_system, burst_of, stream_of, Event, Read, got, eof, blocked,
  broken, read, Run, done, forwarding_failed, Plan, plan_of, flush_if, copy_loop,
  execute_adaptive_transfer, analyze_traffic_pattern, adaptive_stream_copy,
  adaptive_tcp_stream_copy,
}
use gsc_fq.Proxy.Copy.Source.{
  bytes_of, work, IsHealthy, Reads, at_end, some_bytes, nothing_yet, read-Reads,
  read_initial_sample-Sampled,
}
use gsc_fq.Proxy.Copy.Whole.{IsWriter, copy_loop-Delivers}

nil_or : (b : Bytes) → (b ≡ []) ⊎ (b ≢ [])
nil_or [] = inl refl
nil_or (x ∷ b) = inr (λ e. cc)

length-nil : (b : Bytes) → b ≢ [] → 0 < length b
length-nil [] h = absurd (h refl)
length-nil (x ∷ b) h = omega arith

module _ {W E : Type 0} (write_all : W → Bytes → Result W E) (flush : W → Result W E)
    (content flushed : W → Bytes) where
  ended_step :
      (fuel : ℕ) (p : Plan) (s s' : List Event) (w : W) (total : ℕ) (result : Read)
      → bytes_of s ≡ []
      → read p.buffer_size s ≡ (result, s')
      → Reads p.buffer_size s s' result
      → (bytes_of s' ≡ []
          → IsHealthy s'
          → work s' < work s
          → copy_loop write_all flush fuel p s' w total total ≡ done (total, w))
      → copy_loop write_all flush (suc fuel) p s w total total ≡ done (total, w)
  unfolding copy_loop flush_if
  ended_step fuel p s s' w total eof nothing e (at_end _ _) ih =
      let same : ltb total total ≡ false = ground arith in rw (e, copy_loop, same) refl
  ended_step fuel p s s' w total (got b) nothing e (some_bytes pos fits cut h' less) ih =
      let empty = (append-eq_nil b (bytes_of s') (sym cut ∙ nothing)).0 in
      absurd (omega (arith, ap length empty))
  ended_step fuel p s s' w total blocked nothing e (nothing_yet same h' less) ih =
      rw (e, copy_loop, e) (ih (sym same ∙ nothing) h' less)
  ended_step fuel p s s' w total broken nothing e r ih = elim r [ ]

  -- At the end of a stream a loop that has counted all as flushed leaves the writer alone.
  copy_loop-ended :
      (fuel : ℕ) (p : Plan) (s : List Event) (w : W) (total : ℕ)
      → work s < fuel
      → 0 < p.buffer_size
      → IsHealthy s
      → bytes_of s ≡ []
      → copy_loop write_all flush fuel p s w total total ≡ done (total, w)
  copy_loop-ended zero p s w total fueled pos h nothing = absurd (omega arith)
  copy_loop-ended (suc fuel) p s w total fueled pos h nothing =
      let next = read p.buffer_size s in
      ended_step fuel p s next.1 w total next.0 nothing refl (read-Reads p.buffer_size s pos h)
        (λ nothing' h' less. copy_loop-ended fuel p next.1 w total (omega arith) pos h' nothing')

  -- What a copy does with a stream: all of it is written and counted, and flushed too unless its
  -- length is that of the sample, 32768; such a stream is written once and never flushed.
  pub record Streamed (b : Bytes) (w : W) (r : Run (ℕ × W) E) : Type 0 where
    pub writer : W
    pub returned : r ≡ done (length b, writer)
    pub content-eq : content writer ≡ content w ++ b
    pub flushed-eq : length b ≢ 32768 → flushed writer ≡ content writer
    pub unflushed : length b ≡ 32768 → write_all w b ≡ ok writer

  burst_pos : (os : Os) → 0 < (plan_of (burst_of os)).buffer_size
  unfolding plan_of
  burst_pos linux = omega arith
  burst_pos macos = omega arith
  burst_pos windows = omega arith
  burst_pos other_system = omega arith

  stream_pos : (os : Os) → 0 < (plan_of (stream_of os)).buffer_size
  unfolding plan_of
  stream_pos linux = omega arith
  stream_pos macos = omega arith
  stream_pos windows = omega arith
  stream_pos other_system = omega arith

  plan_pos :
      (os : Os) (n : ℕ) (eos : Bool) → 0 < (plan_of (analyze_traffic_pattern os n eos)).buffer_size
  unfolding plan_of analyze_traffic_pattern
  plan_pos os n true = omega arith
  plan_pos os n false = elim (Bool-cases (ltb n 16384)) [
    | inl small ↦ rw small (omega arith)
    | inr large ↦ elim (Bool-cases (ltb n 65536)) [
      | inl medium ↦ rw (large, medium) (burst_pos os)
      | inr more ↦ rw (large, more) (stream_pos os)
    ]
  ]

  -- A stream that ends with its sample is the sample.
  ends_with :
      (s : List Event) (b rest : Bytes) → bytes_of s ≡ b ++ rest → rest ≡ [] → bytes_of s ≡ b
  ends_with s b rest cut nothing = cut ∙ (ap (λ t. b ++ t) nothing ∙ append-nil b)

  -- On every system, all of a healthy stream is written, and its length returned. All is flushed at
  -- the end, unless the stream has exactly 32768 bytes: those are written in one go and never flushed.
  -- The writer takes what it is given, and there is more fuel than reads.
  pub adaptive_stream_copy-Streamed :
      IsWriter write_all flush content flushed
      → (os : Os) (fuel : ℕ) (s : List Event) (w : W) → work s < fuel
      → IsHealthy s
      → Streamed (bytes_of s) w (adaptive_stream_copy write_all flush os fuel s w)
  unfolding adaptive_stream_copy execute_adaptive_transfer
  adaptive_stream_copy-Streamed ok_w os fuel s w fueled h =
      let m = read_initial_sample-Sampled E fuel s [] fueled (omega arith) h in
      let (w1, written, added) = ok_w.writes w m.bytes in
      elim (Bool-cases m.is_eos) [
        | inl eos ↦
            let (nothing, short) = m.ended eos in
            let (w2, out, same, all) = ok_w.flushes w1 in
            rw (m.returned, written, eos, out, ends_with s m.bytes _ m.cut nothing)
              (record {
                writer = w2;
                returned = refl;
                content-eq = same ∙ added;
                flushed-eq = λ _. all ∙ sym same;
                unflushed = λ e. absurd (omega arith);
              })
        | inr more ↦ elim (nil_or (bytes_of m.rest)) [
          | inl nothing ↦
              rw
                (
                  m.returned,
                  written,
                  more,
                  copy_loop-ended fuel (plan_of (analyze_traffic_pattern os (length m.bytes) false))
                      m.rest w1 (length m.bytes) (omega (arith, m.less))
                      (plan_pos os (length m.bytes) false) m.healthy nothing,
                  ends_with s m.bytes _ m.cut nothing,
                )
                (record {
                  writer = w1;
                  returned = refl;
                  content-eq = added;
                  flushed-eq = λ other. absurd (other (m.full more));
                  unflushed = λ _. written;
                })
          | inr something ↦
              let d =
                copy_loop-Delivers write_all flush content flushed ok_w fuel
                  (plan_of (analyze_traffic_pattern os (length m.bytes) false)) m.rest w1
                  (length m.bytes) (length m.bytes) (omega (arith, m.less))
                  (plan_pos os (length m.bytes) false) m.healthy (omega arith) (inr something) in
              rw (m.returned, written, more, m.cut)
                (record {
                  writer = d.writer;
                  returned =
                      d.returned
                      ∙ ap (λ n. done (n, d.writer))
                          (sym (length-append m.bytes (bytes_of m.rest)));
                  content-eq =
                      d.content-eq
                      ∙ (ap (λ (t : Bytes). t ++ bytes_of m.rest) added
                          ∙ append_assoc (content w) m.bytes (bytes_of m.rest));
                  flushed-eq = λ _. d.flushed-eq;
                  unflushed = λ e. absurd (
                      omega (
                        arith,
                        length-append m.bytes (bytes_of m.rest),
                        length-nil (bytes_of m.rest) something,
                        m.full more,
                      ));
                })
        ]
      ]

  -- How the copy of TCP streams ends: short streams are copied and flushed, and longer ones fail.
  pub record TcpOutcome (b : Bytes) (w : W) (r : Run (ℕ × W) E) : Type 0 where
    pub short :
        length b < 32768
        → (w' : W) × (r ≡ done (length b, w'))
          × (content w' ≡ content w ++ b)
          × (flushed w' ≡ content w')
    pub long : 32768 ≤ length b → r ≡ forwarding_failed

  -- The copy of TCP streams succeeds for a healthy stream below 32768 bytes, with all of it written
  -- and flushed, and fails for every longer one, whatever splice does. The writer takes what it is
  -- given, and there is more fuel than reads.
  pub adaptive_tcp_stream_copy-TcpOutcome :
      (splice_adaptive : List Event → W → ℕ → Run (ℕ × W) E)
      → IsWriter write_all flush content flushed
      → (fuel : ℕ) (s : List Event) (w : W) → work s < fuel
      → IsHealthy s
      → TcpOutcome
          (bytes_of s)
          w
          (adaptive_tcp_stream_copy write_all flush splice_adaptive fuel s w)
  unfolding adaptive_tcp_stream_copy
  adaptive_tcp_stream_copy-TcpOutcome splice_adaptive ok_w fuel s w fueled h =
      let m = read_initial_sample-Sampled E fuel s [] fueled (omega arith) h in
      let (w1, written, added) = ok_w.writes w m.bytes in
      let (w2, out, same, all) = ok_w.flushes w1 in
      elim (Bool-cases m.is_eos) [
        | inl eos ↦
            let (nothing, less) = m.ended eos in
            rw (m.returned, written, out, eos, ends_with s m.bytes _ m.cut nothing)
              (record {
                short = λ _. (w2, refl, same ∙ added, all ∙ sym same);
                long = λ le. absurd (omega arith);
              })
        | inr more ↦
            let full = m.full more in
            rw (m.returned, written, out, more, m.cut, full)
              (record {
                short = λ lt. absurd (omega (arith, length-append m.bytes (bytes_of m.rest)));
                long = λ _. refl;
              })
      ]
