-- ===== src/Proxy/Copy.antt =====
-- src/proxy/adaptive_copy.rs and src/proxy/adaptive_stream.rs: the copy loops. A
-- reader is the list of what arrives until the end of the stream. A writer is any type with
-- `write_all` and `flush`; tokio's copy and the splice of the kernel are arguments. A count of bytes
-- stands for one below 2^64.
use gsc_fq.Common.{
  ℕ, zero, suc, ◌+◌, ◌-◌, ◌*◌, Bool, true, false, ◌&&◌, ◌||◌, List, [], ◌∷◌, ◌++◌, leb, ltb,
  if◌then◌else◌, Bytes, length, take, drop, ◌==◌,
}
use gsc_fq.Common.Results.{Result, ok, err}
pub mod Source
pub mod Whole
pub mod Stream
pub mod Tests

-- Bytes that arrive, at least one; a read that would block; and an error of the reader.
pub data Event : Type 0 where
  arrives : ℕ → Bytes → Event
  would_block : Event
  breaks : Event

-- What one read returns: bytes, or none of them at the end.
pub data Read : Type 0 where
  got : Bytes → Read
  eof : Read
  blocked : Read
  broken : Read

abbrev pub left : Bytes → List Event → List Event
left [] s = s
left (c ∷ cs) s = arrives c cs ∷ s

-- `read` with a buffer of a size: as much of what has arrived as fits.
unfoldable pub read : ℕ → List Event → Read × List Event
read size [] = (eof, [])
read zero (e ∷ s) = (eof, e ∷ s)
read (suc k) (arrives c cs ∷ s) = (got (c ∷ take k cs), left (drop k cs) s)
read (suc k) (would_block ∷ s) = (blocked, s)
read (suc k) (breaks ∷ s) = (broken, s)

-- How a copy ends: with a value, an error of the writer or of the reader, or out of fuel.
pub data Run (A E : Type 0) : Type 0 where
  done : A → Run A E
  io : E → Run A E
  forwarding_failed : Run A E
  unfinished : Run A E

infixl 5 ◌>>=◌
abbrev pub ◌>>=◌ : {A B E : Type 0} → Run A E → (A → Run B E) → Run B E
done a >>= f = f a
io e >>= f = io e
forwarding_failed >>= f = forwarding_failed
unfinished >>= f = unfinished

abbrev pub lift : {A E : Type 0} → Result A E → Run A E
lift (ok a) = done a
lift (err e) = io e

abbrev pub small_file_threshold : ℕ
small_file_threshold = 262144

-- The system that the program is compiled for.
pub data Os : Type 0 where
  linux macos windows other_system : Os

abbrev pub large_buffer : Os → ℕ
large_buffer linux = 131072
large_buffer macos = 262144
large_buffer windows = 262144
large_buffer other_system = 131072

unfoldable pub optimal_buffer_size : Os → ℕ → ℕ
optimal_buffer_size os n = if ltb n small_file_threshold then 8192 else large_buffer os

abbrev pub initial_sample_size : ℕ
initial_sample_size = 32768

abbrev pub min_buffer_size : ℕ
min_buffer_size = 8192

pub data TransferStrategy : Type 0 where
  small_packet : ℕ → TransferStrategy
  burst_traffic : ℕ → ℕ → TransferStrategy
  continuous_stream : ℕ → ℕ → TransferStrategy

abbrev pub burst_of : Os → TransferStrategy
burst_of linux = burst_traffic 65536 131072
burst_of macos = burst_traffic 131072 262144
burst_of windows = burst_traffic 131072 262144
burst_of other_system = burst_traffic 131072 262144

abbrev pub stream_of : Os → TransferStrategy
stream_of linux = continuous_stream 131072 4194304
stream_of macos = continuous_stream 262144 4194304
stream_of windows = continuous_stream 262144 4194304
stream_of other_system = continuous_stream 262144 4194304

unfoldable pub analyze_traffic_pattern : Os → ℕ → Bool → TransferStrategy
analyze_traffic_pattern os n true = small_packet min_buffer_size
analyze_traffic_pattern os n false =
    if ltb n 16384 then small_packet 16384 else if ltb n 65536 then burst_of os else stream_of os

-- The bytes of the sample so far, whether the stream ended, and the reader behind it.
unfoldable pub read_initial_sample :
    {E : Type 0} → ℕ → List Event → Bytes → Run (Bytes × Bool × List Event) E
unfolding read
read_initial_sample zero s sample = unfinished
read_initial_sample (suc fuel) s sample =
    let (result, s') = read (initial_sample_size - length sample) s in
    elim result [
      | eof ↦ done (sample, true, s')
      | got b ↦
          let more = read_initial_sample fuel s' (sample ++ b) in
          if leb initial_sample_size (length (sample ++ b))
          then done (sample ++ b, false, s')
          else more
      | blocked ↦ read_initial_sample fuel s' sample
      | broken ↦ forwarding_failed
    ]

-- The buffer, the bytes between two flushes, and whether a short read is flushed at once.
pub record Plan : Type 0 where
  pub buffer_size : ℕ
  pub flush_interval : ℕ
  pub frequent : Bool

unfoldable pub plan_of : TransferStrategy → Plan
plan_of (small_packet size) = record { buffer_size = size; flush_interval = size; frequent = true }
plan_of (burst_traffic size interval) = record {
  buffer_size = size;
  flush_interval = interval;
  frequent = true;
}
plan_of (continuous_stream size interval) = record {
  buffer_size = size;
  flush_interval = interval;
  frequent = false;
}

unfoldable pub should_flush : Plan → ℕ → ℕ → ℕ → Bool
should_flush p n total last =
    leb p.flush_interval (total - last) || (p.frequent && ltb n p.buffer_size)

module _ {W E : Type 0} (write_all : W → Bytes → Result W E) (flush : W → Result W E) where
  -- `flush` if there is reason to, with the count of bytes that are flushed.
  unfoldable pub flush_if : Bool → W → ℕ → ℕ → Run (W × ℕ) E
  flush_if true w total last = lift (flush w) >>= λ w'. done (w', total)
  flush_if false w total last = done (w, last)

  unfoldable pub copy_loop : ℕ → Plan → List Event → W → ℕ → ℕ → Run (ℕ × W) E
  unfolding read should_flush flush_if
  copy_loop zero p s w total last = unfinished
  copy_loop (suc fuel) p s w total last =
      let (result, s') = read p.buffer_size s in
      elim result [
        | eof ↦ flush_if (ltb last total) w total last >>= λ (w', _). done (total, w')
        | got b ↦ lift (write_all w b) >>= λ w1.
            flush_if (should_flush p (length b) (total + length b) last) w1 (total + length b) last
            >>= λ (w2, last'). copy_loop fuel p s' w2 (total + length b) last'
        | blocked ↦ copy_loop fuel p s' w total last
        | broken ↦ forwarding_failed
      ]

  unfoldable pub execute_adaptive_transfer :
      ℕ → List Event → W → TransferStrategy → ℕ → Run (ℕ × W) E
  unfolding copy_loop plan_of
  execute_adaptive_transfer fuel s w strategy total =
      copy_loop fuel (plan_of strategy) s w total total

  unfoldable pub bulk_copy_optimized : ℕ → List Event → W → ℕ → Run (ℕ × W) E
  unfolding copy_loop
  bulk_copy_optimized fuel s w size =
      let interval = if leb 262144 size then 4194304 else 2097152 in
      let plan : Plan = record { buffer_size = size; flush_interval = interval; frequent = true } in
      copy_loop fuel plan s w 0 0

  unfoldable pub adaptive_copy :
      (List Event → W → Result (ℕ × W) E) → Os → ℕ → List Event → W → ℕ → Run (ℕ × W) E
  unfolding optimal_buffer_size bulk_copy_optimized
  adaptive_copy io_copy os fuel s w estimated_size =
      let size = optimal_buffer_size os estimated_size in
      if size == 8192
      then (lift (io_copy s w) >>= λ (n, w'). lift (flush w') >>= λ w2. done (n, w2))
      else bulk_copy_optimized fuel s w size

  unfoldable pub adaptive_stream_copy : Os → ℕ → List Event → W → Run (ℕ × W) E
  unfolding read_initial_sample execute_adaptive_transfer analyze_traffic_pattern
  adaptive_stream_copy os fuel s w = read_initial_sample fuel s [] >>= λ (sample, is_eos, s').
      lift (write_all w sample) >>= λ w1.
      if is_eos
      then (lift (flush w1) >>= λ w2. done (length sample, w2))
      else execute_adaptive_transfer fuel s' w1 (analyze_traffic_pattern os (length sample) is_eos)
          (length sample)

  -- For Linux alone.
  unfoldable pub adaptive_tcp_stream_copy :
      (List Event → W → ℕ → Run (ℕ × W) E) → ℕ → List Event → W → Run (ℕ × W) E
  unfolding read_initial_sample
  adaptive_tcp_stream_copy splice_adaptive fuel s w =
      read_initial_sample fuel s [] >>= λ (sample, is_eos, s'). lift (write_all w sample) >>= λ w1.
      lift (flush w1) >>= λ w2.
      if is_eos
      then done (length sample, w2)
      else if leb 65536 (length sample)
      then (splice_adaptive s' w2 (length sample) >>= λ (n, w'). done (n + length sample, w'))
      else forwarding_failed
