-- ===== src/Proxy/QualityAware.antt =====
-- src/proxy/quality_aware_connection.rs: a connection with its metrics, and the two probes of it. The
-- socket is a parameter: what `try_read` of a byte answers, and the bytes that have arrived on it.
use gsc_fq.Common.{ℕ, Bool, true, false, ◌≡◌, refl, List, [], ◌∷◌, Bytes, ap}
use gsc_fq.Common.Results.{Result, ok, err}
use gsc_fq.Proxy.Metrics.{Float, ConnectionMetrics, calculate_quality_score}
use gsc_fq.Proxy.Metrics
mod Tests

-- Some bytes, none at the end of the stream, `WouldBlock`, or another error.
pub data Tried : Type 0 where
  read : Bytes → Tried
  would_block : Tried
  failed : Bytes → Tried

pub record Socket (S : Type 0) : Type 0 where
  pub try_read : S → Tried × S
  pub arrived : S → Bytes

pub record QualityAwareConnection (S F : Type 0) : Type 0 where
  pub stream : S
  pub metrics : ConnectionMetrics F
  pub connection_id : Bytes

module _ {S F : Type 0} (f : Float F) where
  -- With the clock and a new identifier.
  pub new : S → ℕ → Bytes → QualityAwareConnection S F
  unfolding Metrics.new
  new stream now id = record { stream = stream; metrics = Metrics.new f now; connection_id = id }

  pub quality_score : QualityAwareConnection S F → ℕ
  unfolding calculate_quality_score
  quality_score c = calculate_quality_score f c.metrics

abbrev elapsed_of : Tried → ℕ → Result ℕ Bytes
elapsed_of (read bytes) elapsed = ok elapsed
elapsed_of would_block elapsed = ok elapsed
elapsed_of (failed e) elapsed = err e

abbrev alive_of : Tried → Bool
alive_of (read bytes) = true
alive_of would_block = true
alive_of (failed e) = false

-- What is documented of a read of one byte: it takes the first byte that has arrived, and where the
-- peer has closed behind the last it reads nothing.
pub record IsSocket {S : Type 0} (socket : Socket S) : Type 0 where
  pub takes :
      (s : S) (b : ℕ) (bs : Bytes)
      → socket.arrived s ≡ b ∷ bs
      → (t : S) × (socket.try_read s ≡ (read (b ∷ []), t)) × (socket.arrived t ≡ bs)

module _ {S F : Type 0} (socket : Socket S) where
  -- With the time that the call took.
  unfoldable pub measure_rtt :
      QualityAwareConnection S F → ℕ → QualityAwareConnection S F × Result ℕ Bytes
  measure_rtt c elapsed =
      let (tried, stream) = socket.try_read c.stream in
      (record c { stream = stream }, elapsed_of tried elapsed)

  unfoldable pub is_alive : QualityAwareConnection S F → QualityAwareConnection S F × Bool
  is_alive c =
      let (tried, stream) = socket.try_read c.stream in
      (record c { stream = stream }, alive_of tried)

  -- Each probe of a connection on which data wait takes a byte of them, which nothing hands on.
  probes-take :
      (c : QualityAwareConnection S F) (elapsed b : ℕ) (bs : Bytes)
      → IsSocket socket
      → socket.arrived c.stream ≡ b ∷ bs
      → (socket.arrived (measure_rtt c elapsed).0.stream ≡ bs)
        × ((measure_rtt c elapsed).1 ≡ ok elapsed)
        × (socket.arrived (is_alive c).0.stream ≡ bs)
        × ((is_alive c).1 ≡ true)
  unfolding measure_rtt is_alive
  probes-take c elapsed b bs lawful waits =
      let (t, tried, left) = lawful.takes c.stream b bs waits in rw tried (left, refl, left, refl)

  -- A connection that its peer has closed still passes for alive.
  is_alive-closed :
      (c : QualityAwareConnection S F) (t : S)
      → socket.try_read c.stream ≡ (read [], t)
      → (is_alive c).1 ≡ true
  unfolding is_alive
  is_alive-closed c t closed = rw closed refl
