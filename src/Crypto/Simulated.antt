-- ===== src/Crypto/Simulated.antt =====
-- src/crypto/mod.rs and src/crypto/stream_cipher.rs: the two metrics of encryption, and the connection
-- of mod.rs that simulates handshakes and transfers. `F` with its operations is f64; the microseconds
-- by which a sleep was late are an argument. Sums of u64 wrap.
use gsc_fq.Common.{
  ℕ, zero, suc, ◌+◌, ◌/◌, ◌%◌, ◌^◌, ◌≤◌, ◌<◌, ◌≡◌, refl, Bool, Option, none, some, [], ◌++◌, arith,
  min, leb, ltb, ◌==◌, ◌||◌, if◌then◌else◌, Bytes, codes, length, take, get_elem?,
}
mod Totals

pub record Float (F : Type 0) : Type 0 where
  pub of_nat : ℕ → F
  pub mul : F → F → F
  pub div : F → F → F

abbrev pub add_u64 : ℕ → ℕ → ℕ
add_u64 a b = (a + b) % 2 ^ 64

-- Those of mod.rs.
pub record ConnectionMetrics (F : Type 0) : Type 0 where
  pub handshakes_completed : ℕ
  pub bytes_encrypted : ℕ
  pub bytes_decrypted : ℕ
  pub total_handshake_time_us : ℕ
  pub cpu_utilization_percent : F

-- Those of stream_cipher.rs.
pub record StreamMetrics (F : Type 0) : Type 0 where
  pub messages_encrypted : ℕ
  pub messages_decrypted : ℕ
  pub bytes_encrypted : ℕ
  pub bytes_decrypted : ℕ
  pub encryption_time_ms : ℕ
  pub decryption_time_ms : ℕ
  pub cpu_utilization_percent : F

pub record EncryptedConnection (F : Type 0) : Type 0 where
  pub name : Bytes
  pub metrics : ConnectionMetrics F
  pub has_aes_ni : Bool

-- `str::is_char_boundary` on UTF-8, at an index within the text.
abbrev pub is_char_boundary : Bytes → ℕ → Bool
is_char_boundary s i = elim (get_elem? s i) [
  | none ↦ i == length s
  | some b ↦ ltb b 128 || leb 192 b
]

-- The latency that a handshake sleeps, with a random number.
unfoldable pub handshake_time : Bool → ℕ → ℕ
handshake_time has_aes_ni random = (if has_aes_ni then 500 else 1200) + random % 200

module _ {F : Type 0} (f : Float F) where
  -- Megabits per second, of bytes in milliseconds.
  abbrev pub rate : ℕ → ℕ → F
  rate total_bytes ms =
      f.div
        (f.div (f.mul (f.of_nat total_bytes) (f.of_nat 8)) (f.div (f.of_nat ms) (f.of_nat 1000)))
        (f.of_nat 1000000)

  pub throughput_mbps : ConnectionMetrics F → ℕ → F
  throughput_mbps m elapsed =
      if elapsed == 0
      then f.of_nat 0
      else rate (add_u64 m.bytes_encrypted m.bytes_decrypted) elapsed

  pub handshake_rate : ConnectionMetrics F → ℕ → F
  handshake_rate m elapsed =
      if elapsed == 0
      then f.of_nat 0
      else f.div (f.of_nat m.handshakes_completed) (f.div (f.of_nat elapsed) (f.of_nat 1000))

  unfoldable pub avg_handshake_time_us : ConnectionMetrics F → ℕ
  avg_handshake_time_us m =
      if m.handshakes_completed == 0 then 0 else m.total_handshake_time_us / m.handshakes_completed

  pub new_stream_metrics : StreamMetrics F
  new_stream_metrics = record {
    messages_encrypted = 0;
    messages_decrypted = 0;
    bytes_encrypted = 0;
    bytes_decrypted = 0;
    encryption_time_ms = 0;
    decryption_time_ms = 0;
    cpu_utilization_percent = f.of_nat 0;
  }

  pub stream_throughput_mbps : StreamMetrics F → F
  stream_throughput_mbps m =
      let total = add_u64 m.encryption_time_ms m.decryption_time_ms in
      if total == 0 then f.of_nat 0 else rate (add_u64 m.bytes_encrypted m.bytes_decrypted) total

  unfoldable pub new : Bool → Bytes → EncryptedConnection F
  new has_aes_ni name = record {
    name = name;
    metrics = record {
      handshakes_completed = 0;
      bytes_encrypted = 0;
      bytes_decrypted = 0;
      total_handshake_time_us = 0;
      cpu_utilization_percent = f.of_nat 0;
    };
    has_aes_ni = has_aes_ni;
  }

  -- The first eight bytes of the token are in the name; `none` is the panic where these cut a
  -- character.
  unfoldable pub create_client_with_token : Bool → Bytes → Option (EncryptedConnection F)
  unfolding new
  create_client_with_token has_aes_ni token =
      let n = min 8 (length token) in
      if is_char_boundary token n
      then some (new has_aes_ni (codes "TLS-Client-" ++ take n token))
      else none

  abbrev stem_or_unknown : Option Bytes → Bytes
  stem_or_unknown none = codes "unknown"
  stem_or_unknown (some stem) = stem

  -- With the stem of the file, if its path has one.
  pub create_server_with_cert : Bool → Option Bytes → EncryptedConnection F
  unfolding new
  create_server_with_cert has_aes_ni stem =
      new has_aes_ni (codes "TLS-Server-" ++ stem_or_unknown stem)

  -- With a random number and the lateness of the sleep.
  unfoldable pub simulate_handshake : ℕ × ℕ → EncryptedConnection F → EncryptedConnection F
  simulate_handshake (random, late) c = record c {
    metrics = record (c.metrics) {
      handshakes_completed = add_u64 c.metrics.handshakes_completed 1;
      total_handshake_time_us =
          add_u64 c.metrics.total_handshake_time_us
            ((handshake_time c.has_aes_ni random + late) % 2 ^ 64);
    };
  }

  pub simulate_data_transfer : ℕ → EncryptedConnection F → EncryptedConnection F
  simulate_data_transfer bytes c = record c {
    metrics = record (c.metrics) {
      bytes_encrypted = add_u64 c.metrics.bytes_encrypted bytes;
      bytes_decrypted = add_u64 c.metrics.bytes_decrypted bytes;
    };
  }

  -- The loop of the benchmark, with the random number and the lateness of each handshake.
  unfoldable pub handshakes : ℕ → (ℕ → ℕ × ℕ) → EncryptedConnection F → EncryptedConnection F
  unfolding simulate_handshake
  handshakes zero times c = c
  handshakes (suc n) times c = simulate_handshake (times n) (handshakes n times c)

  -- `none` is the panic of the division by no iterations.
  unfoldable pub benchmark_handshakes : Bool → ℕ → (ℕ → ℕ × ℕ) → Option (ConnectionMetrics F)
  unfolding handshakes create_client_with_token
  benchmark_handshakes has_aes_ni iterations times =
      elim (create_client_with_token has_aes_ni (codes "benchmark")) [
        | none ↦ none
        | some c ↦ if iterations == 0 then none else some (handshakes iterations times c).metrics
      ]
