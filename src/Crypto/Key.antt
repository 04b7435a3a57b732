-- ===== src/Crypto/Key.antt =====
-- src/crypto/mod.rs (`EncryptionKey`, `cpu_features`) and src/crypto/handshake.rs: the key that both
-- ends derive from the token and the hash of the configuration. SHA-256 and the cipher of `ring` are
-- parameters, and so is how a number is written.
use gsc_fq.Common.{ℕ, ◌≡◌, ap, Bool, ◌++◌, if◌then◌else◌, Bytes, codes}
use gsc_fq.Crypto.Stream.{Aead}

pub record Ring : Type 0 where
  pub sha256 : Bytes → Bytes
  pub aes_256_gcm : Bytes → Aead

pub record EncryptionKey : Type 0 where
  pub key : Aead
  pub nonce_sequence : ℕ

pub record ClientHandshake : Type 0 where
  pub auth_token : Bytes
  pub config_hash : Bytes

pub record HandshakeResult : Type 0 where
  pub encryption_key : EncryptionKey
  pub session_id : Bytes
  pub algorithm_used : Bytes
  pub supports_aes_ni : Bool
  pub handshake_time_ms : ℕ

-- What follows from the answer of `has_aes_ni`.
pub optimal_cipher_suite : Bool → Bytes
optimal_cipher_suite has_aes_ni =
    if has_aes_ni
    then codes "TLS_AES_256_GCM_SHA384 (AES-NI hardware acceleration)"
    else codes "TLS_AES_128_GCM_SHA256 (ChaCha20 fallback for ARM/no-AES)"

pub optimal_algorithm : Bool → Bytes
optimal_algorithm has_aes_ni =
    if has_aes_ni
    then codes "AES-256-GCM-SIV (hardware accelerated)"
    else codes "ChaCha20-Poly1305 (software optimized)"

-- The throughput in MB/s and the handshakes per second.
pub get_performance_characteristics : Bool → ℕ × ℕ × Bytes
get_performance_characteristics has_aes_ni =
    if has_aes_ni
    then (305, 1300, codes "AES-NI hardware acceleration")
    else (275, 1100, codes "software optimized")

module _ (ring : Ring) where
  -- Of 32 random bytes.
  pub generate : Bytes → EncryptionKey
  generate key_bytes = record { key = ring.aes_256_gcm key_bytes; nonce_sequence = 0 }

  pub from_shared_secret : Bytes → Bytes → EncryptionKey
  from_shared_secret token config = record {
    key = ring.aes_256_gcm (ring.sha256 (token ++ config));
    nonce_sequence = 0;
  }

  -- At a time in seconds, with a random number, and with the milliseconds that it took.
  pub perform_handshake : (ℕ → Bytes) → Bool → ℕ → ℕ → ℕ → ClientHandshake → HandshakeResult
  unfolding from_shared_secret optimal_algorithm
  perform_handshake show has_aes_ni secs random elapsed c = record {
    encryption_key = from_shared_secret c.auth_token c.config_hash;
    session_id = codes "session_" ++ (show secs ++ (codes "_" ++ show random));
    algorithm_used = optimal_algorithm has_aes_ni;
    supports_aes_ni = has_aes_ni;
    handshake_time_ms = elapsed;
  }

  -- Whenever and wherever two clients shake hands, if a token with its hash behind it reads like
  -- the other, what one of them seals under a nonce the other opens, and the same text is sealed
  -- alike: neither a session nor a boundary between token and hash enters the key.
  perform_handshake-same_key :
      (show : ℕ → Bytes) (aes_ni aes_ni' : Bool) (secs secs' random random' elapsed elapsed' : ℕ)
      (c d : ClientHandshake)
      → c.auth_token ++ c.config_hash ≡ d.auth_token ++ d.config_hash
      → (perform_handshake show aes_ni secs random elapsed c).encryption_key
        ≡ (perform_handshake show aes_ni' secs' random' elapsed' d).encryption_key
  unfolding perform_handshake from_shared_secret
  perform_handshake-same_key show aes_ni aes_ni' secs secs' random random' elapsed elapsed' c d e =
      ap (λ bytes. record { key = ring.aes_256_gcm (ring.sha256 bytes); nonce_sequence = 0 }) e
