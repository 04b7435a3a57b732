-- ===== src/Crypto/Stream.antt =====
-- src/crypto/mod.rs (`EncryptionKey`) and src/crypto/stream_cipher.rs: the encrypted stream. The
-- cipher of `ring` under one key is a parameter; a stream is the bytes to be read and written. What is
-- sealed is within the cipher's limit, so that sealing does not fail, and the connection takes every
-- byte that is written: the error of seal_in_place_append_tag and those of the writes are left out.
use gsc_fq.Common.{
  ℕ, ◌+◌, ◌-◌, ◌%◌, ◌^◌, ◌≤◌, min, Option, none, some, List, [], ◌∷◌, ◌++◌, arith, leb,
  if◌then◌else◌, Bytes, length, take, drop,
}
use gsc_fq.Common.Results.{Result, ok, err, ◌>>=◌}
use gsc_fq.Common.Wire.{be32, le64, from_be32, read_exact}
pub mod Exchange
pub mod Control
pub mod Tests

-- `seal_in_place_append_tag` and `open_in_place`, each of a nonce, the associated data and bytes.
pub record Aead : Type 0 where
  pub seal_in_place : Bytes → Bytes → Bytes → Bytes
  pub open_in_place : Bytes → Bytes → Bytes → Option Bytes

pub data StreamError : Type 0 where
  io_error : StreamError
  crypto_error : StreamError

pub record EncryptedStream : Type 0 where
  pub incoming : Bytes
  pub outgoing : Bytes
  pub nonce_sequence : ℕ
  pub read_buffer : Bytes
  pub read_pos : ℕ
  pub message_counter : ℕ

-- A new stream on a connection that has these bytes to read, with a new key.
unfoldable pub new : Bytes → EncryptedStream
new incoming = record {
  incoming = incoming;
  outgoing = [];
  nonce_sequence = 0;
  read_buffer = [];
  read_pos = 0;
  message_counter = 0;
}

abbrev pub zeros_16 : Bytes
zeros_16 = 0 ∷ 0 ∷ 0 ∷ 0 ∷ 0 ∷ 0 ∷ 0 ∷ 0 ∷ 0 ∷ 0 ∷ 0 ∷ 0 ∷ 0 ∷ 0 ∷ 0 ∷ 0 ∷ []

-- `EncryptionKey::generate_nonce`, which no call advances.
pub key_nonce : ℕ → Bytes
key_nonce nonce_sequence = 0 ∷ 0 ∷ 0 ∷ 0 ∷ le64 nonce_sequence

-- The nonce of a message: the counter and four random bytes.
pub generate_nonce : EncryptedStream → Bytes → Bytes
generate_nonce s random = le64 s.message_counter ++ random

pub create_associated_data : EncryptedStream → Bytes → Bytes
create_associated_data s nonce = le64 s.message_counter ++ nonce

abbrev pub or_io {ℓ} : {A : Type ℓ} → Option A → Result A StreamError
or_io none = err io_error
or_io (some a) = ok a

abbrev pub or_crypto {ℓ} : {A : Type ℓ} → Option A → Result A StreamError
or_crypto none = err crypto_error
or_crypto (some a) = ok a

-- The four writes of one message, and the counter after them.
pub write_message : EncryptedStream → Bytes → Bytes → EncryptedStream
write_message s nonce encrypted = record s {
  outgoing =
      s.outgoing
      ++ (be32 (length nonce % 2 ^ 32)
          ++ (nonce ++ (be32 (length encrypted % 2 ^ 32) ++ encrypted)));
  message_counter = (s.message_counter + 1) % 2 ^ 64;
}

module _ (aead : Aead) where
  -- The copy is resized by the tag's length before the tag is appended to it.
  pub encrypt : ℕ → Bytes → Bytes → Bytes
  unfolding key_nonce
  encrypt nonce_sequence plaintext associated =
      aead.seal_in_place (key_nonce nonce_sequence) associated (plaintext ++ zeros_16)

  pub decrypt : ℕ → Bytes → Bytes → Option Bytes
  unfolding key_nonce
  decrypt nonce_sequence ciphertext associated =
      aead.open_in_place (key_nonce nonce_sequence) associated ciphertext

  pub encrypt_send : EncryptedStream → Bytes → Bytes → EncryptedStream
  unfolding generate_nonce create_associated_data encrypt write_message
  encrypt_send s random bytes =
      let nonce = generate_nonce s random in
      let associated = create_associated_data s nonce in
      write_message s nonce (encrypt s.nonce_sequence bytes associated)

  -- A message type and a payload are sent as one message.
  pub send_control_message : EncryptedStream → Bytes → ℕ → Bytes → EncryptedStream
  unfolding encrypt_send
  send_control_message s random message_type payload =
      encrypt_send s random (message_type ∷ payload)

  pub fill_read_buffer : EncryptedStream → Result EncryptedStream StreamError
  unfolding create_associated_data decrypt
  fill_read_buffer s = do
    (nonce_len, s1) ← or_io (read_exact 4 s.incoming)
    (nonce, s2) ← or_io (read_exact (from_be32 nonce_len) s1)
    (data_len, s3) ← or_io (read_exact 4 s2)
    (encrypted, s4) ← or_io (read_exact (from_be32 data_len) s3)
    decrypted ← or_crypto (decrypt s.nonce_sequence encrypted (create_associated_data s nonce))
    ok (record s { incoming = s4; read_buffer = decrypted; read_pos = 0 })

  -- The copy into a buffer of `n` bytes.
  pub copy_out : ℕ → EncryptedStream → EncryptedStream × Bytes
  copy_out n s =
      let to_copy = min (length s.read_buffer - s.read_pos) n in
      (record s { read_pos = s.read_pos + to_copy }, take to_copy (drop s.read_pos s.read_buffer))

  -- The stream after the read and the bytes copied.
  pub decrypt_receive : EncryptedStream → ℕ → Result (EncryptedStream × Bytes) StreamError
  unfolding fill_read_buffer copy_out
  decrypt_receive s n = do
    let filled = fill_read_buffer s
    s' ← if leb (length s.read_buffer) s.read_pos then filled else ok s
    ok (copy_out n s')
