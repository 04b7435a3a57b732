-- ===== src/Crypto/Stream/Exchange.antt =====
-- src/crypto/stream_cipher.rs: what a receiver gets of the messages of a sender.
use gsc_fq.Common.{
  ℕ, ◌+◌, ◌%◌, ◌^◌, ◌<◌, ◌≡◌, ◌≢◌, refl, sym, ap, ◌∙◌, Option, none, some, [], ◌++◌, arith, Bytes,
  length, take, length-append, append_assoc, take-append, append-nil,
}
use mathlib.Core.Path.{subst}
use gsc_fq.Common.Results.{Result, ok, err, ◌>>=◌}
use gsc_fq.Common.Wire.{be32, le64, from_be32-be32, read_exact-append, le64_inj, length-le64}
use gsc_fq.Crypto.Stream.{
  Aead, StreamError, crypto_error, EncryptedStream, zeros_16, key_nonce, generate_nonce,
  create_associated_data, write_message, encrypt, decrypt, encrypt_send, fill_read_buffer,
  or_crypto,
}

-- The cipher opens what it sealed, and nothing under other associated data.
pub record IsAead (aead : Aead) : Type 0 where
  pub opens : (n a p : Bytes) → aead.open_in_place n a (aead.seal_in_place n a p) ≡ some p
  pub authentic :
      (n a b p : Bytes) → a ≢ b → aead.open_in_place n b (aead.seal_in_place n a p) ≡ none

-- The bytes of one message.
pub message : Bytes → Bytes → Bytes
message nonce encrypted =
    be32 (length nonce % 2 ^ 32) ++ (nonce ++ (be32 (length encrypted % 2 ^ 32) ++ encrypted))

-- What a stream has to read when these bytes come first.
abbrev pub reading : EncryptedStream → Bytes → EncryptedStream
reading s bytes = record s { incoming = bytes }

-- The stream when the bytes behind a message are `rest` and this came of the message.
abbrev landed : EncryptedStream → Bytes → Option Bytes → Result EncryptedStream StreamError
landed r rest none = err crypto_error
landed r rest (some decrypted) =
    ok (record r { incoming = rest; read_buffer = decrypted; read_pos = 0 })

fill_read_buffer-message :
    (aead : Aead) (r : EncryptedStream) (nonce encrypted rest : Bytes)
    → length nonce < 2 ^ 32
    → length encrypted < 2 ^ 32
    → fill_read_buffer aead (reading r (message nonce encrypted ++ rest))
      ≡ landed r rest (decrypt aead r.nonce_sequence encrypted (create_associated_data r nonce))
unfolding fill_read_buffer message create_associated_data
fill_read_buffer-message aead r nonce encrypted rest small short =
    let n : length nonce % 2 ^ 32 ≡ length nonce = omega arith in
    let m : length encrypted % 2 ^ 32 ≡ length encrypted = omega arith in
    rw
      (
        n,
        m,
        append_assoc nonce (be32 (length encrypted) ++ encrypted) rest,
        read_exact-append (be32 (length nonce))
            (nonce ++ (be32 (length encrypted) ++ (encrypted ++ rest))) 4 refl,
        from_be32-be32 (length nonce) (omega arith),
        read_exact-append nonce (be32 (length encrypted) ++ (encrypted ++ rest)) (length nonce)
            refl,
        read_exact-append (be32 (length encrypted)) (encrypted ++ rest) 4 refl,
        from_be32-be32 (length encrypted) (omega arith),
        read_exact-append encrypted rest (length encrypted) refl,
      )
      (landed-lem (decrypt aead r.nonce_sequence encrypted (create_associated_data r nonce)))
  where
    landed-lem :
        (o : Option Bytes)
        → (or_crypto o >>= λ d. ok (record r { incoming = rest; read_buffer = d; read_pos = 0 }))
          ≡ landed r rest o
    landed-lem none = refl
    landed-lem (some d) = refl

-- What a sender seals for a message.
unfoldable pub sealed : Aead → EncryptedStream → Bytes → Bytes → Bytes
unfolding create_associated_data generate_nonce
sealed aead s random bytes =
    encrypt aead s.nonce_sequence bytes (create_associated_data s (generate_nonce s random))

-- Four random bytes, and a sealed message whose length fits its field.
unfoldable pub Fits : Aead → EncryptedStream → Bytes → Bytes → Type 0
unfolding sealed
Fits aead s random bytes = (length random ≡ 4) × (length (sealed aead s random bytes) < 2 ^ 32)

-- The bytes that a sender adds to its connection for one message.
pub wire : Aead → EncryptedStream → Bytes → Bytes → Bytes
unfolding message sealed generate_nonce
wire aead s random bytes = message (generate_nonce s random) (sealed aead s random bytes)

pub encrypt_send-wire :
    (aead : Aead) (s : EncryptedStream) (random bytes : Bytes)
    → (encrypt_send aead s random bytes).outgoing ≡ s.outgoing ++ wire aead s random bytes
unfolding wire message sealed encrypt_send write_message
encrypt_send-wire aead s random bytes = refl

nonce-small :
    (s : EncryptedStream) (random : Bytes)
    → length random ≡ 4
    → length (generate_nonce s random) < 2 ^ 32
unfolding generate_nonce
nonce-small s random four =
    omega (arith, length-append (le64 s.message_counter) random, length-le64 s.message_counter)

-- What a receiver reads of one message that a sender wrote.
received :
    (aead : Aead) (s r : EncryptedStream) (random bytes rest : Bytes)
    → Fits aead s random bytes
    → fill_read_buffer aead (reading r (wire aead s random bytes ++ rest))
      ≡ landed r rest (
          decrypt aead r.nonce_sequence
            (sealed aead s random bytes)
            (create_associated_data r (generate_nonce s random)))
unfolding Fits wire
received aead s r random bytes rest (four, short) =
    fill_read_buffer-message aead r (generate_nonce s random) (sealed aead s random bytes) rest
      (nonce-small s random four) short

opened :
    (aead : Aead) (random bytes : Bytes) (s r : EncryptedStream)
    → IsAead aead
    → r.nonce_sequence ≡ s.nonce_sequence
    → r.message_counter ≡ s.message_counter
    → decrypt aead r.nonce_sequence
        (sealed aead s random bytes)
        (create_associated_data r (generate_nonce s random))
      ≡ some (bytes ++ zeros_16)
unfolding sealed encrypt decrypt create_associated_data
opened aead random bytes s r lawful k c =
    rw (k, c)
      (lawful.opens (key_nonce s.nonce_sequence) (le64 s.message_counter ++ generate_nonce s random)
        (bytes ++ zeros_16))

-- A receiver with the counter and the key of the sender reads a message as its text followed by
-- sixteen zero bytes, when the cipher opens what it sealed, the nonce has four random bytes and the
-- sealed length fits 32 bits.
pub fill_read_buffer-padded :
    (aead : Aead) (s r : EncryptedStream) (random bytes rest : Bytes)
    → IsAead aead
    → Fits aead s random bytes
    → r.nonce_sequence ≡ s.nonce_sequence
    → r.message_counter ≡ s.message_counter
    → fill_read_buffer aead (reading r (wire aead s random bytes ++ rest))
      ≡ ok (record r { incoming = rest; read_buffer = bytes ++ zeros_16; read_pos = 0 })
fill_read_buffer-padded aead s r random bytes rest lawful fits same_key same_counter =
    received aead s r random bytes rest fits
    ∙ ap (landed r rest) (opened aead random bytes s r lawful same_key same_counter)

counters :
    (m n : ℕ) (nonce : Bytes)
    → m < 2 ^ 64
    → n < 2 ^ 64
    → m ≢ n
    → (le64 m ++ nonce) ≢ (le64 n ++ nonce)
counters m n nonce hm hn d e = d (
    le64_inj m n hm hn (
      sym (take-append (le64 m) nonce)
      ∙ (ap (take (length (le64 m))) e
          ∙ (ap (λ k. take k (le64 n ++ nonce)) (length-le64 m ∙ sym (length-le64 n))
              ∙ take-append (le64 n) nonce))))

refused :
    (aead : Aead) (random bytes : Bytes) (s r : EncryptedStream)
    → IsAead aead
    → r.nonce_sequence ≡ s.nonce_sequence
    → s.message_counter < 2 ^ 64
    → r.message_counter < 2 ^ 64
    → r.message_counter ≢ s.message_counter
    → decrypt aead r.nonce_sequence
        (sealed aead s random bytes)
        (create_associated_data r (generate_nonce s random))
      ≡ none
unfolding sealed encrypt decrypt create_associated_data
refused aead random bytes s r lawful k hs hr d = rw k (
    lawful.authentic (key_nonce s.nonce_sequence)
      (le64 s.message_counter ++ generate_nonce s random)
      (le64 r.message_counter ++ generate_nonce s random) (bytes ++ zeros_16)
      (counters s.message_counter r.message_counter (generate_nonce s random) hs hr
        (λ e. d (sym e))))

-- A receiver whose counter is not that of the sender at the message cannot read it.
pub fill_read_buffer-refused :
    (aead : Aead) (s r : EncryptedStream) (random bytes rest : Bytes)
    → IsAead aead
    → Fits aead s random bytes
    → r.nonce_sequence ≡ s.nonce_sequence
    → s.message_counter < 2 ^ 64
    → r.message_counter < 2 ^ 64
    → r.message_counter ≢ s.message_counter
    → fill_read_buffer aead (reading r (wire aead s random bytes ++ rest)) ≡ err crypto_error
fill_read_buffer-refused aead s r random bytes rest lawful fits same_key hs hr differ =
    received aead s r random bytes rest fits
    ∙ ap (landed r rest) (refused aead random bytes s r lawful same_key hs hr differ)

pub encrypt_send-next :
    (aead : Aead) (s : EncryptedStream) (random bytes : Bytes)
    → ((encrypt_send aead s random bytes).nonce_sequence ≡ s.nonce_sequence)
      × ((encrypt_send aead s random bytes).message_counter ≡ (s.message_counter + 1) % 2 ^ 64)
unfolding encrypt_send write_message
encrypt_send-next aead s random bytes = (refl, refl)

-- Of two messages sent one after the other, a receiver whose counter and key are those of the
-- sender reads the first, and the next read fails with the error of the cipher, when the cipher
-- opens what it sealed and authenticates its associated data, a nonce has four random bytes, sealed
-- lengths fit 32 bits and the counter fits 64.
pub second_message_fails :
    (aead : Aead) (s r : EncryptedStream) (random random' first second : Bytes)
    → IsAead aead
    → Fits aead s random first
    → Fits aead (encrypt_send aead s random first) random' second
    → r.nonce_sequence ≡ s.nonce_sequence
    → r.message_counter ≡ s.message_counter
    → s.message_counter < 2 ^ 64
    → (r' : EncryptedStream) × (fill_read_buffer aead (
          reading r (
            wire aead s random first
            ++ wire aead (encrypt_send aead s random first) random' second))
        ≡ ok r')
      × (fill_read_buffer aead r' ≡ err crypto_error)
second_message_fails aead s r random random' first second lawful fits fits' same_key same_counter
      bound =
    let sent = encrypt_send aead s random first in
    let (key, counter) = encrypt_send-next aead s random first in
    let r' = record r {
      incoming = wire aead sent random' second;
      read_buffer = first ++ zeros_16;
      read_pos = 0;
    } in
    (
      r',
      fill_read_buffer-padded aead s r random first (wire aead sent random' second) lawful fits
          same_key same_counter,
      subst (λ bytes. fill_read_buffer aead (reading r' bytes) ≡ err crypto_error)
          (append-nil (wire aead sent random' second))
          (fill_read_buffer-refused aead sent r' random' second [] lawful fits' (same_key ∙ sym key)
            (omega arith) (omega arith) (λ e. omega (arith, e))),
    )
