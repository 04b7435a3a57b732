-- ===== src/Crypto/Stream/Control.antt =====
-- src/crypto/stream_cipher.rs: `receive_control_message`, and the reads and writes of the stream as an
-- `AsyncRead` and `AsyncWrite`, which block until they are done.
use gsc_fq.Common.{
  ℕ, zero, suc, ◌+◌, ◌-◌, ◌^◌, ◌≤◌, ◌<◌, ◌≡◌, refl, sym, ◌∙◌, min, inl, inr, Bool-cases, Option,
  none, some, [], ◌∷◌, ◌++◌, arith, leb, le→leb, leb→le, lt→not-leb, Bytes, length, drop,
  length-take, length-drop, length-append, append-nil,
}
use mathlib.Core.Path.{subst}
use gsc_fq.Common.Results.{Result, ok, err, map_err}
use gsc_fq.Common.Wire.{read_exact}
use gsc_fq.Crypto.Stream.{
  Aead, StreamError, io_error, crypto_error, EncryptedStream, zeros_16, encrypt_send,
  send_control_message, fill_read_buffer, copy_out, decrypt_receive,
}
use gsc_fq.Crypto.Stream.Exchange.{
  IsAead, Fits, wire, reading, fill_read_buffer-padded, fill_read_buffer-refused, encrypt_send-next,
}

-- `io::ErrorKind::Other`, around an error of the stream.
pub data IoError : Type 0 where
  other : StreamError → IoError

module _ (aead : Aead) where
  -- The stream after the read and what it put into a buffer with room for `n` bytes.
  unfoldable pub poll_read : EncryptedStream → ℕ → Result (EncryptedStream × Bytes) IoError
  unfolding decrypt_receive
  poll_read s n = map_err other (decrypt_receive aead s n)

  pub poll_write : EncryptedStream → Bytes → Bytes → EncryptedStream × ℕ
  poll_write s random bytes = (encrypt_send aead s random bytes, length bytes)

  -- The reads of the payload, 4096 bytes at a time, until one returns nothing. On fuel; `none` means
  -- that the fuel ran out.
  pub read_payload :
      ℕ → EncryptedStream → Bytes → Option (Result (EncryptedStream × Bytes) StreamError)
  read_payload zero s payload = none
  read_payload (suc fuel) s payload = elim (decrypt_receive aead s 4096) [
    | err e ↦ some (err e)
    | ok (s', bytes) ↦ elim bytes [
      | [] ↦ some (ok (s', payload))
      | b ∷ bs ↦ read_payload fuel s' (payload ++ b ∷ bs)
    ]
  ]

  -- The byte of the type is 0 where the first read returns nothing.
  abbrev type_of : Bytes → ℕ
  type_of [] = 0
  type_of (b ∷ _) = b

  abbrev with_type :
      ℕ
      → Option (Result (EncryptedStream × Bytes) StreamError)
      → Option (Result (EncryptedStream × ℕ × Bytes) StreamError)
  with_type t none = none
  with_type t (some (err e)) = some (err e)
  with_type t (some (ok (s, payload))) = some (ok (s, t, payload))

  pub receive_control_message :
      ℕ → EncryptedStream → Option (Result (EncryptedStream × ℕ × Bytes) StreamError)
  unfolding read_payload
  receive_control_message fuel s = elim (decrypt_receive aead s 1) [
    | err e ↦ some (err e)
    | ok (s', head) ↦ with_type (type_of head) (read_payload fuel s' [])
  ]

  decrypt_receive-empty :
      (s : EncryptedStream) (n : ℕ) (e : StreamError)
      → length s.read_buffer ≤ s.read_pos
      → fill_read_buffer aead s ≡ err e
      → decrypt_receive aead s n ≡ err e
  unfolding decrypt_receive
  decrypt_receive-empty s n e read fails =
      rw (le→leb (length s.read_buffer) s.read_pos read, fails) refl

  decrypt_receive-filled :
      (s s' : EncryptedStream) (n : ℕ)
      → length s.read_buffer ≤ s.read_pos
      → fill_read_buffer aead s ≡ ok s'
      → decrypt_receive aead s n ≡ ok (copy_out aead n s')
  unfolding decrypt_receive
  decrypt_receive-filled s s' n read filled =
      rw (le→leb (length s.read_buffer) s.read_pos read, filled) refl

  decrypt_receive-more :
      (s : EncryptedStream) (n : ℕ)
      → s.read_pos < length s.read_buffer
      → decrypt_receive aead s n ≡ ok (copy_out aead n s)
  unfolding decrypt_receive
  decrypt_receive-more s n more = rw (lt→not-leb (length s.read_buffer) s.read_pos more) refl

  read_payload-step :
      (fuel : ℕ) (s s' : EncryptedStream) (bytes payload : Bytes) (e : StreamError)
      → decrypt_receive aead s 4096 ≡ ok (s', bytes)
      → 0 < length bytes
      → ((p : Bytes) → read_payload fuel s' p ≡ some (err e))
      → read_payload (suc fuel) s payload ≡ some (err e)
  unfolding read_payload
  read_payload-step fuel s s' [] payload e got some_bytes ih = absurd (omega arith)
  read_payload-step fuel s s' (b ∷ bs) payload e got some_bytes ih =
      rw (got, read_payload) (ih (payload ++ b ∷ bs))

  -- Once the buffer is read, a stream that cannot be filled fails.
  read_payload-fails :
      (fuel : ℕ) (s : EncryptedStream) (payload : Bytes) (e : StreamError)
      → length s.read_buffer - s.read_pos < fuel
      → ((p : ℕ) → fill_read_buffer aead (record s { read_pos = p }) ≡ err e)
      → read_payload fuel s payload ≡ some (err e)
  unfolding read_payload copy_out
  read_payload-fails zero s payload e enough fails = absurd (omega arith)
  read_payload-fails (suc fuel) s payload e enough fails =
      elim (Bool-cases (leb (length s.read_buffer) s.read_pos)) [
        | inl read ↦
            rw (decrypt_receive-empty s 4096 e (leb→le _ _ read) (fails s.read_pos), read_payload)
              refl
        | inr unread ↦
            let more : s.read_pos < length s.read_buffer = ground arith in
            let size =
              length-take (min (length s.read_buffer - s.read_pos) 4096)
                (drop s.read_pos s.read_buffer) in
            let rest = length-drop s.read_pos s.read_buffer in
            read_payload-step fuel s (copy_out aead 4096 s).0 (copy_out aead 4096 s).1 payload e
              (decrypt_receive-more s 4096 more) (omega (arith, size, rest))
              (λ p. read_payload-fails fuel (copy_out aead 4096 s).0 p e (omega arith) fails)
      ]

  receive_control_message-fails :
      (fuel : ℕ) (s s' : EncryptedStream) (e : StreamError)
      → fill_read_buffer aead s ≡ ok s'
      → length s.read_buffer ≤ s.read_pos
      → length s'.read_buffer < fuel
      → ((p : ℕ) → fill_read_buffer aead (record s' { read_pos = p }) ≡ err e)
      → receive_control_message fuel s ≡ some (err e)
  unfolding receive_control_message copy_out
  receive_control_message-fails fuel s s' e filled read enough fails =
      rw
        (
          decrypt_receive-filled s s' 1 read filled,
          receive_control_message,
          read_payload-fails fuel (copy_out aead 1 s').0 [] e (omega arith) fails,
        )
        refl

  fill_read_buffer-end :
      (s : EncryptedStream) → s.incoming ≡ [] → fill_read_buffer aead s ≡ err io_error
  unfolding fill_read_buffer read_exact
  fill_read_buffer-end s e = rw e refl

  -- A control message is never received, however large the fuel above its size: behind its payload
  -- the receiver reads on, and fails at the end of the stream, or with the error of the cipher where
  -- another message follows. The receiver has the counter and the key of the sender and has read its
  -- buffer, the cipher opens what it sealed and authenticates its associated data, a nonce has four
  -- random bytes, sealed lengths fit 32 bits and the counter fits 64.
  pub control_message_lost :
      (fuel : ℕ) (s r : EncryptedStream) (random random' payload second : Bytes) (type : ℕ)
      → IsAead aead
      → Fits aead s random (type ∷ payload)
      → Fits aead (send_control_message aead s random type payload) random' second
      → r.nonce_sequence ≡ s.nonce_sequence
      → r.message_counter ≡ s.message_counter
      → s.message_counter < 2 ^ 64
      → length r.read_buffer ≤ r.read_pos
      → length payload + 17 < fuel
      → (receive_control_message fuel (reading r (wire aead s random (type ∷ payload)))
          ≡ some (err io_error))
        × (receive_control_message fuel (
              reading r (
                wire aead s random (type ∷ payload)
                ++ wire aead (send_control_message aead s random type payload) random' second))
            ≡ some (err crypto_error))
  unfolding send_control_message
  control_message_lost fuel s r random random' payload second type lawful fits fits' same_key
        same_counter bound read enough =
      let sent = encrypt_send aead s random (type ∷ payload) in
      let (key, counter) = encrypt_send-next aead s random (type ∷ payload) in
      let next = wire aead sent random' second in
      let size = length-append payload zeros_16 in
      let opened = λ (p : ℕ). record r {
        incoming = next;
        read_buffer = type ∷ (payload ++ zeros_16);
        read_pos = p;
      } in
      let got = λ (rest : Bytes).
        fill_read_buffer-padded aead s r random (type ∷ payload) rest lawful fits same_key
          same_counter in
      (
        subst (λ bytes. receive_control_message fuel (reading r bytes) ≡ some (err io_error))
            (append-nil (wire aead s random (type ∷ payload)))
            (receive_control_message-fails fuel _ _ io_error (got []) read (omega (arith, size))
              (λ p. fill_read_buffer-end _ refl)),
        receive_control_message-fails fuel _ _ crypto_error (got next) read (omega (arith, size))
            (λ p.
              subst (λ bytes. fill_read_buffer aead (reading (opened p) bytes) ≡ err crypto_error)
                (append-nil next)
                (fill_read_buffer-refused aead sent (opened p) random' second [] lawful fits'
                  (same_key ∙ sym key) (omega arith) (omega arith) (λ e. omega (arith, e)))),
      )
