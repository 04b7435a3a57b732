-- ===== src/Crypto/Stream/Tests.antt =====
-- src/crypto/stream_cipher.rs: runs of the stream, and its theorems at inputs.
use gsc_fq.Common.{
  ◌≡◌, refl, Bool-cases, inl, inr, Option, none, some, [], ◌∷◌, ◌++◌, arith, if◌then◌else◌, Bytes,
  length, take, drop, take-append, drop-append, bytes_eq, bytes_eq_iff,
}
use gsc_fq.Common.Results.{ok, err}
use gsc_fq.Common.Wire.{le64}
use gsc_fq.Crypto.Stream.{
  Aead, EncryptedStream, new, zeros_16, io_error, crypto_error, encrypt_send, send_control_message,
  decrypt_receive, copy_out, fill_read_buffer, create_associated_data, generate_nonce, encrypt,
  write_message,
}
use gsc_fq.Crypto.Stream.Control.{receive_control_message, poll_read, control_message_lost}
use gsc_fq.Crypto.Stream.Exchange.{
  IsAead, Fits, sealed, wire, reading, fill_read_buffer-padded, second_message_fails,
}

-- A cipher that writes the associated data in front of the text, and checks them.
abbrev plain : Aead
plain = record { seal_in_place = λ n a p. length a ∷ (a ++ p); open_in_place = λ n a c. opened a c }
  where
    opened : Bytes → Bytes → Option Bytes
    opened a [] = none
    opened a (l ∷ rest) = if bytes_eq (take l rest) a then some (drop l rest) else none

plain-IsAead : IsAead plain
plain-IsAead = record {
  opens = λ n a p. rw (take-append a p, drop-append a p, (bytes_eq_iff a a).1 refl) refl;
  authentic = λ n a b p d. rw (take-append a p) (elim (Bool-cases (bytes_eq a b)) [
    | inl e ↦ absurd (d ((bytes_eq_iff a b).0 e))
    | inr e ↦ rw e refl
  ]);
}

abbrev sender : EncryptedStream
unfolding new
sender = new []

abbrev random : Bytes
random = 1 ∷ 2 ∷ 3 ∷ 4 ∷ []

fits : Fits plain sender random (5 ∷ [])
unfolding Fits sealed encrypt create_associated_data generate_nonce sender le64
fits = (refl, omega arith)

Fits-next : Fits plain (encrypt_send plain sender random (5 ∷ [])) random (6 ∷ [])
unfolding Fits sealed encrypt create_associated_data generate_nonce sender le64 encrypt_send
    write_message
Fits-next = (refl, omega arith)

fill_read_buffer-padded_example :
    fill_read_buffer plain (reading sender (wire plain sender random (5 ∷ []) ++ []))
    ≡ ok (record sender { incoming = []; read_buffer = (5 ∷ []) ++ zeros_16; read_pos = 0 })
fill_read_buffer-padded_example =
    fill_read_buffer-padded plain sender sender random (5 ∷ []) [] plain-IsAead fits refl refl

second_message_fails_example :
    (r' : EncryptedStream) × (fill_read_buffer plain (
        reading sender (
          wire plain sender random (5 ∷ [])
          ++ wire plain (encrypt_send plain sender random (5 ∷ [])) random (6 ∷ [])))
      ≡ ok r')
    × (fill_read_buffer plain r' ≡ err crypto_error)
unfolding sender new
second_message_fails_example =
    second_message_fails plain sender sender random random (5 ∷ []) (6 ∷ []) plain-IsAead fits
      Fits-next refl refl (omega arith)

control_message_lost_example :
    (receive_control_message plain 30 (reading sender (wire plain sender random (5 ∷ [])))
      ≡ some (err io_error))
    × (receive_control_message plain 30 (
          reading sender (
            wire plain sender random (5 ∷ [])
            ++ wire plain (send_control_message plain sender random 5 []) random (6 ∷ [])))
        ≡ some (err crypto_error))
unfolding sender new send_control_message
control_message_lost_example =
    control_message_lost plain 30 sender sender random random [] (6 ∷ []) 5 plain-IsAead fits
      Fits-next refl refl (omega arith) (omega arith) (omega arith)

-- A read takes what is left of the buffer, and fails at the end of the stream behind it.
poll_read_rest :
    poll_read plain (record sender { read_buffer = 7 ∷ 8 ∷ []; read_pos = 1 }) 5
    ≡ ok (record sender { read_buffer = 7 ∷ 8 ∷ []; read_pos = 2 }, 8 ∷ [])
unfolding poll_read decrypt_receive copy_out sender new
poll_read_rest = refl
