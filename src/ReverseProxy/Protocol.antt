-- ===== src/ReverseProxy/Protocol.antt =====
-- src/reverse_proxy/protocol.rs: control messages and their frames.
-- A stream is the list of its bytes, and its end is the end of the list; the sink takes every byte.
-- `bincode` is a parameter: `Codec`. A text is the list of its code points.
pub mod Frames
mod Tests
use gsc_fq.Common.{
  ℕ, ◌+◌, ◌*◌, ◌%◌, ◌^◌, ◌≡◌, Option, none, some, List, [], ◌∷◌, ◌++◌, ltb, if◌then◌else◌, Bytes,
  length,
}
use gsc_fq.Common.Results.{Result, ok, err, ◌>>=◌, map_err}
use gsc_fq.Common.Wire.{be32, from_be32, read_exact}

abbrev pub protocol_version : ℕ
protocol_version = 1

abbrev pub max_message_size : ℕ
max_message_size = 16 * 1024 * 1024

pub record ReverseProxyConfig : Type 0 where
  pub server_port : ℕ
  pub server_host : Option Bytes
  pub local_host : Bytes
  pub local_port : ℕ

pub data HandshakeStatus : Type 0 where
  accepted version_mismatch config_error port_allocation_failed invalid_token token_expired
        access_denied invalid_config_hash :
      HandshakeStatus

pub record ClientHello : Type 0 where
  pub version : ℕ
  pub token : Bytes
  pub totp_code : Option ℕ
  pub proxies : List ReverseProxyConfig
  pub config_hash : Bytes

pub record ServerHello : Type 0 where
  pub version : ℕ
  pub status : HandshakeStatus
  pub message : Bytes
  pub allowed_ports : List ℕ
  pub session_id : Option Bytes

pub data ControlMessage : Type 0 where
  client_hello : ClientHello → ControlMessage
  server_hello : ServerHello → ControlMessage
  ping pong : ControlMessage

-- `InvalidMessage` carries the length; the texts of the other errors are `bincode`'s.
pub data ProtocolError : Type 0 where
  serialization_failed deserialization_failed : Bytes → ProtocolError
  invalid_message : ℕ → ProtocolError
  unexpected_eof : ProtocolError

pub record Codec : Type 0 where
  pub serialize : ControlMessage → Result Bytes Bytes
  pub deserialize : Bytes → Result ControlMessage Bytes

module _ (bincode : Codec) where
  pub to_bytes : ControlMessage → Result Bytes ProtocolError
  to_bytes m = map_err serialization_failed (bincode.serialize m)

  pub from_bytes : Bytes → Result ControlMessage ProtocolError
  from_bytes bytes = map_err deserialization_failed (bincode.deserialize bytes)

  -- `data.len() as u32`, the check, and the two writes.
  unfoldable pub frame : Bytes → Result Bytes ProtocolError
  frame payload =
      let len = length payload % 2 ^ 32 in
      if ltb max_message_size len then err (invalid_message len) else ok (be32 len ++ payload)

  -- The bytes that `write_to` puts on the stream.
  unfoldable pub write_to : ControlMessage → Result Bytes ProtocolError
  unfolding to_bytes
  write_to m = do payload ← to_bytes m; frame payload

  abbrev pub or_eof : Option (Bytes × Bytes) → Result (Bytes × Bytes) ProtocolError
  or_eof none = err unexpected_eof
  or_eof (some p) = ok p

  pub read_body : ℕ → Bytes → Result (ControlMessage × Bytes) ProtocolError
  unfolding from_bytes
  read_body len stream = do
    (payload, rest) ← or_eof (read_exact len stream)
    m ← from_bytes payload
    ok (m, rest)

  -- The message, and the stream behind it.
  unfoldable pub read_from : Bytes → Result (ControlMessage × Bytes) ProtocolError
  unfolding read_body
  read_from stream = do
    (len_bytes, rest) ← or_eof (read_exact 4 stream)
    let len = from_be32 len_bytes
    let body = read_body len rest
    if ltb max_message_size len then err (invalid_message len) else body
