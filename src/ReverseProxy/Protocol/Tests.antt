-- ===== src/ReverseProxy/Protocol/Tests.antt =====
-- src/reverse_proxy/protocol.rs: runs of the framing, and its theorems at inputs.
use gsc_fq.Common.{zero, suc, ◌+◌, ◌≤◌, ◌≡◌, refl, [], ◌∷◌, ◌++◌, arith, Bytes, length}
use gsc_fq.Common.Results.{Result, ok, err}
use gsc_fq.Common.Wire.{read_exact}
use gsc_fq.ReverseProxy.Protocol.{
  ControlMessage, client_hello, server_hello, ping, pong, Codec, write_to, read_from, frame,
  invalid_message, unexpected_eof, max_message_size,
}
use gsc_fq.ReverseProxy.Protocol.Frames.{
  IsCodec, read_from-write_to, read_from-cut, read_from_consumes,
}

-- A codec of the two heartbeats.
abbrev encode : ControlMessage → Result Bytes Bytes
encode (client_hello h) = err []
encode (server_hello h) = err []
encode ping = ok (2 ∷ 0 ∷ 0 ∷ 0 ∷ [])
encode pong = ok (3 ∷ 0 ∷ 0 ∷ 0 ∷ [])

abbrev decode : Bytes → Result ControlMessage Bytes
decode [] = err []
decode (b ∷ bs) = elim b [
  | zero ↦ err []
  | suc n ↦ elim n [ zero ↦ err [] | suc m ↦ elim m [ zero ↦ ok ping | suc k ↦ ok pong ] ]
]

abbrev heartbeats : Codec
heartbeats = record { serialize = encode; deserialize = decode }

heartbeats-IsCodec : IsCodec heartbeats
heartbeats-IsCodec (client_hello h) payload e = absurd (cc)
heartbeats-IsCodec (server_hello h) payload e = absurd (cc)
heartbeats-IsCodec ping payload e = ground (arith)
heartbeats-IsCodec pong payload e = ground (arith)

ping_frame : write_to heartbeats ping ≡ ok (0 ∷ 0 ∷ 0 ∷ 4 ∷ 2 ∷ 0 ∷ 0 ∷ 0 ∷ [])
unfolding write_to frame
ping_frame = refl

too_large : read_from heartbeats (1 ∷ 0 ∷ 0 ∷ 1 ∷ []) ≡ err (invalid_message 16777217)
unfolding read_from read_exact
too_large = refl

read_from-write_to_example :
    read_from heartbeats (0 ∷ 0 ∷ 0 ∷ 4 ∷ 2 ∷ 0 ∷ 0 ∷ 0 ∷ 9 ∷ []) ≡ ok (ping, 9 ∷ [])
read_from-write_to_example =
    read_from-write_to heartbeats ping (0 ∷ 0 ∷ 0 ∷ 4 ∷ 2 ∷ 0 ∷ 0 ∷ 0 ∷ []) (9 ∷ [])
      heartbeats-IsCodec ping_frame (omega arith)

read_from-cut_example : read_from heartbeats (0 ∷ 0 ∷ 0 ∷ 4 ∷ 2 ∷ []) ≡ err unexpected_eof
read_from-cut_example =
    read_from-cut heartbeats ping (0 ∷ 0 ∷ 0 ∷ 4 ∷ 2 ∷ 0 ∷ 0 ∷ 0 ∷ []) (0 ∷ 0 ∷ 0 ∷ 4 ∷ 2 ∷ [])
      (0 ∷ 0 ∷ 0 ∷ []) ping_frame (omega arith) refl (λ e. cc)

read_from_consumes_example :
    (used : Bytes) × (0 ∷ 0 ∷ 0 ∷ 4 ∷ 2 ∷ 0 ∷ 0 ∷ 0 ∷ 9 ∷ [] ≡ used ++ 9 ∷ [])
    × (length used ≤ 4 + max_message_size)
read_from_consumes_example =
    read_from_consumes heartbeats (0 ∷ 0 ∷ 0 ∷ 4 ∷ 2 ∷ 0 ∷ 0 ∷ 0 ∷ 9 ∷ []) (9 ∷ []) ping
      (unfold read_from read_exact in refl)
