-- ===== src/ReverseProxy/Protocol/Frames.antt =====
-- src/reverse_proxy/protocol.rs: what is written is read back, whole frames only, within the bound.
use gsc_fq.Common.{
  ℕ, ◌+◌, ◌%◌, ◌^◌, ◌≤◌, ◌<◌, ◌≡◌, ◌≢◌, refl, inl, inr, [], ◌++◌, append_assoc, append-split,
  length-pos, sym, ◌∙◌, ltb→lt, not-ltb→le, arith, ltb, Bytes, length, length-append, Bool-cases,
  take, drop, take-append-drop, length-take, ap,
}
use gsc_fq.Common.Results.{ok, err, Result-cases}
use gsc_fq.Common.Wire.{
  be32, from_be32, from_be32-be32, read_exact-append, read_exact-cases, read_exact-short,
}
use gsc_fq.ReverseProxy.Protocol.{
  ControlMessage, unexpected_eof, Codec, frame, write_to, read_body, read_from, max_message_size,
}

-- What `bincode` documents: a value that was serialized is deserialized to itself.
abbrev pub IsCodec : Codec → Type 0
IsCodec bincode =
    (m : ControlMessage) (payload : Bytes)
    → bincode.serialize m ≡ ok payload
    → bincode.deserialize payload ≡ ok m

module _ (bincode : Codec) where
  -- A frame that was written: the payload of the message behind its length.
  record Written (m : ControlMessage) (w : Bytes) : Type 0 where
    payload : Bytes
    serialized : bincode.serialize m ≡ ok payload
    within : length payload % 2 ^ 32 ≤ max_message_size
    framed : w ≡ be32 (length payload % 2 ^ 32) ++ payload

  frame_lem :
      (payload w : Bytes)
      → frame bincode payload ≡ ok w
      → (length payload % 2 ^ 32 ≤ max_message_size)
        × (w ≡ be32 (length payload % 2 ^ 32) ++ payload)
  unfolding frame
  frame_lem payload w e = elim (Bool-cases (ltb max_message_size (length payload % 2 ^ 32))) [
    | inl big ↦ absurd (cc (rw (big, frame) at e))
    | inr fits ↦ (ground arith, ground arith)
  ]

  write_to-Written : (m : ControlMessage) (w : Bytes) → write_to bincode m ≡ ok w → Written m w
  unfolding write_to
  write_to-Written m w e = elim (Result-cases (bincode.serialize m)) [
    | inl (payload, s) ↦
        let (within, framed) = frame_lem payload w (rw s at e) in
        record { payload = payload; serialized = s; within = within; framed = framed }
    | inr (d, s) ↦ absurd (cc (rw s at e))
  ]

  -- Reading behind a length prefix within the bound.
  read_from-prefix :
      (n : ℕ) (s : Bytes)
      → n ≤ max_message_size
      → read_from bincode (be32 n ++ s) ≡ read_body bincode n s
  unfolding read_from
  read_from-prefix n s h =
      rw (read_exact-append (be32 n) s 4 refl) (ground (arith, from_be32-be32 n (omega arith)))

  read_body-append :
      (payload rest : Bytes) (m : ControlMessage)
      → bincode.deserialize payload ≡ ok m
      → read_body bincode (length payload) (payload ++ rest) ≡ ok (m, rest)
  unfolding read_body
  read_body-append payload rest m e = rw (read_exact-append payload rest (length payload) refl, e)

  read_body-short : (n : ℕ) (s : Bytes) → length s < n → read_body bincode n s ≡ err unexpected_eof
  unfolding read_body
  read_body-short n s h = rw (read_exact-short n s h)

  length-Written :
      {m : ControlMessage} {w : Bytes} (f : Written m w) → length w ≡ 4 + length f.payload
  length-Written f =
      omega (arith, ap length f.framed, length-append (be32 (length f.payload % 2 ^ 32)) f.payload)

  -- A message that was written is read back whole, and the reader stops exactly behind it, whatever
  -- follows on the stream, for a codec that decodes what it encoded and frames below 4 GiB, whose
  -- length fits the prefix.
  pub read_from-write_to :
      (m : ControlMessage) (w rest : Bytes)
      → IsCodec bincode
      → write_to bincode m ≡ ok w
      → length w < 2 ^ 32
      → read_from bincode (w ++ rest) ≡ ok (m, rest)
  read_from-write_to m w rest codec e small =
      let f = write_to-Written m w e in
      let size : length f.payload % 2 ^ 32 ≡ length f.payload = omega (arith, length-Written f) in
      let shape : w ++ rest ≡ be32 (length f.payload) ++ (f.payload ++ rest) =
        ap (λ (v : Bytes). v ++ rest) (f.framed)
        ∙ rw size (append_assoc (be32 (length f.payload)) f.payload rest) in
      rw (shape, read_from-prefix (length f.payload) (f.payload ++ rest) (rw size at f.within))
        (read_body-append f.payload rest m (codec m f.payload f.serialized))

  read_from-stub : (part : Bytes) → length part < 4 → read_from bincode part ≡ err unexpected_eof
  unfolding read_from
  read_from-stub part h = rw (read_exact-short 4 part h)

  -- A frame below 4 GiB that is cut short is never taken for a message: the reader reports the end
  -- of the stream.
  pub read_from-cut :
      (m : ControlMessage) (w part missing : Bytes)
      → write_to bincode m ≡ ok w
      → length w < 2 ^ 32
      → w ≡ part ++ missing
      → missing ≢ []
      → read_from bincode part ≡ err unexpected_eof
  read_from-cut m w part missing e small split more = elim (Bool-cases (ltb (length part) 4)) [
    | inl stub ↦ read_from-stub part (ltb→lt _ _ stub)
    | inr long ↦
        let f = write_to-Written m w e in
        let size : length f.payload % 2 ^ 32 ≡ length f.payload = omega (arith, length-Written f) in
        let (mid, front, back) =
          append-split (be32 (length f.payload % 2 ^ 32)) part f.payload missing
            (sym split ∙ f.framed) (not-ltb→le _ _ long) in
        let short : length mid < length f.payload =
          omega (arith, ap length back, length-append mid missing, length-pos missing more) in
        rw (front, read_from-prefix (length f.payload % 2 ^ 32) mid f.within)
          (read_body-short (length f.payload % 2 ^ 32) mid (omega arith))
  ]

  read_body_consumes :
      (n : ℕ) (s rest : Bytes) (m : ControlMessage)
      → read_body bincode n s ≡ ok (m, rest)
      → (used : Bytes) × (s ≡ used ++ rest) × (length used ≡ n)
  unfolding read_body
  read_body_consumes n s rest m e = elim (read_exact-cases n s) [
    | inl (_, r) ↦ absurd (cc (rw r at e))
    | inr (r, le) ↦ elim (Result-cases (bincode.deserialize (take n s))) [
      | inl (m', d) ↦
          let left : drop n s ≡ rest = cc (rw (r, d) at e) in
          (take n s, rw (← left) (sym (take-append-drop n s)), omega (arith, length-take n s))
      | inr (x, d) ↦ absurd (cc (rw (r, d) at e))
    ]
  ]

  -- The message that is read took at most 16 MiB behind its prefix, and what is left is a suffix of
  -- the stream.
  pub read_from_consumes :
      (stream rest : Bytes) (m : ControlMessage)
      → read_from bincode stream ≡ ok (m, rest)
      → (used : Bytes) × (stream ≡ used ++ rest) × (length used ≤ 4 + max_message_size)
  unfolding read_from
  read_from_consumes stream rest m e = elim (read_exact-cases 4 stream) [
    | inl (_, r) ↦ absurd (cc (rw r at e))
    | inr (r, le) ↦ elim (Bool-cases (ltb max_message_size (from_be32 (take 4 stream)))) [
      | inl big ↦ absurd (cc (rw (r, big) at e))
      | inr fits ↦
          let (used, split, size) =
            read_body_consumes (from_be32 (take 4 stream)) (drop 4 stream) rest m
              (rw (r, fits) at e) in
          (
            take 4 stream ++ used,
            sym (take-append-drop 4 stream)
                ∙ ap (λ (v : Bytes). take 4 stream ++ v) split
                ∙ sym (append_assoc (take 4 stream) used rest),
            omega (
              arith,
              length-append (take 4 stream) used,
              length-take 4 stream,
              not-ltb→le _ _ fits,
            ),
          )
    ]
  ]
