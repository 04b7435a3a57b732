-- ===== src/ReverseProxy/Session/Answer.antt =====
-- src/reverse_proxy/server.rs (`handle_client`): the frame that is read and the frame of the answer.
use gsc_fq.Common.{ℕ, [], Bytes}
use gsc_fq.Common.Results.{Result, ok, err, ◌>>=◌}
use gsc_fq.ReverseProxy.Protocol.{server_hello, ProtocolError, Codec, write_to, read_from}
use gsc_fq.ReverseProxy.Handshake.{Env, Server, Verdict, rejected, dropped, welcomed, handle_client}

-- What the server writes for a verdict.
unfoldable pub reply : Codec → Verdict → Result Bytes ProtocolError
reply bincode (rejected h e) = write_to bincode (server_hello h)
reply bincode (dropped e) = ok []
reply bincode (welcomed h configs) = write_to bincode (server_hello h)

-- The verdict on the message that the stream holds, and what is written for it.
unfoldable pub answer_stream :
    Env → Codec → Server → ℕ → Bytes → Bytes → Result (Verdict × Bytes) ProtocolError
unfolding reply
answer_stream env bincode s now session stream = do
  (message, _) ← read_from bincode stream
  let verdict = handle_client env s now session message
  written ← reply bincode verdict
  ok (verdict, written)

-- What is on the stream of the client: nothing, if the server failed.
abbrev pub on_stream : Result (Verdict × Bytes) ProtocolError → Bytes
on_stream (err e) = []
on_stream (ok (verdict, written)) = written
