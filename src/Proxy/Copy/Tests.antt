-- ===== src/Proxy/Copy/Tests.antt =====
-- src/proxy/adaptive_copy.rs, src/proxy/adaptive_stream.rs: copies of short streams, and the theorems
-- at one.
use gsc_fq.Common.{ℕ, ◌≡◌, refl, List, [], ◌∷◌, ◌++◌, arith, Bytes, codes, length, if◌then◌else◌}
use gsc_fq.Common.Results.{Result, ok, err}
use gsc_fq.Proxy.Copy.{
  Event, arrives, would_block, breaks, read, done, io, forwarding_failed, copy_loop, flush_if,
  should_flush, adaptive_copy, optimal_buffer_size, adaptive_stream_copy, linux, macos,
  adaptive_tcp_stream_copy, bulk_copy_optimized,
}
use gsc_fq.Proxy.Copy.Source.{bytes_of, work, IsHealthy}
use gsc_fq.Proxy.Copy.Whole.{IsWriter, blocks, Copies, Copied, adaptive_copy-Copied}
use gsc_fq.Proxy.Copy.Stream.{
  Streamed, TcpOutcome, adaptive_stream_copy-Streamed, adaptive_tcp_stream_copy-TcpOutcome,
}

-- A writer that keeps what it was given, and what of it is flushed.
abbrev Buffered : Type 0
Buffered = Bytes × Bytes

abbrev put : Buffered → Bytes → Result Buffered Bytes
put (all, out) b = ok (all ++ b, out)

abbrev push_out : Buffered → Result Buffered Bytes
push_out (all, out) = ok (all, all)

abbrev given : Buffered → Bytes
given w = w.0

abbrev sent : Buffered → Bytes
sent w = w.1

abbrev io_copy : List Event → Buffered → Result (ℕ × Buffered) Bytes
unfolding bytes_of blocks
io_copy s (all, out) =
    if blocks s
    then err (codes "WouldBlock")
    else ok (length (bytes_of s), (all ++ bytes_of s, out))

put-IsWriter : IsWriter put push_out given sent
put-IsWriter = record {
  writes = λ w b. ((w.0 ++ b, w.1), refl, refl);
  flushes = λ w. ((w.0, w.0), refl, refl, refl);
}

io_copy-Copies : Copies given io_copy
unfolding io_copy
io_copy-Copies = record {
  copies = λ s w h smooth. rw smooth ((w.0 ++ bytes_of s, w.1), refl, refl);
  fails = λ s w h stutters. rw stutters (codes "WouldBlock", refl);
}

abbrev hello : List Event
hello = arrives b'h' (codes "el") ∷ would_block ∷ arrives b'l' (codes "o") ∷ []

copied :
    adaptive_copy put push_out io_copy linux 9 hello ([], []) 1000000
    ≡ done (5, (codes "hello", codes "hello"))
unfolding adaptive_copy bulk_copy_optimized optimal_buffer_size copy_loop read should_flush flush_if
copied = refl

broken_off :
    adaptive_copy put push_out io_copy linux 9 (arrives b'h' [] ∷ breaks ∷ []) ([], []) 1000000
    ≡ forwarding_failed
unfolding adaptive_copy bulk_copy_optimized optimal_buffer_size copy_loop read should_flush flush_if
broken_off = refl

-- A read that would block ends the copy of a small file.
small_fails :
    adaptive_copy put push_out io_copy linux 9 hello ([], []) 100 ≡ io (codes "WouldBlock")
unfolding adaptive_copy optimal_buffer_size io_copy
small_fails = refl

adaptive_copy-Copied_example :
    Copied put push_out given sent 1000000 hello
      ([], [])
      (adaptive_copy put push_out io_copy linux 9 hello ([], []) 1000000)
unfolding work IsHealthy
adaptive_copy-Copied_example =
    adaptive_copy-Copied put push_out given sent io_copy put-IsWriter io_copy-Copies linux 9 hello
      ([], []) 1000000 (omega arith) tt refl

adaptive_stream_copy-Streamed_example :
    Streamed put push_out given sent
      (bytes_of hello)
      ([], [])
      (adaptive_stream_copy put push_out macos 9 hello ([], []))
unfolding work IsHealthy
adaptive_stream_copy-Streamed_example =
    adaptive_stream_copy-Streamed put push_out given sent put-IsWriter macos 9 hello ([], [])
      (omega arith) tt

adaptive_tcp_stream_copy-TcpOutcome_example :
    TcpOutcome put push_out given sent
      (bytes_of hello)
      ([], [])
      (adaptive_tcp_stream_copy put push_out (λ s w n. forwarding_failed) 9 hello ([], []))
unfolding work IsHealthy
adaptive_tcp_stream_copy-TcpOutcome_example =
    adaptive_tcp_stream_copy-TcpOutcome put push_out given sent (λ s w n. forwarding_failed)
      put-IsWriter 9 hello ([], []) (omega arith) tt
