-- ===== src/Lib.antt =====
-- A verification of gsc-fq, a TCP and UDP proxy in Rust: forward proxying with limits for each
-- address, a reverse proxy whose client opens ports on a server over one control connection, and
-- the parts that both rest on.
--
-- The parts, and the files that model them:
--   Config/Sections      src/config/loader.rs: the sections and the getters of their addresses
--                        (Addresses).
--   Config/Text, Config/Special   src/config/loader.rs: what it uses of texts, the sanitizing of
--                        special values (Quotes) and the positions of errors (Position).
--   Config/Validate      src/config/loader.rs: ConfigFile::validate; Sound is about forward proxies,
--                        Reverse about reverse proxies.
--   Config/Loader        src/config/loader.rs: ConfigLoader; Search is about the file that is loaded.
--   Config/Runtime       src/config/runtime.rs: RuntimeManager::run; Services is about what it starts.
--   Error                src/error/types.rs: the error types and their classification.
--   Monitoring           src/monitoring/mod.rs: the metrics, with the reports in Health and the calls
--                        through the lock in Global; Counters is about any sequence of calls.
--   Proxy/Server         src/proxy/server.rs: the forward proxy server and its instances. Instances
--                        is about add_proxy, Build about the builder, Limited about the limits of
--                        its instances, Status about the flags.
--   Proxy/Copy           src/proxy/adaptive_copy.rs, src/proxy/adaptive_stream.rs: the copy loops.
--                        Source is about reads and the sample, Whole about the loop and the copy of a
--                        known size, Stream about the copies that take a sample.
--   Proxy/Handler, Proxy/Enhanced   src/proxy/handler.rs, src/proxy/high_perf.rs and
--                        src/proxy/enhanced_handler.rs: the handlers of a connection, their pools and
--                        health monitors. Handler/Outcome is about the pools and the ends of a
--                        connection, Handler/Buffered about the buffered copy.
--   Proxy/Blackhole      src/proxy/blackhole.rs, src/proxy/stealth_handler.rs: rejections and the
--                        blackhole; Delay is about its length.
--   Proxy/ZeroCopy       src/proxy/zero_copy.rs: the splice loops and the bulk copy (Splice), and
--                        the loops of src/proxy/splice_optimizer.rs (Optimizer, with what they
--                        count in Blocks); Portable has the versions for other systems than Linux.
--   Proxy/QualityAware   src/proxy/quality_aware_connection.rs: the measured connections of a pool.
--   Proxy/Metrics        src/proxy/connection_metrics.rs: samples and scores (Score).
--   Proxy/Stealth        src/proxy/stealth_connection_handler.rs: admission of connections and
--                        datagrams (check_security, register_disconnection, handle_udp_packet) and
--                        the counters. A Handler is the state behind the mutexes; Limits.Step is one
--                        action of one task, so that a run is any interleaving of these. Checks has
--                        the lemmas on each operation, Limits, Rate, ActiveCount, Datagrams and
--                        Statistics what follows of them. Rate is about runs of arrivals, ends and datagrams
--                        (Rate.Events): Rate.Recent has the arrivals that are kept, Rate.Bound and
--                        Rate.Untouched the lemmas on one event.
--   Proxy/Selector       src/proxy/connection_selector.rs: the choice of a pooled connection (Choice, with
--                        the lemmas on its loops in Scans); the score of a connection and the draws
--                        of the generator are arguments.
--   Proxy/Resilient      src/proxy/resilient.rs: the quality monitor (History), reconnecting
--                        (Reconnect), sessions and their pending data (Recovery), the background task
--                        that expires them (Cleanup) and the forwarding loops (Forward).
--   Crypto/Stream        src/crypto/mod.rs (EncryptionKey) and src/crypto/stream_cipher.rs: the
--                        encrypted stream; Exchange relates a sender and a receiver, Control is about
--                        control messages and polls.
--   Crypto/Key           src/crypto/mod.rs and src/crypto/handshake.rs: the key that both ends derive.
--   Crypto/Simulated     src/crypto/mod.rs, src/crypto/stream_cipher.rs: the metrics, the simulated
--                        connection and the benchmark of handshakes (Totals).
--   ReverseProxy/Protocol   src/reverse_proxy/protocol.rs: control messages and their frames.
--   ReverseProxy/Handshake  do_handshake of src/reverse_proxy/client.rs, handle_client of
--                        src/reverse_proxy/server.rs up to its answer, and the server that
--                        src/config/runtime.rs starts. Checks has the outcomes of the checks,
--                        Decision is about the clients that the server lets in, Agreement about
--                        client and server, Exposure about the server of the runtime, Enrolment about
--                        a secret that `gsc-fq -g` makes.
--   ReverseProxy/Serving   handle_client of server.rs behind its answer: the listeners, the main loop
--                        and the tunnels. Reached is about one tunnel at the client, Accept about
--                        the servers that the constructors make and the accept loop.
--   ReverseProxy/Session   run_connection_with_shutdown of client.rs: one session of a client. Answer
--                        has the frames that the server reads and writes in the handshake, Served
--                        puts client and server together; Example is for its tests.
--   ReverseProxy/Tunnel  the headers and datagram frames that server.rs writes and client.rs reads
--                        (Requests), and the answers in the other direction (Answers).
--   ReverseProxy/Sessions   the map of clients with their listener tasks, and the cleanup task of
--                        server.rs. Aborted is about the listeners, Idle about the cleanup.
--   ReverseProxy/Retry   the loop of client.rs that connects again (start).
--   ReverseProxy/Configs parse_proxy_configs of client.rs, on a configuration that was accepted.
--   Utils/Totp           src/utils/totp.rs: the one-time passwords that the handshake uses, and new
--                        secrets (Secret).
--   Utils/System, Utils/Signal   src/utils/system.rs, src/utils/signal.rs: the checks before a start
--                        and the signal handler.
--   Service              src/service/manager.rs: installing, starting and removing the service;
--                        Commands is about src/service/cli.rs.
--   Common               lists, maps, results, addresses and big-endian numbers. A Tests module
--                        runs the definitions of its part and applies the theorems at inputs.
--
-- How the parts interact: Config/Runtime runs what Config/Loader loads, by Proxy/Server and the
-- handshake's server; an instance of Proxy/Server admits by Proxy/Stealth. The handshake sends
-- ControlMessages of Protocol and checks codes of Totp; behind it the server's main loop of Serving
-- opens a stream for what a listener heard, and the session of the client reads it by Tunnel. The
-- client's proxies come from Config by Configs, Retry repeats its sessions, and the server keeps a
-- client in Sessions while it is connected.
--
-- Conventions: numbers are native; a machine integer has its wrap-around written out, and texts and
-- byte strings are lists of numbers. A clock reading, what the network answers and a random draw are
-- arguments. bincode, HMAC-SHA1, Base32, SHA-256 over JSON, AES-256-GCM, the platform and its
-- notifications are parameters, with what is used of them as hypotheses (IsCodec, IsHmac, IsBase32,
-- IsAead, Copies, InRange, IsPlatform, IsNotify, IsSocket). `none` of an option that a definition returns
-- where the code has no such result is a panic. The encrypted stream writes to a connection that takes
-- every byte, and seals within the cipher's limit.
--
-- Bounds and fuel: pad_base32 has fuel 8 where the code's loop runs at most 7 times; a round of
-- delivered takes at least two bytes of the stream, so that more fuel than bytes is enough; the retry
-- loop of resilient.rs recurs on the attempts that are left; that of client.rs is on fuel, and counts
-- a failure in each round and stops at ten of them, so that 11 is enough; the copy loops are on fuel,
-- and more fuel than `work`, the reads that a stream can take, is enough; read_payload is on fuel, and
-- more fuel than the bytes of the message that it reads is enough.
--
-- Not modelled: the Yamux multiplexer, the splice and socket options of the kernel, the TOML parser
-- and SHA-256, which are libraries; the daemon and the start in service mode, logging and output, which
-- are process set-up; and src/proxy/handler_copy.rs, which is no module of the crate.
pub mod Common
pub mod Config
pub mod Crypto
pub mod Error
pub mod Monitoring
pub mod Proxy
pub mod ReverseProxy
pub mod Service
pub mod Utils
