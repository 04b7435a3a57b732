-- ===== src/ReverseProxy/Retry/Tests.antt =====
-- src/reverse_proxy/client.rs: a run of the loop, and its theorem at an input.
use gsc_fq.Common.{◌≡◌, refl, false, [], ◌∷◌, arith}
use gsc_fq.ReverseProxy.Retry.{Outside, start, start_loop}
use gsc_fq.ReverseProxy.Retry.Bounded.{Within, start-Within}

-- A server that never answers.
abbrev unreachable : Outside
unreachable = record {
  shutdown = λ n. false;
  connection = λ n. false;
  shutdown_in_wait = λ n. false;
}

backoffs : (start 11 unreachable).waits ≡ 1 ∷ 2 ∷ 4 ∷ 8 ∷ 16 ∷ 32 ∷ 60 ∷ 60 ∷ 60 ∷ []
unfolding start start_loop
backoffs = refl

start-Within_example : Within 10 (start 11 unreachable)
start-Within_example = start-Within 11 unreachable (omega arith)
