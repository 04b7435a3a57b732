-- ===== src/Proxy/Handler/Tests.antt =====
-- src/proxy/handler.rs: connections and pools at inputs.
use gsc_fq.Common.{◌≡◌, refl, none, [], ◌∷◌, codes}
use gsc_fq.Common.Net.{v4}
use gsc_fq.Common.Results.{ok, err}
use gsc_fq.Error.{network, connection_timeout}
use gsc_fq.Proxy.Handler.{
  ConnectionHandler, Answers, timed_out, answered, handle_connection, connect_with_source_ip,
  forward_data, adaptive_copy, optimized_bidirectional, total_max, sum_from, get_connection_stats,
  usize_max,
}

abbrev handler : ConnectionHandler
handler = record {
  remote_addr = record { ip = v4 167772161; port = 80 };
  source_ip = none;
  max_connections = none;
}

abbrev answers : Answers
answers = record {
  peer_addr = ok (record { ip = v4 1; port = 2 });
  new_socket = ok tt;
  bind = ok tt;
  connect = answered (ok tt);
  client_nodelay = ok tt;
  remote_nodelay = ok tt;
}

forwarded : handle_connection handler answers (ok 5) (err (codes "reset")) ≡ ok (5, 0)
unfolding handle_connection connect_with_source_ip forward_data adaptive_copy
    optimized_bidirectional
forwarded = refl

too_late :
    handle_connection handler (record answers { connect = timed_out }) (ok 5) (ok 6)
    ≡ err (network connection_timeout)
unfolding handle_connection connect_with_source_ip forward_data adaptive_copy
    optimized_bidirectional
too_late = refl

unlimited : total_max (handler ∷ handler ∷ []) ≡ usize_max
unfolding total_max sum_from get_connection_stats
unlimited = refl
