-- ===== src/Proxy/Blackhole/Tests.antt =====
-- src/proxy/stealth_handler.rs: the rejections of its tests, and two connections.
use gsc_fq.Common.{◌≡◌, refl, true, false, [], ◌∷◌, codes}
use gsc_fq.Common.Results.{ok, err}
use gsc_fq.Error.{forwarding_failed}
use gsc_fq.Proxy.Blackhole.{
  is_rejection, handle_stealth, not_connected, connection_refused, other, is_io_rejection,
  is_connection_error_rejection, stealth_blackhole, absorb, pseudo_random_range, absorbed, bytes,
}

refused : is_rejection (forwarding_failed (codes "connection refused")) ≡ true
unfolding is_rejection
refused = refl

unknown : is_rejection (forwarding_failed (codes "unknown error")) ≡ false
unfolding is_rejection
unknown = refl

swallowed :
    handle_stealth (not_connected connection_refused []) 0 ((0, bytes 7) ∷ (1, bytes 0) ∷ [])
    ≡ ok (absorbed 7)
unfolding handle_stealth is_io_rejection is_connection_error_rejection stealth_blackhole absorb
    pseudo_random_range
swallowed = refl

unreachable :
    handle_stealth (not_connected other (codes "no route")) 0 []
    ≡ err (forwarding_failed (codes "no route"))
unfolding handle_stealth is_io_rejection is_connection_error_rejection
unreachable = refl
