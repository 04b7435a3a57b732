-- ===== src/Proxy/Handler/Outcome.antt =====
-- src/proxy/handler.rs: how a connection ends, and what the pool promises.
use gsc_fq.Common.{
  ℕ, ◌+◌, ◌≤◌, ◌≡◌, refl, min, false, some, List, [], ◌∷◌, ◌++◌, arith, get_elem?, length,
}
use gsc_fq.Common.Net.{IpAddr}
use gsc_fq.Common.Results.{err}
use gsc_fq.Error.{network, NetworkError}
use gsc_fq.Proxy.Handler.{
  ConnectionHandler, Answers, HandlerPool, add_handler, get_handler, usize_max, unwrap_or, sum_from,
  total_max, get_connection_stats, saturating_add, same_family, mismatch, connect_with_source_ip,
}

-- The limit of a handler as its statistics count it.
abbrev limit : ConnectionHandler → ℕ
limit h = unwrap_or h.max_connections usize_max

abbrev sum_limits : List ConnectionHandler → ℕ
sum_limits [] = 0
sum_limits (h ∷ hs) = limit h + sum_limits hs

sum_from-min :
    (acc : ℕ) (hs : List ConnectionHandler)
    → acc ≤ usize_max
    → sum_from acc hs ≡ min (acc + sum_limits hs) usize_max
unfolding sum_from get_connection_stats
sum_from-min acc [] le = omega arith
sum_from-min acc (h ∷ hs) le =
    omega (arith, sum_from-min (saturating_add acc (limit h)) hs (omega arith))

-- The limit of a pool is the sum of its handlers' limits, or the largest usize where that is more.
total_max-min :
    (h : ConnectionHandler) (hs : List ConnectionHandler)
    → limit h ≤ usize_max
    → total_max (h ∷ hs) ≡ min (sum_limits (h ∷ hs)) usize_max
unfolding total_max get_connection_stats
total_max-min h hs le = sum_from-min (limit h) hs le

last_elem :
    (hs : List ConnectionHandler) (h : ConnectionHandler)
    → get_elem? (hs ++ (h ∷ [])) (length hs) ≡ some h
last_elem [] h = refl
last_elem (x ∷ hs) h = last_elem hs h

-- A handler that was added is found behind those that were there.
get_handler-add_handler :
    (pool : HandlerPool) (h : ConnectionHandler)
    → get_handler (add_handler pool h) (length pool.handlers) ≡ some h
unfolding get_handler add_handler
get_handler-add_handler pool h = last_elem pool.handlers h

-- A source address of the other family is refused whatever the network answers.
other_family_refused :
    (h : ConnectionHandler) (source : IpAddr) (a : Answers)
    → same_family source h.remote_addr.ip ≡ false
    → connect_with_source_ip h source a ≡ err (network (NetworkError.connection_failed mismatch))
unfolding connect_with_source_ip
other_family_refused h source a other = rw (other, connect_with_source_ip) refl
