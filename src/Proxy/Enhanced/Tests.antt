-- ===== src/Proxy/Enhanced/Tests.antt =====
-- src/proxy/enhanced_handler.rs: a pool of two handlers without a limit.
use gsc_fq.Common.{◌≡◌, ◌-◌, ◌^◌, refl, none, [], ◌∷◌}
use gsc_fq.Common.Net.{v4}
use gsc_fq.Proxy.Enhanced.{
  EnhancedConnectionHandler, new, get_pool_stats, add_stats, get_connection_stats,
}

abbrev handler : EnhancedConnectionHandler
unfolding new
handler = new (λ n. n) (record { ip = v4 1; port = 80 }) none none 0

-- The sum of two limits of the largest usize wraps around.
overflow :
    (get_pool_stats (record { handlers = handler ∷ handler ∷ [] }) 0).total_max_connections
    ≡ 2 ^ 64 - 2
unfolding get_pool_stats add_stats get_connection_stats handler new
overflow = refl
