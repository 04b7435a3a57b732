-- ===== src/Proxy/QualityAware/Tests.antt =====
-- src/proxy/quality_aware_connection.rs: a probe of a socket that is the list of its bytes.
use gsc_fq.Common.{ℕ, ◌≡◌, refl, true, [], ◌∷◌, Bytes}
use gsc_fq.Proxy.Metrics.{ConnectionMetrics}
use gsc_fq.Proxy.QualityAware.{Socket, Tried, read, would_block, is_alive, IsSocket}

abbrev taken : Bytes → Tried × Bytes
taken [] = (would_block, [])
taken (b ∷ bs) = (read (b ∷ []), bs)

abbrev bytes : Socket Bytes
bytes = record { try_read = taken; arrived = λ s. s }

bytes-IsSocket : IsSocket bytes
bytes-IsSocket = record { takes = λ s b bs waits. (bs, rw waits refl, refl) }

probed :
    (m : ConnectionMetrics ℕ)
    → is_alive bytes (record { stream = 1 ∷ 2 ∷ []; metrics = m; connection_id = [] })
      ≡ (record { stream = 2 ∷ []; metrics = m; connection_id = [] }, true)
unfolding is_alive
probed m = refl
