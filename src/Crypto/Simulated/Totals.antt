-- ===== src/Crypto/Simulated/Totals.antt =====
-- src/crypto/mod.rs: what the benchmark of handshakes counts.
use gsc_fq.Common.{
  ℕ, zero, suc, ◌+◌, ◌*◌, ◌%◌, ◌^◌, ◌≤◌, ◌<◌, ◌≡◌, refl, Bool, true, false, some, arith, codes,
  if◌then◌else◌,
}
use native.Mathlib.Nat.{mod-eq_of_lt}
use gsc_fq.Crypto.Simulated.{
  Float, ConnectionMetrics, EncryptedConnection, handshake_time, handshakes, simulate_handshake,
  benchmark_handshakes, create_client_with_token, new, avg_handshake_time_us,
}

-- The time of the first `n` handshakes.
total_time : Bool → ℕ → (ℕ → ℕ × ℕ) → ℕ
total_time aes zero rounds = 0
total_time aes (suc n) rounds =
    total_time aes n rounds + (handshake_time aes (rounds n).0 + (rounds n).1)

base_time : Bool → ℕ
base_time aes = if aes then 500 else 1200

total_time-ge :
    (aes : Bool) (n : ℕ) (rounds : ℕ → ℕ × ℕ) → base_time aes * n ≤ total_time aes n rounds
unfolding total_time base_time handshake_time
total_time-ge aes zero rounds = omega arith
total_time-ge true (suc n) rounds = omega (arith, total_time-ge true n rounds)
total_time-ge false (suc n) rounds = omega (arith, total_time-ge false n rounds)

module _ {F : Type 0} (f : Float F) where
  handshakes_lem :
      (aes : Bool) (n : ℕ) (rounds : ℕ → ℕ × ℕ) (c : EncryptedConnection F)
      → c.has_aes_ni ≡ aes
      → c.metrics.handshakes_completed ≡ 0
      → c.metrics.total_handshake_time_us ≡ 0
      → ((handshakes f n rounds c).has_aes_ni ≡ aes)
        × ((handshakes f n rounds c).metrics.handshakes_completed ≡ n % 2 ^ 64)
        × ((handshakes f n rounds c).metrics.total_handshake_time_us
            ≡ total_time aes n rounds % 2 ^ 64)
  unfolding handshakes simulate_handshake total_time
  handshakes_lem aes zero rounds c a h t = (a, omega (arith, h), omega (arith, t))
  handshakes_lem aes (suc n) rounds c a h t =
      let (a', h', t') = handshakes_lem aes n rounds c a h t in
      (a', omega (arith, h'), rw (a', t') (omega arith))

  avg-ge :
      (m : ConnectionMetrics F) (base : ℕ)
      → 0 < m.handshakes_completed
      → base * m.handshakes_completed ≤ m.total_handshake_time_us
      → base ≤ avg_handshake_time_us f m
  unfolding avg_handshake_time_us
  avg-ge m base pos enough = grind arith

  -- The benchmark of fewer than 2^64 handshakes, and of at least one, counts them all, and on average
  -- a handshake takes no less than its latency on the processor, if the sum of the times fits 64 bits.
  benchmark_handshakes_lem :
      (aes : Bool) (n : ℕ) (rounds : ℕ → ℕ × ℕ)
      → 0 < n
      → n < 2 ^ 64
      → total_time aes n rounds < 2 ^ 64
      → (m : ConnectionMetrics F) × (benchmark_handshakes f aes n rounds ≡ some m)
        × (m.handshakes_completed ≡ n)
        × (base_time aes ≤ avg_handshake_time_us f m)
  unfolding benchmark_handshakes create_client_with_token new avg_handshake_time_us
  benchmark_handshakes_lem aes n rounds some_rounds few short =
      let c = new f aes (codes "TLS-Client-benchmar") in
      let (a, h, t) = handshakes_lem aes n rounds c refl refl refl in
      let m = (handshakes f n rounds c).metrics in
      (
        m,
        ground arith,
        omega (arith, h),
        avg-ge m (base_time aes) (omega (arith, h))
            (rw (h, t, mod-eq_of_lt few, mod-eq_of_lt short) (total_time-ge aes n rounds)),
      )
