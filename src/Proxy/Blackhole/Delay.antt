-- ===== src/Proxy/Blackhole/Delay.antt =====
-- src/proxy/blackhole.rs, src/proxy/stealth_handler.rs: the delays, and what is absorbed within one.
use gsc_fq.Common.{ℕ, ◌+◌, ◌-◌, ◌*◌, ◌%◌, ◌^◌, ◌≤◌, Bool, List, [], ◌∷◌, arith, leb, if◌then◌else◌}
use gsc_fq.Proxy.Blackhole.{
  pseudo_random_range, Absorb, bytes, read_error, timeout, ErrorKind, absorb,
}

mod-le : (a k : ℕ) → a % (k + 1) ≤ k
mod-le a k = grind arith

-- A delay is drawn from the range, both ends included.
pub pseudo_random_range-within :
    (nanos low high : ℕ)
    → low ≤ high
    → (low ≤ pseudo_random_range nanos low high) × (pseudo_random_range nanos low high ≤ high)
unfolding pseudo_random_range
pseudo_random_range-within nanos low high le =
    let r = ((1664525 * (nanos % 2 ^ 64)) % 2 ^ 64 + 1013904223) % 2 ^ 64 % 2 ^ 32 in
    (omega arith, omega (arith, mod-le r (high - low)))

-- The bytes of the rounds that begin within a delay.
pub within : ℕ → List (ℕ × Absorb) → ℕ
within delay [] = 0
within delay ((elapsed, bytes n) ∷ rounds) =
    let rest = within delay rounds in if leb delay elapsed then rest else n + rest
within delay ((elapsed, read_error kind) ∷ rounds) = within delay rounds
within delay ((elapsed, timeout) ∷ rounds) = within delay rounds

-- A blackhole absorbs no more than what arrives in rounds that begin before its delay is over.
absorb-le-within :
    (again : ErrorKind → Bool) (delay : ℕ) (rounds : List (ℕ × Absorb))
    → absorb again delay rounds ≤ within delay rounds
unfolding absorb within
absorb-le-within again delay [] = omega arith
absorb-le-within again delay ((elapsed, bytes n) ∷ rounds) =
    ground (arith, absorb-le-within again delay rounds)
absorb-le-within again delay ((elapsed, read_error kind) ∷ rounds) =
    ground (arith, absorb-le-within again delay rounds)
absorb-le-within again delay ((elapsed, timeout) ∷ rounds) = omega arith
