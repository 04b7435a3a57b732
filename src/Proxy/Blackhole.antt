-- ===== src/Proxy/Blackhole.antt =====
-- src/proxy/blackhole.rs and src/proxy/stealth_handler.rs: telling rejections from other errors, and
-- the blackhole that keeps a client busy. The clock and what the network answers are arguments; the
-- copying itself is Proxy/ZeroCopy.
use gsc_fq.Common.{
  ℕ, ◌+◌, ◌-◌, ◌*◌, ◌%◌, ◌^◌, Bool, true, false, ◌||◌, List, [], ◌∷◌, Bytes, codes, leb, ◌==◌, ◌&&◌,
  if◌then◌else◌, arith,
}
use gsc_fq.Common.Results.{Result, ok, err}
use gsc_fq.Error.{ProxyError, forwarding_failed}
pub mod Delay
mod Tests

-- The kinds of an IO error that the code tells apart.
pub data ErrorKind : Type 0 where
  connection_reset connection_refused connection_aborted broken_pipe would_block other : ErrorKind

unfoldable pub is_connection_reset : ErrorKind → Bool
is_connection_reset connection_reset = true
is_connection_reset connection_refused = true
is_connection_reset connection_aborted = true
is_connection_reset kind = false

unfoldable pub is_io_rejection : ErrorKind → Bool
is_io_rejection connection_reset = true
is_io_rejection connection_refused = true
is_io_rejection connection_aborted = true
is_io_rejection broken_pipe = true
is_io_rejection kind = false

-- `str::contains`.
abbrev pub starts_with : Bytes → Bytes → Bool
starts_with [] text = true
starts_with (p ∷ ps) [] = false
starts_with (p ∷ ps) (c ∷ cs) = (p == c) && starts_with ps cs

abbrev pub has : Bytes → Bytes → Bool
has part [] = starts_with part []
has part (c ∷ cs) = let later = has part cs in starts_with part (c ∷ cs) || later

abbrev pub is_rejection_text : Bytes → Bool
is_rejection_text msg =
    has (codes "refused") msg
    || has (codes "reset") msg
    || has (codes "rejected") msg
    || has (codes "timeout") msg

unfoldable pub is_rejection : ProxyError → Bool
is_rejection (forwarding_failed msg) = is_rejection_text msg
is_rejection e = false

unfoldable pub is_connection_error_rejection : Bytes → Bool
is_connection_error_rejection msg = is_rejection_text msg || has (codes "connection") msg

-- The linear congruential generator, on the nanoseconds of the clock as u64.
unfoldable pub pseudo_random_range : ℕ → ℕ → ℕ → ℕ
pseudo_random_range nanos low high =
    let seed = nanos % 2 ^ 64 in
    let result = ((1664525 * seed) % 2 ^ 64 + 1013904223) % 2 ^ 64 % 2 ^ 32 in
    low + result % (high - low + 1)

-- What a read of the client ends with, or the end of the delay while it waits.
pub data Absorb : Type 0 where
  bytes : ℕ → Absorb
  read_error : ErrorKind → Absorb
  timeout : Absorb

-- Whether the loop of `blackhole.rs` goes on after an error: only where the read would block. The
-- other two loops end at every error.
abbrev pub goes_on : ErrorKind → Bool
goes_on would_block = true
goes_on kind = false

abbrev pub never : ErrorKind → Bool
never kind = false

-- The loop, on the time before each round and what the round ends with: the bytes absorbed.
unfoldable pub absorb : (ErrorKind → Bool) → ℕ → List (ℕ × Absorb) → ℕ
absorb again delay [] = 0
absorb again delay ((elapsed, bytes n) ∷ rounds) =
    let rest = absorb again delay rounds in
    if leb delay elapsed then 0 else if n == 0 then 0 else n + rest
absorb again delay ((elapsed, read_error kind) ∷ rounds) =
    let rest = absorb again delay rounds in
    if leb delay elapsed then 0 else if again kind then rest else 0
absorb again delay ((elapsed, timeout) ∷ rounds) = 0

abbrev pub nanos_per_second : ℕ
nanos_per_second = 1000000000

-- `enter_blackhole_mode` of blackhole.rs, its enhanced form, and that of StealthHandler.
unfoldable pub enter_blackhole_mode : ℕ → List (ℕ × Absorb) → ℕ
unfolding absorb pseudo_random_range
enter_blackhole_mode nanos rounds =
    absorb goes_on (pseudo_random_range nanos 120 1800 * nanos_per_second) rounds

unfoldable pub enter_blackhole_mode_enhanced : ℕ → List (ℕ × Absorb) → ℕ
unfolding absorb pseudo_random_range
enter_blackhole_mode_enhanced nanos rounds =
    absorb never (pseudo_random_range nanos 120 1800 * nanos_per_second) rounds

unfoldable pub stealth_blackhole : ℕ → List (ℕ × Absorb) → ℕ
unfolding absorb pseudo_random_range
stealth_blackhole nanos rounds =
    absorb never (pseudo_random_range nanos 5 30 * nanos_per_second) rounds

-- How a connection of the stealth handler ends well.
pub data Handled : Type 0 where
  forwarded : ℕ → ℕ → Handled
  absorbed : ℕ → Handled

-- What connecting gives: the bytes that are then forwarded both ways or the error of that, or an IO
-- error with its kind and message.
pub data Connected : Type 0 where
  connected : Result (ℕ × ℕ) Bytes → Connected
  not_connected : ErrorKind → Bytes → Connected

abbrev pub normal_forwarding : Result (ℕ × ℕ) Bytes → Result Handled ProxyError
normal_forwarding (ok (up, down)) = ok (forwarded up down)
normal_forwarding (err m) = err (forwarding_failed m)

unfoldable pub handle_stealth : Connected → ℕ → List (ℕ × Absorb) → Result Handled ProxyError
unfolding is_io_rejection is_connection_error_rejection stealth_blackhole
handle_stealth (connected r) nanos rounds = normal_forwarding r
handle_stealth (not_connected kind msg) nanos rounds =
    if is_io_rejection kind || is_connection_error_rejection msg
    then ok (absorbed (stealth_blackhole nanos rounds))
    else err (forwarding_failed msg)
