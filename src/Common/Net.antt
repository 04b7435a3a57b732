-- ===== src/Common/Net.antt =====
-- `std::net`: addresses are their numbers, of 32 and of 128 bits.
use gsc_fq.Common.Tests.{◌==◌, Eq}
use Prim.Native.Nat.{ℕ}
use mathlib.Core.Path.{◌≡◌}
use mathlib.Core.Logic.{◌↔◌}
use mathlib.Core.Bool.{Bool, true, false, ◌&&◌}
use native.Mathlib.Omega.{arith}

pub data IpAddr : Type 0 where
  v4 v6 : ℕ → IpAddr

unfoldable pub ip_eq : IpAddr → IpAddr → Bool
ip_eq (v4 a) (v4 b) = a == b
ip_eq (v4 a) (v6 b) = false
ip_eq (v6 a) (v4 b) = false
ip_eq (v6 a) (v6 b) = a == b

pub ip_eq_iff : (a b : IpAddr) → (ip_eq a b ≡ true) ↔ (a ≡ b)
unfolding ip_eq
ip_eq_iff (v4 a) (v4 b) = ground arith
ip_eq_iff (v4 a) (v6 b) = ground arith
ip_eq_iff (v6 a) (v4 b) = ground arith
ip_eq_iff (v6 a) (v6 b) = ground arith

instance abbrev pub ip_key : Eq IpAddr
ip_key = record { beq = ip_eq; beq_iff = ip_eq_iff }

pub record SocketAddr : Type 0 where
  pub ip : IpAddr
  pub port : ℕ

pub socket_eq : SocketAddr → SocketAddr → Bool
unfolding ip_eq
socket_eq a b = ip_eq a.ip b.ip && a.port == b.port

pub socket_eq_iff : (a b : SocketAddr) → (socket_eq a b ≡ true) ↔ (a ≡ b)
unfolding socket_eq
socket_eq_iff a b = ground (arith, ip_eq_iff a.ip b.ip)

instance abbrev pub socket_key : Eq SocketAddr
socket_key = record { beq = socket_eq; beq_iff = socket_eq_iff }
