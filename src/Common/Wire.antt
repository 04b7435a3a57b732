-- ===== src/Common/Wire.antt =====
-- Fixed-width integers as bytes (`to_be_bytes`, `to_le_bytes`), and `read_exact` on a byte stream.
use Prim.Native.Nat.{ℕ, zero, suc, ◌+◌, ◌*◌, ◌/◌, ◌%◌, ◌≤◌, ◌<◌, ◌^◌}
use mathlib.Core.Path.{◌≡◌, refl, ap}
use mathlib.Core.Logic.{◌⊎◌, inl, inr}
use mathlib.Core.List.{[], ◌∷◌, ◌++◌, head-eq_of_cons-eq, tail-eq_of_cons-eq}
use native.Mathlib.Nat.{pow-suc}
use mathlib.Core.Option.{Option, none, some}
use native.Mathlib.Omega.{arith}
use gsc_fq.Common.Tests.{leb, le→leb, leb→le, Bool-cases, if◌then◌else◌}
use gsc_fq.Common.Lists.{Bytes, length, take, drop, length-append, take-append, drop-append}

abbrev pub be16 : ℕ → Bytes
be16 n = (n / 256 % 256) ∷ (n % 256) ∷ []

abbrev pub be32 : ℕ → Bytes
be32 n = (n / 16777216 % 256) ∷ (n / 65536 % 256) ∷ (n / 256 % 256) ∷ (n % 256) ∷ []

-- `to_le_bytes` of a u64, eight bytes from the lowest.
le_bytes : ℕ → ℕ → Bytes
le_bytes zero n = []
le_bytes (suc k) n = (n % 256) ∷ le_bytes k (n / 256)

unfoldable pub le64 : ℕ → Bytes
unfolding le_bytes
le64 n = le_bytes 8 n

-- `from_be_bytes` of an array of the right length; the other clauses are never met.
abbrev pub from_be16 : Bytes → ℕ
from_be16 (a ∷ b ∷ []) = a * 256 + b
from_be16 _ = 0

abbrev pub from_be32 : Bytes → ℕ
from_be32 (a ∷ b ∷ c ∷ d ∷ []) = a * 16777216 + b * 65536 + c * 256 + d
from_be32 _ = 0

pub from_be16-be16 : (n : ℕ) → n < 65536 → from_be16 (be16 n) ≡ n
from_be16-be16 n h = omega arith

pub from_be32-be32 : (n : ℕ) → n < 4294967296 → from_be32 (be32 n) ≡ n
from_be32-be32 n h = omega arith

-- The bytes and the rest of the stream; `none` is `UnexpectedEof`.
unfoldable pub read_exact : ℕ → Bytes → Option (Bytes × Bytes)
read_exact n s = if leb n (length s) then some (take n s, drop n s) else none

pub read_exact-append :
    (xs rest : Bytes) (n : ℕ) → length xs ≡ n → read_exact n (xs ++ rest) ≡ some (xs, rest)
unfolding read_exact
read_exact-append xs rest n e = rw (
  ← e,
  le→leb (length xs) (length (xs ++ rest)) (omega (arith, length-append xs rest)),
  take-append xs rest,
  drop-append xs rest,
)

pub read_exact-short : (n : ℕ) (s : Bytes) → length s < n → read_exact n s ≡ none
unfolding read_exact
read_exact-short n s h = ground arith

pub read_exact-cases :
    (n : ℕ) (s : Bytes)
    → ((length s < n) × (read_exact n s ≡ none))
      ⊎ ((read_exact n s ≡ some (take n s, drop n s)) × (n ≤ length s))
unfolding read_exact
read_exact-cases n s = elim (Bool-cases (leb n (length s))) [
  | inl long ↦ inr (rw long, leb→le _ _ long)
  | inr short ↦ inl (ground arith, rw short)
]

-- Two different numbers have different bytes.
le_bytes_inj : (k m n : ℕ) → m < 256 ^ k → n < 256 ^ k → le_bytes k m ≡ le_bytes k n → m ≡ n
unfolding le_bytes
le_bytes_inj zero m n hm hn e = omega arith
le_bytes_inj (suc k) m n hm hn e =
    let low : m % 256 ≡ n % 256 = head-eq_of_cons-eq e in
    let hm' : m < 256 ^ k * 256 = rw pow-suc at hm in
    let hn' : n < 256 ^ k * 256 = rw pow-suc at hn in
    let high : m / 256 ≡ n / 256 =
      le_bytes_inj k (m / 256) (n / 256) (omega arith) (omega arith) (tail-eq_of_cons-eq e) in
    omega arith

pub le64_inj : (m n : ℕ) → m < 2 ^ 64 → n < 2 ^ 64 → le64 m ≡ le64 n → m ≡ n
unfolding le64
le64_inj m n hm hn e = le_bytes_inj 8 m n hm hn e

length-le_bytes : (k n : ℕ) → length (le_bytes k n) ≡ k
unfolding le_bytes
length-le_bytes zero n = refl
length-le_bytes (suc k) n = ap suc (length-le_bytes k (n / 256))

pub length-le64 : (n : ℕ) → length (le64 n) ≡ 8
unfolding le64
length-le64 n = length-le_bytes 8 n
