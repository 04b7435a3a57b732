-- ===== src/Utils/Totp.antt =====
-- src/utils/totp.rs: one-time passwords by time (RFC 6238).
-- `hmac` is HMAC-SHA1 of the package `ring`, applied to a key and a message; a tag is 20 bytes.
-- `none` is a panic: an index outside the tag, or a remainder by zero. The time of `SystemTime::now`
-- is an argument, in seconds.
pub mod Codes
pub mod Secret
mod Tests
use Prim.Native.Nat.{bit_and, bit_or}
use gsc_fq.Common.{
  ℕ, suc, ◌+◌, ◌-◌, ◌*◌, ◌/◌, ◌%◌, ◌^◌, ◌<◌, ◌≡◌, refl, Bool, true, false, Option, none, some, List,
  [], ◌∷◌, arith, leb, ◌==◌, if◌then◌else◌, Bytes, length, get_elem?, min, All,
}

-- The fields are private, and each way to make a value sets `step_secs` to 30: the division by it in
-- `generate` is never by zero.
pub record Totp : Type 0 where
  pub secret : Bytes
  pub digits : ℕ
  pub step_secs : ℕ

unfoldable pub new : Bytes → Totp
new secret = record { secret = secret; digits = 6; step_secs = 30 }

pub with_digits : Bytes → ℕ → Totp
with_digits secret digits = record { secret = secret; digits = digits; step_secs = 30 }

abbrev pub u32_mod : ℕ
u32_mod = 2 ^ 32

abbrev pub max_u64 : ℕ
max_u64 = 2 ^ 64 - 1

infixl 5 ◌>>=◌
abbrev pub ◌>>=◌ {ℓ κ} : {A : Type ℓ} {B : Type κ} → Option A → (A → Option B) → Option B
none >>= f = none
some a >>= f = f a

-- `counter.to_be_bytes()` of a u64.
abbrev pub be64 : ℕ → Bytes
be64 n =
    (n / 2 ^ 56 % 256)
    ∷ (n / 2 ^ 48 % 256)
    ∷ (n / 2 ^ 40 % 256)
    ∷ (n / 2 ^ 32 % 256)
    ∷ (n / 2 ^ 24 % 256)
    ∷ (n / 2 ^ 16 % 256)
    ∷ (n / 2 ^ 8 % 256)
    ∷ (n % 256)
    ∷ []

-- `b1 | b2 | b3 | b4`, each byte masked and shifted as in the source.
pub combine : ℕ → ℕ → ℕ → ℕ → ℕ
combine a b c d =
    bit_or
      (bit_or (bit_or (bit_and a 0x7f * 2 ^ 24 % u32_mod) (bit_and b 0xff * 2 ^ 16 % u32_mod))
        (bit_and c 0xff * 2 ^ 8 % u32_mod))
      (bit_and d 0xff)

-- `a % b` on u32.
abbrev rem_u32 : ℕ → ℕ → Option ℕ
rem_u32 a b = if b == 0 then none else some (a % b)

-- Dynamic truncation of a tag, from `offset` on.
pub truncate : Bytes → ℕ → ℕ → Option ℕ
unfolding combine
truncate tag offset digits = do
  a ← get_elem? tag offset
  b ← get_elem? tag (offset + 1)
  c ← get_elem? tag (offset + 2)
  d ← get_elem? tag (offset + 3)
  rem_u32 (combine a b c d) (10 ^ digits % u32_mod)

-- `hmac_result[hmac_result.len() - 1] & 0x0f`; a `usize` subtraction panics on an empty tag.
pub offset_of : Bytes → Option ℕ
offset_of [] = none
offset_of (x ∷ xs) = do last ← get_elem? (x ∷ xs) (length xs); some (bit_and last 0x0f)

pub generate : (Bytes → Bytes → Bytes) → Totp → ℕ → Option ℕ
unfolding truncate offset_of
generate hmac t timestamp = do
  let tag = hmac t.secret (be64 (timestamp / t.step_secs))
  offset ← offset_of tag
  truncate tag offset t.digits

-- `saturating_sub` and `saturating_add`.
abbrev pub window_times : Totp → ℕ → List ℕ
window_times t now = (now - t.step_secs) ∷ now ∷ (min (now + t.step_secs) max_u64) ∷ []

-- The loop over the three windows, which returns at the first match.
pub any_window : (Bytes → Bytes → Bytes) → Totp → ℕ → List ℕ → Option Bool
any_window hmac t code [] = some false
any_window hmac t code (ts ∷ rest) = do
  c ← generate hmac t ts
  let later = any_window hmac t code rest
  if c == code then some true else later

pub verify : (Bytes → Bytes → Bytes) → Totp → ℕ → ℕ → Option Bool
unfolding any_window
verify hmac t now code = any_window hmac t code (window_times t now)
