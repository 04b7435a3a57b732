-- ===== src/Utils/Totp/Tests.antt =====
-- src/utils/totp.rs: the worked example of RFC 4226, section 5.4, and the theorems at an input.
use gsc_fq.Common.{ℕ, ◌+◌, ◌^◌, ◌≤◌, ◌<◌, ◌≡◌, ◌⊎◌, refl, true, false, some, [], ◌∷◌, arith, Bytes}
use gsc_fq.Utils.Totp.{Totp, generate, verify}
use gsc_fq.Utils.Totp.Codes.{IsHmac, generate_in_range, verify_sound, verify_accepts_drift}

abbrev rfc_tag : Bytes
rfc_tag =
    0x1f ∷ 0x86 ∷ 0x98 ∷ 0x69 ∷ 0x0e ∷ 0x02 ∷ 0xca ∷ 0x16 ∷ 0x61 ∷ 0x85 ∷ 0x50 ∷ 0xef ∷ 0x7f ∷ 0x19
    ∷ 0xda ∷ 0x8e ∷ 0x94 ∷ 0x5b ∷ 0x55 ∷ 0x5a ∷ []

-- A function with 20-byte tags in place of HMAC-SHA1.
abbrev constant_tag : Bytes → Bytes → Bytes
constant_tag key msg = rfc_tag

constant_tag-IsHmac : IsHmac constant_tag
constant_tag-IsHmac key msg = record { sized = refl; bytes = omega arith }

abbrev totp : Totp
totp = record { secret = b'k' ∷ []; digits = 6; step_secs = 30 }

rfc_code : generate constant_tag totp 59 ≡ some 872921
unfolding generate
rfc_code = refl

generate_in_range_example : (c : ℕ) × (generate constant_tag totp 59 ≡ some c) × (c < 10 ^ 6)
generate_in_range_example =
    generate_in_range constant_tag totp 59 (constant_tag-IsHmac totp.secret []) (omega arith)

verify_sound_example :
    (verify constant_tag totp 1000 872921 ≡ some false)
    ⊎ ((verify constant_tag totp 1000 872921 ≡ some true)
        × (ts : ℕ) × (1000 ≤ ts + 30)
        × (ts ≤ 1000 + 30)
        × (generate constant_tag totp ts ≡ some 872921))
verify_sound_example =
    verify_sound constant_tag totp 1000 872921 constant_tag-IsHmac (omega arith) (omega arith)

previous_step_accepted : verify constant_tag totp 1000 872921 ≡ some true
unfolding generate
previous_step_accepted =
    verify_accepts_drift constant_tag totp 1000 1030 872921 constant_tag-IsHmac (omega arith) refl
      (omega arith) (omega arith) (omega arith) refl
