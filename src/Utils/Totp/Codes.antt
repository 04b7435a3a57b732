-- ===== src/Utils/Totp/Codes.antt =====
-- src/utils/totp.rs: codes are in range, and are accepted within one step of the clock.
use Prim.Native.Nat.{bit_and}
use gsc_fq.Common.{
  ℕ, zero, suc, ◌+◌, ◌-◌, ◌/◌, ◌%◌, ◌^◌, ◌≤◌, ◌<◌, ◌≡◌, ◌⊎◌, refl, true, false, ◌||◌, none, some,
  List, [], ◌∷◌, arith, inl, inr, ◌==◌, if◌then◌else◌, Bytes, length, get_elem?, min, All,
  passes_below, passes_below_lem, ltb, ltb→lt, get_elem?-some, Bool-cases,
}
use native.Mathlib.Nat.{pow-le-pow_right, one-le-pow}
use gsc_fq.Utils.Totp.{
  Totp, generate, truncate, offset_of, combine, any_window, verify, u32_mod, max_u64, be64,
}

-- What is documented of HMAC-SHA1: a tag has 20 bytes.
pub record IsTag (tag : Bytes) : Type 0 where
  pub sized : length tag ≡ 20
  pub bytes : All (λ b. b < 256) tag

nibble_table : passes_below (λ b. ltb (bit_and b 0x0f) 16) 256 ≡ true
unfolding passes_below
nibble_table = refl

nibble-lt : (b : ℕ) → b < 256 → bit_and b 0x0f < 16
nibble-lt b h = ltb→lt _ _ (passes_below_lem (λ b. ltb (bit_and b 0x0f) 16) 256 b h nibble_table)

get_elem?-All :
    (xs : Bytes) (i : ℕ) (x : ℕ) → All (λ b. b < 256) xs → get_elem? xs i ≡ some x → x < 256
get_elem?-All [] i x h e = absurd (cc)
get_elem?-All (y ∷ xs) zero x h e = ground (arith, h.0)
get_elem?-All (y ∷ xs) (suc i) x h e = get_elem?-All xs i x h.1 e

offset_of-lt :
    (tag : Bytes) → IsTag tag → (offset : ℕ) × (offset_of tag ≡ some offset) × (offset < 16)
unfolding offset_of
offset_of-lt [] v = absurd (omega (arith, v.sized))
offset_of-lt (x ∷ xs) v =
    let (last, e) = get_elem?-some (x ∷ xs) (length xs) (omega arith) in
    (bit_and last 0x0f, rw e, nibble-lt last (get_elem?-All (x ∷ xs) (length xs) last v.bytes e))

modulus_lem : (digits : ℕ) → digits ≤ 9 → (10 ^ digits % u32_mod ≡ 10 ^ digits) × (0 < 10 ^ digits)
modulus_lem digits h =
    let le : 10 ^ digits ≤ 10 ^ 9 = pow-le-pow_right (omega arith) h in
    let pos : 1 ≤ 10 ^ digits = one-le-pow digits 10 (omega arith) in (omega arith, pos)

rem_u32-lt :
    (a m : ℕ) → 0 < m → (c : ℕ) × ((if m == 0 then none else some (a % m)) ≡ some c) × (c < m)
rem_u32-lt a m h = (a % m, ground arith, omega arith)

truncate-lt :
    (tag : Bytes) (offset digits : ℕ)
    → IsTag tag
    → offset < 16
    → digits ≤ 9
    → (c : ℕ) × (truncate tag offset digits ≡ some c) × (c < 10 ^ digits)
unfolding truncate
truncate-lt tag offset digits v lt small =
    let (a, ea) = get_elem?-some tag offset (omega (arith, v.sized)) in
    let (b, eb) = get_elem?-some tag (offset + 1) (omega (arith, v.sized)) in
    let (c, ec) = get_elem?-some tag (offset + 2) (omega (arith, v.sized)) in
    let (d, ed) = get_elem?-some tag (offset + 3) (omega (arith, v.sized)) in
    let (m, pos) = modulus_lem digits small in
    rw (ea, eb, ec, ed, m) (rem_u32-lt (combine a b c d) (10 ^ digits) pos)

-- Every tag has 20 bytes.
abbrev pub IsHmac : (Bytes → Bytes → Bytes) → Type 0
IsHmac hmac = (key msg : Bytes) → IsTag (hmac key msg)

windows :
    (t : Totp) (now sent : ℕ)
    → t.step_secs ≡ 30
    → sent ≤ now + 30
    → now ≤ sent + 30
    → now + 30 ≤ max_u64
    → (sent / t.step_secs ≡ (now - t.step_secs) / t.step_secs)
      ⊎ ((sent / t.step_secs ≡ now / t.step_secs)
          ⊎ (sent / t.step_secs ≡ min (now + t.step_secs) max_u64 / t.step_secs))
windows t now sent step early late fits = ground arith

module _ (hmac : Bytes → Bytes → Bytes) where
  -- A code is made at every time, without a panic, and has the configured number of digits, if there
  -- are at most nine and tags are 20 bytes.
  pub generate_in_range :
      (t : Totp) (timestamp : ℕ)
      → IsTag (hmac t.secret (be64 (timestamp / t.step_secs)))
      → t.digits ≤ 9
      → (c : ℕ) × (generate hmac t timestamp ≡ some c) × (c < 10 ^ t.digits)
  unfolding generate
  generate_in_range t timestamp v small =
      let (offset, e, lt) = offset_of-lt (hmac t.secret (be64 (timestamp / t.step_secs))) v in
      rw e (truncate-lt (hmac t.secret (be64 (timestamp / t.step_secs))) offset t.digits v lt small)

  generate_same_step :
      (t : Totp) (a b : ℕ)
      → a / t.step_secs ≡ b / t.step_secs
      → generate hmac t a ≡ generate hmac t b
  unfolding generate
  generate_same_step t a b e = rw e

  any_window_none : (t : Totp) (code : ℕ) → any_window hmac t code [] ≡ some false
  unfolding any_window
  any_window_none t code = refl

  any_window_cases :
      (t : Totp) (code ts c : ℕ) (rest : List ℕ)
      → generate hmac t ts ≡ some c
      → any_window hmac t code (ts ∷ rest)
        ≡ (if c == code then some true else any_window hmac t code rest)
  unfolding any_window
  any_window_cases t code ts c rest e = rw e

  -- Once each window has its code, the loop accepts exactly those three.
  any_window_three :
      (t : Totp) (code : ℕ) (a b c x y z : ℕ)
      → generate hmac t a ≡ some x
      → generate hmac t b ≡ some y
      → generate hmac t c ≡ some z
      → any_window hmac t code (a ∷ b ∷ c ∷ []) ≡ some (x == code || y == code || z == code)
  any_window_three t code a b c x y z ea eb ec = ground (
    arith,
    any_window_cases t code a x (b ∷ c ∷ []) ea,
    any_window_cases t code b y (c ∷ []) eb,
    any_window_cases t code c z [] ec,
    any_window_none t code,
  )

  -- The three codes that `verify` compares with.
  verify_lem :
      (t : Totp) (now code : ℕ)
      → IsHmac hmac
      → t.digits ≤ 9
      → (x : ℕ) × (y : ℕ) × (z : ℕ) × (generate hmac t (now - t.step_secs) ≡ some x)
        × (generate hmac t now ≡ some y)
        × (generate hmac t (min (now + t.step_secs) max_u64) ≡ some z)
        × (verify hmac t now code ≡ some (x == code || y == code || z == code))
  unfolding verify
  verify_lem t now code tags small =
      let (x, ex, _) = generate_in_range t (now - t.step_secs) (tags _ _) small in
      let (y, ey, _) = generate_in_range t now (tags _ _) small in
      let (z, ez, _) = generate_in_range t (min (now + t.step_secs) max_u64) (tags _ _) small in
      (x, y, z, ex, ey, ez, any_window_three t code _ _ _ x y z ex ey ez)

  -- For at most nine digits, tags of 20 bytes and a clock that fits 64 bits, `verify` never panics: it
  -- refuses the code, or accepts it and the code is that of a time within one step of the clock.
  pub verify_sound :
      (t : Totp) (now code : ℕ)
      → IsHmac hmac
      → t.digits ≤ 9
      → now ≤ max_u64
      → (verify hmac t now code ≡ some false)
        ⊎ ((verify hmac t now code ≡ some true)
            × (ts : ℕ) × (now ≤ ts + t.step_secs)
            × (ts ≤ now + t.step_secs)
            × (generate hmac t ts ≡ some code))
  verify_sound t now code tags small fits =
      let (x, y, z, ex, ey, ez, e) = verify_lem t now code tags small in
      elim (Bool-cases (x == code)) [
        | inl hit ↦ inr (ground arith, now - t.step_secs, omega arith, omega arith, ground arith)
        | inr miss ↦ elim (Bool-cases (y == code)) [
          | inl hit ↦ inr (ground arith, now, omega arith, omega arith, ground arith)
          | inr miss' ↦ elim (Bool-cases (z == code)) [
            | inl hit ↦ inr (
              ground arith,
              min (now + t.step_secs) max_u64,
              omega arith,
              omega arith,
              ground arith,
            )
            | inr miss'' ↦ inl (ground arith)
          ]
        ]
      ]

  -- A code made at most one step of 30 seconds before or after the server's clock is accepted, for
  -- at most nine digits, tags of 20 bytes and a clock that does not overflow with the step.
  pub verify_accepts_drift :
      (t : Totp) (now sent code : ℕ)
      → IsHmac hmac
      → t.digits ≤ 9
      → t.step_secs ≡ 30
      → sent ≤ now + 30
      → now ≤ sent + 30
      → now + 30 ≤ max_u64
      → generate hmac t sent ≡ some code
      → verify hmac t now code ≡ some true
  verify_accepts_drift t now sent code tags small step early late fits e =
      let (x, y, z, ex, ey, ez, v) = verify_lem t now code tags small in
      ground (
        arith,
        windows t now sent step early late fits,
        generate_same_step t sent now,
        generate_same_step t sent (now - t.step_secs),
        generate_same_step t sent (min (now + t.step_secs) max_u64),
      )
