-- ===== src/ReverseProxy/Handshake/Enrolment.antt =====
-- src/utils/totp.rs and src/reverse_proxy/server.rs: a secret that was generated and put into the
-- configuration, as `gsc-fq -g` says.
use gsc_fq.Common.{ℕ, ◌+◌, ◌≤◌, ◌≡◌, refl, true, not, some, arith, ◌==◌, Bytes, length, keep}
use gsc_fq.Utils.Totp
use gsc_fq.Utils.Totp.{Totp, max_u64}
use gsc_fq.Utils.Totp.Codes.{IsHmac, generate_in_range, verify_accepts_drift}
use gsc_fq.Utils.Totp.Secret.{generate_random}
use gsc_fq.ReverseProxy.Handshake.{Env, Server, pad_base32, from_base32, totp_of, totp_valid}

-- Ten bytes are sixteen characters, without padding, and are decoded as they were.
pub record IsBase32 (env : Env) (encode : Bytes → Bytes) : Type 0 where
  pub sixteen : (bytes : Bytes) → length bytes ≡ 10 → length (encode bytes) ≡ 16
  pub decodes : (bytes : Bytes) → env.base32_decode (encode bytes) ≡ some bytes

pad_base32-whole : (s : Bytes) → length s ≡ 16 → pad_base32 8 s ≡ s
unfolding pad_base32
pad_base32-whole s e = rw e refl

module _ (env : Env) (encode : Bytes → Bytes) (laws : IsBase32 env encode) where
  from_base32-typed :
      (random typed : Bytes)
      → length random ≡ 10
      → env.to_uppercase (keep (λ c. not (c == b' ')) typed) ≡ encode random
      → from_base32 env typed ≡ some (Totp.new random)
  unfolding from_base32
  from_base32-typed random typed ten same =
      let clean = env.to_uppercase (keep (λ c. not (c == b' ')) typed) in
      let key : env.base32_decode (pad_base32 8 clean) ≡ some random =
        rw (same, pad_base32-whole (encode random) (laws.sixteen random ten), laws.decodes random)
          refl in
      rw (key, from_base32) refl

  -- A secret of ten random bytes, typed into the server's configuration in whatever case and with
  -- whatever spaces, is the generated one: the code that an authenticator makes of it, at most 30
  -- seconds before or after the server's clock, passes the second factor. Tags are 20 bytes, the
  -- clock does not overflow with a step, and BASE32 decodes what it encoded, of which ten bytes fill
  -- sixteen characters.
  pub enrolled_code-valid :
      (s : Server) (random typed : Bytes) (sent now : ℕ)
      → IsHmac env.hmac
      → length random ≡ 10
      → env.to_uppercase (keep (λ c. not (c == b' ')) typed) ≡ (generate_random encode random).1
      → s.totp_secret ≡ some typed
      → sent ≤ now + 30
      → now ≤ sent + 30
      → now + 30 ≤ max_u64
      → (code : ℕ) × (Totp.generate env.hmac (generate_random encode random).0 sent ≡ some code)
        × (totp_valid env s (some code) now ≡ some true)
  unfolding totp_valid totp_of generate_random Totp.new
  enrolled_code-valid s random typed sent now tags ten same configured early late fits =
      let t = Totp.new random in
      let (code, made, _) = generate_in_range env.hmac t sent (tags _ _) (omega arith) in
      let holds =
        verify_accepts_drift env.hmac t now sent code tags (omega arith) refl early late fits
          made in
      (code, made, rw (configured, totp_of, from_base32-typed random typed ten same) holds)
