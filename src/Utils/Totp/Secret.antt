-- ===== src/Utils/Totp/Secret.antt =====
-- src/utils/totp.rs: a new secret, and its address for an authenticator. BASE32 of `data_encoding` and
-- the print of a number are parameters; the random bytes are an argument.
use gsc_fq.Common.{ℕ, ◌++◌, Bytes, codes}
use gsc_fq.Utils.Totp.{Totp, new}

-- The ten random bytes as a Totp and as a text.
unfoldable pub generate_random : (Bytes → Bytes) → Bytes → Totp × Bytes
unfolding new
generate_random encode random = (new random, encode random)

unfoldable pub generate_otpauth_uri : (Bytes → Bytes) → (ℕ → Bytes) → Totp → Bytes → Bytes → Bytes
generate_otpauth_uri encode display t label issuer =
    codes "otpauth://totp/"
    ++ (label
        ++ (codes "?secret="
            ++ (encode t.secret
                ++ (codes "&issuer="
                    ++ (issuer
                        ++ (codes "&digits="
                            ++ (display t.digits ++ (codes "&period=" ++ display t.step_secs))))))))
