-- ===== src/ReverseProxy/Handshake/Exposure.antt =====
-- src/config/runtime.rs and src/reverse_proxy/server.rs: what the configured secrets protect.
use gsc_fq.Common.{ℕ, ◌≡◌, ◌≢◌, refl, none, some, [], Bytes}
use gsc_fq.ReverseProxy.Protocol.{protocol_version, ClientHello}
use gsc_fq.ReverseProxy.Handshake.{
  Env, ServerSection, run_server, welcomed, negotiate, welcome, token_valid, totp_valid,
}
use gsc_fq.ReverseProxy.Handshake.Checks.{negotiate_checks}

-- The server that the program starts with no token in the environment welcomes every client of this
-- version with a proxy and a right hash, whatever its token and password, and whatever tokens and
-- TOTP secret the configuration file sets.
pub run_server_open :
    (env : Env) (section : ServerSection) (now : ℕ) (session : Bytes) (hello : ClientHello)
    → hello.version ≡ protocol_version
    → env.digest hello.proxies ≡ some hello.config_hash
    → hello.proxies ≢ []
    → negotiate env (run_server none section) now session hello
      ≡ welcomed (welcome env session hello.proxies) hello.proxies
unfolding run_server token_valid totp_valid
run_server_open env section now session hello version hash proxies =
    (negotiate_checks env (run_server none section) now session hello _ _).1 (
      record { version = version; token = refl; totp = refl; hash = hash; proxies = proxies },
      refl,
      refl,
    )
