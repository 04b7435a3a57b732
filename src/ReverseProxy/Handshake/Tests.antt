-- ===== src/ReverseProxy/Handshake/Tests.antt =====
-- src/reverse_proxy: runs of the handshake, and its theorems at inputs.
use gsc_fq.Common.{
  ℕ, ◌-◌, ◌≡◌, inl, ◌↔◌, refl, inr, none, some, true, List, [], ◌∷◌, ◌++◌, arith, codes, Bytes,
  length, take, length-append, take-append,
}
use gsc_fq.Common.Results.{ok}
use gsc_fq.Utils.Totp.Codes.{IsHmac}
use gsc_fq.ReverseProxy.Protocol.{
  ReverseProxyConfig, ClientHello, ServerHello, accepted, ping, server_hello,
}
use gsc_fq.ReverseProxy.Handshake.{
  Env, Server, Client, ServerSection, run_server, welcomed, dropped, negotiate, welcome,
  handle_client, expected_client_hello, pad_base32, make_hello, judge, totp_valid,
}
use gsc_fq.ReverseProxy.Handshake.Decision.{Entitled, negotiate_iff}
use gsc_fq.ReverseProxy.Handshake.Exposure.{run_server_open}
use gsc_fq.ReverseProxy.Handshake.Enrolment.{IsBase32, enrolled_code-valid}
use gsc_fq.Utils.Totp
use gsc_fq.Utils.Totp.Secret.{generate_random}
use gsc_fq.ReverseProxy.Handshake.Agreement.{Knows, client_welcomed}

-- Stand-ins for the packages that are enough for the runs.
abbrev env : Env
env = record {
  base32_decode = λ s. none;
  to_uppercase = λ s. s;
  hmac = λ key msg.
      1 ∷ 2 ∷ 3 ∷ 4 ∷ 5 ∷ 6 ∷ 7 ∷ 8 ∷ 9 ∷ 10 ∷ 11 ∷ 12 ∷ 13 ∷ 14 ∷ 15 ∷ 16 ∷ 17 ∷ 18 ∷ 19 ∷ 20 ∷ [];
  digest = λ configs. some (b'h' ∷ []);
  display = λ n. b'1' ∷ [];
}

env-IsHmac : IsHmac env.hmac
env-IsHmac key msg = record { sized = refl; bytes = omega arith }

abbrev web : ReverseProxyConfig
web = record { server_port = 8080; server_host = none; local_host = b'h' ∷ []; local_port = 80 }

abbrev guarded : Server
guarded = record {
  auth_token = some (b't' ∷ []);
  allowed_tokens = [];
  totp_secret = some (b'k' ∷ []);
}

abbrev knowing : Client
knowing = record { auth_token = some (b't' ∷ []); totp_secret = some (b'k' ∷ []) }

abbrev stranger : ClientHello
stranger = record {
  version = 1;
  token = [];
  totp_code = none;
  proxies = web ∷ [];
  config_hash = b'h' ∷ [];
}

abbrev section : ServerSection
section = record { port = 9001; allowed_tokens = (b't' ∷ []) ∷ []; totp_secret = some (b'k' ∷ []) }

not_a_hello : handle_client env guarded 0 [] ping ≡ dropped expected_client_hello
unfolding handle_client
not_a_hello = refl

padded : pad_base32 8 (codes "ABCDE") ≡ codes "ABCDE==="
unfolding pad_base32
padded = refl

stranger-Entitled : Entitled env (run_server none section) 1000 stranger
unfolding run_server
stranger-Entitled = record {
  version = refl;
  token = inl refl;
  code = inl refl;
  hash = refl;
  proxies = λ e. cc;
}

run_server_open_example :
    negotiate env (run_server none section) 1000 [] stranger
    ≡ welcomed (welcome env [] (web ∷ [])) (web ∷ [])
run_server_open_example = run_server_open env section 1000 [] stranger refl refl (λ e. cc)

abbrev answer : ServerHello
answer = record {
  version = 1;
  status = accepted;
  message = codes "Connected, 1 ports allocated";
  allowed_ports = 8080 ∷ [];
  session_id = some [];
}

negotiate_iff_example : (negotiate env guarded 1000 [] stranger ≡ welcomed answer (web ∷ [])) ↔ (
    Entitled env guarded 1000 stranger
    × (◌≡◌ {A = ServerHello} answer answer)
    × (◌≡◌ {A = List ReverseProxyConfig} (web ∷ []) (web ∷ [])))
negotiate_iff_example =
    negotiate_iff env env-IsHmac guarded 1000 [] stranger answer (web ∷ []) (omega arith)

knowing-Knows : Knows knowing guarded
knowing-Knows = record { token = inr refl; secret = inr refl }

client_welcomed_example :
    (hello : ClientHello) × (make_hello env knowing (web ∷ []) 1010 ≡ ok hello)
    × (negotiate env guarded 1000 [] hello ≡ welcomed (welcome env [] (web ∷ [])) (web ∷ []))
    × (judge (server_hello (welcome env [] (web ∷ []))) ≡ ok tt)
client_welcomed_example =
    client_welcomed env env-IsHmac knowing guarded (web ∷ []) 1010 1000 [] (b'h' ∷ []) knowing-Knows
      refl (λ e. cc) (omega arith) (omega arith) (omega arith)

-- A stand-in for BASE32 that writes six bytes behind the secret.
abbrev six : Bytes
six = 0 ∷ 0 ∷ 0 ∷ 0 ∷ 0 ∷ 0 ∷ []

abbrev encode : Bytes → Bytes
encode bytes = bytes ++ six

abbrev env_32 : Env
env_32 = record env { base32_decode = λ s. some (take (length s - 6) s) }

encode-IsBase32 : IsBase32 env_32 encode
encode-IsBase32 = record {
  sixteen = λ bytes ten. omega (arith, length-append bytes six);
  decodes = λ bytes.
      let size : length (bytes ++ six) - 6 ≡ length bytes =
        omega (arith, length-append bytes six) in
      rw (size, take-append bytes six) refl;
}

abbrev random : Bytes
random = 1 ∷ 2 ∷ 3 ∷ 4 ∷ 5 ∷ 6 ∷ 7 ∷ 8 ∷ 9 ∷ 10 ∷ []

abbrev enrolled : Server
enrolled = record {
  auth_token = none;
  allowed_tokens = [];
  totp_secret = some (b' ' ∷ random ++ b' ' ∷ six);
}

enrolled_code-valid_example :
    (code : ℕ) × (Totp.generate env_32.hmac (generate_random encode random).0 1010 ≡ some code)
    × (totp_valid env_32 enrolled (some code) 1000 ≡ some true)
unfolding generate_random
enrolled_code-valid_example =
    enrolled_code-valid env_32 encode encode-IsBase32 enrolled random (b' ' ∷ random ++ b' ' ∷ six)
      1010 1000 env-IsHmac refl refl refl (omega arith) (omega arith) (omega arith)
