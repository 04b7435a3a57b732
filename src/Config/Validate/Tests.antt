-- ===== src/Config/Validate/Tests.antt =====
-- src/config/loader.rs: runs of validation, and its theorems at inputs.
use gsc_fq.Common.{
  ◌≡◌, ◌⊎◌, refl, Bool, true, false, ◌||◌, none, some, [], ◌∷◌, Bytes, codes, All, Pairwise,
  contains,
}
use gsc_fq.Common.Results.{ok, err}
use gsc_fq.Config.Sections.{
  ProxySection, ReverseProxySection, get_local_port, get_remote_port, get_remote_host,
  get_server_port, get_service_port, split, digits_u16, parse_u16, port_of, port_behind,
}
use gsc_fq.Config.Validate.{
  ConfigFile, null_source_ip, validate, check_bind_ip, check_proxies, check_proxy, check_ports,
  check_source_ip, is_null, check_reverses, check_reverse, check_service, duplicate_port,
}
use gsc_fq.Config.Validate.Sound.{ValidProxy, Differ, validate-valid}
use gsc_fq.Config.Validate.Reverse
use gsc_fq.Config.Validate.Reverse.{ValidReverse, validate-reverse}

abbrev trim : Bytes → Bytes
trim s = s

abbrev is_ip : Bytes → Bool
is_ip s = true

abbrev web : ProxySection
web = record {
  local = codes "8080";
  remote = codes "10.0.0.1:80";
  source_ip = some (codes "NULL");
  allow_ips = none;
  max_conns_per_ip = none;
  cps_limit = none;
}

abbrev service : ReverseProxySection
service = record { server = codes "7000"; local = codes "::1:22"; source_ip = none }

abbrev file : ConfigFile
file = record {
  server = none;
  proxies = web ∷ [];
  reverse_proxies = service ∷ [];
  has_server = false;
  has_client = true;
}

abbrev sanitized : ConfigFile
sanitized = record file { proxies = (record web { source_ip = none }) ∷ [] }

accepted_file : validate trim is_ip file ≡ ok (sanitized, null_source_ip 0 ∷ [])
unfolding validate check_bind_ip check_proxies check_proxy check_ports check_source_ip is_null
    check_reverses check_reverse check_service get_local_port get_remote_port get_remote_host
    get_server_port get_service_port split parse_u16 digits_u16 port_of port_behind contains
accepted_file = refl

twice :
    validate trim is_ip (record file { proxies = web ∷ web ∷ [] })
    ≡ err (duplicate_port 1 8080 ∷ [])
unfolding validate check_bind_ip check_proxies check_proxy check_ports check_source_ip is_null
    check_reverses check_reverse check_service get_local_port get_remote_port get_remote_host
    get_server_port get_service_port split parse_u16 digits_u16 port_of port_behind contains
twice = refl

validate-valid_example :
    All (ValidProxy trim is_ip) sanitized.proxies × Pairwise (Differ trim is_ip) sanitized.proxies
validate-valid_example =
    validate-valid trim is_ip file sanitized (null_source_ip 0 ∷ []) accepted_file

validate-reverse_example :
    All (ValidReverse trim is_ip) (service ∷ [])
    × Pairwise (Reverse.Differ trim is_ip) (service ∷ [])
    × ((file.reverse_proxies ≡ []) ⊎ ((file.has_server || file.has_client) ≡ true))
validate-reverse_example =
    validate-reverse trim is_ip file sanitized (null_source_ip 0 ∷ []) accepted_file
