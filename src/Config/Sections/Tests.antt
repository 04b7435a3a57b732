-- ===== src/Config/Sections/Tests.antt =====
-- src/config/loader.rs: runs of the getters, and their theorem at an input.
use gsc_fq.Common.{◌≡◌, refl, false, none, some, codes, contains, nat_eq}
use gsc_fq.Common.Results.{ok, err}
use gsc_fq.Config.Sections.{
  ProxySection, ReverseProxySection, get_local_port, get_remote_host, get_remote_port,
  get_server_ip, get_server_port, invalid_format, split, parse_u16, digits_u16,
}
use gsc_fq.Config.Sections.Addresses.{host_port-split}

abbrev proxy : ProxySection
proxy = record {
  local = codes "::1:8080";
  remote = codes "::1:80";
  source_ip = none;
  allow_ips = none;
  max_conns_per_ip = none;
  cps_limit = none;
}

abbrev reverse : ReverseProxySection
reverse = record { server = codes "::1:80"; local = codes "22"; source_ip = none }

-- A local IPv6 address is refused, unlike a remote one.
local_refused : get_local_port proxy ≡ err (invalid_format (codes "local"))
unfolding get_local_port split contains
local_refused = refl

plain : contains (codes "80") b':' ≡ false
unfolding contains
plain = refl

eighty : parse_u16 (codes "80") ≡ some 80
unfolding parse_u16 digits_u16
eighty = refl

host_port-split_example :
    (get_remote_host proxy ≡ ok (codes "::1"))
    × (get_remote_port proxy ≡ ok 80)
    × (get_server_ip reverse ≡ some (codes "::1"))
    × (get_server_port reverse ≡ ok 80)
host_port-split_example =
    host_port-split (codes "::1") (codes "80") 80 proxy reverse plain eighty refl refl
