-- ===== src/Config/Sections.antt =====
-- src/config/loader.rs: the sections of the configuration file and the parts of their addresses. A
-- text is a list of code points. `cps_limit` holds the value that the limit is compared with, as usize.
use gsc_fq.Common.{
  ℕ, zero, suc, ◌+◌, ◌-◌, ◌*◌, Bool, true, false, ◌&&◌, Option, none, some, List, [], ◌∷◌, ◌++◌,
  arith, leb, ltb, ◌==◌, if◌then◌else◌, Bytes, codes, length, contains, nat_eq,
}
use gsc_fq.Common.Results.{Result, ok, err}
pub mod Addresses
pub mod Tests

pub record ProxySection : Type 0 where
  pub local : Bytes
  pub remote : Bytes
  pub source_ip : Option Bytes
  pub allow_ips : Option (List Bytes)
  pub max_conns_per_ip : Option ℕ
  pub cps_limit : Option ℕ

pub record ReverseProxySection : Type 0 where
  pub server : Bytes
  pub local : Bytes
  pub source_ip : Option Bytes

-- The field at fault, and whether the form or the port number of it is wrong.
pub data InvalidConfigValue : Type 0 where
  invalid_format : Bytes → InvalidConfigValue
  invalid_port : Bytes → InvalidConfigValue

abbrev pub onto_first : ℕ → List Bytes → List Bytes
onto_first c [] = (c ∷ []) ∷ []
onto_first c (p ∷ ps) = (c ∷ p) ∷ ps

-- `split(':').collect()`.
unfoldable pub split : Bytes → List Bytes
split [] = [] ∷ []
split (c ∷ cs) = let parts = split cs in if c == b':' then [] ∷ parts else onto_first c parts

-- `parts[0..parts.len() - 1].join(":")` and the last of the parts, which is the first of `rsplit`.
abbrev pub join : List Bytes → Bytes
join [] = []
join (p ∷ []) = p
join (p ∷ q ∷ ps) = p ++ (b':' ∷ join (q ∷ ps))

abbrev pub front : List Bytes → List Bytes
front [] = []
front (p ∷ []) = []
front (p ∷ q ∷ ps) = p ∷ front (q ∷ ps)

abbrev pub final : List Bytes → Bytes
final [] = []
final (p ∷ []) = p
final (p ∷ q ∷ ps) = final (q ∷ ps)

-- `parse::<u16>()`: digits, with a plus sign before them or not, of a value that fits.
unfoldable pub digits_u16 : ℕ → Bytes → Option ℕ
digits_u16 value [] = some value
digits_u16 value (c ∷ cs) =
    let next = value * 10 + (c - b'0') in
    let rest = digits_u16 next cs in
    if leb b'0' c && leb c b'9' then (if ltb next 65536 then rest else none) else none

unfoldable pub parse_u16 : Bytes → Option ℕ
unfolding digits_u16
parse_u16 [] = none
parse_u16 (c ∷ []) = digits_u16 0 (c ∷ [])
parse_u16 (c ∷ d ∷ cs) = if c == b'+' then digits_u16 0 (d ∷ cs) else digits_u16 0 (c ∷ d ∷ cs)

unfoldable pub port_of : Bytes → Bytes → Result ℕ InvalidConfigValue
unfolding parse_u16
port_of path text = elim (parse_u16 text) [ none ↦ err (invalid_port path) | some n ↦ ok n ]

-- `ProxySection::get_local_port`, of exactly two parts.
unfoldable pub get_local_port : ProxySection → Result ℕ InvalidConfigValue
unfolding split
get_local_port p =
    let parts = split p.local in
    if contains p.local b':'
    then (if length parts == 2
        then port_of (codes "local") (final parts)
        else err (invalid_format (codes "local")))
    else port_of (codes "local") p.local

unfoldable pub get_local_ip : ProxySection → Option Bytes
unfolding split
get_local_ip p =
    let parts = split p.local in
    if contains p.local b':'
    then (if length parts == 2 then some (join (front parts)) else none)
    else none

-- `get_remote_host` and the three functions like it: all parts but the last.
unfoldable pub get_remote_host : ProxySection → Result Bytes InvalidConfigValue
unfolding split
get_remote_host p =
    let parts = split p.remote in
    if contains p.remote b':'
    then (if ltb (length parts) 2
        then err (invalid_format (codes "remote"))
        else ok (join (front parts)))
    else ok (codes "localhost")

-- The port behind the last colon, or the whole text.
unfoldable pub port_behind : Bytes → Bytes → Result ℕ InvalidConfigValue
unfolding split
port_behind path text =
    let parts = split text in
    if contains text b':'
    then (if ltb (length parts) 2 then err (invalid_format path) else port_of path (final parts))
    else port_of path text

unfoldable pub get_remote_port : ProxySection → Result ℕ InvalidConfigValue
unfolding port_behind
get_remote_port p = port_behind (codes "remote") p.remote

unfoldable pub get_server_port : ReverseProxySection → Result ℕ InvalidConfigValue
unfolding port_behind
get_server_port r = port_behind (codes "server") r.server

unfoldable pub get_service_port : ReverseProxySection → Result ℕ InvalidConfigValue
unfolding port_behind
get_service_port r = port_behind (codes "local") r.local

unfoldable pub get_server_ip : ReverseProxySection → Option Bytes
unfolding split
get_server_ip r =
    let parts = split r.server in
    if contains r.server b':'
    then (if leb 2 (length parts) then some (join (front parts)) else none)
    else none

unfoldable pub get_local_host : ReverseProxySection → Option Bytes
unfolding split
get_local_host r =
    let parts = split r.local in
    if contains r.local b':'
    then (if leb 2 (length parts) then some (join (front parts)) else some (codes "localhost"))
    else some (codes "localhost")
