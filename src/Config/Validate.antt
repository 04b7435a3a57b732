-- ===== src/Config/Validate.antt =====
-- src/config/loader.rs: `ConfigFile::validate`. `trim` and `is_ip` (whether `parse::<IpAddr>()`
-- succeeds) are the standard library's. A message is the value that it prints; sections that
-- validation does not read are left out but for whether they are there.
use gsc_fq.Common.{
  ℕ, zero, suc, ◌+◌, Bool, true, false, not, ◌&&◌, ◌||◌, Option, none, some, List, [], ◌∷◌, ◌++◌,
  arith, leb, ◌==◌, if◌then◌else◌, Bytes, bytes_eq, codes, contains, nat_eq, map,
}
use gsc_fq.Common.Results.{Result, ok, err}
use gsc_fq.Config.Sections.{
  ProxySection, ReverseProxySection, InvalidConfigValue, get_local_port, get_remote_host,
  get_remote_port, get_server_port, get_service_port,
}
pub mod Sound
pub mod Reverse
pub mod Tests

pub record ServerSection : Type 0 where
  pub bind_ip : Option Bytes

pub record ConfigFile : Type 0 where
  pub server : Option ServerSection
  pub proxies : List ProxySection
  pub reverse_proxies : List ReverseProxySection
  pub has_server : Bool
  pub has_client : Bool

pub data Issue : Type 0 where
  reverse_without_peer : Issue
  invalid_bind_ip : Bytes → Issue
  invalid_value : ℕ → InvalidConfigValue → Issue
  zero_port : ℕ → Issue
  duplicate_port : ℕ → ℕ → Issue
  invalid_source_ip : ℕ → Bytes → Issue

pub data Warning : Type 0 where
  empty_bind_ip : Warning
  empty_source_ip : ℕ → Warning
  null_source_ip : ℕ → Warning

-- `eq_ignore_ascii_case`.
abbrev pub to_lower : ℕ → ℕ
to_lower c = if leb b'A' c && leb c b'Z' then c + 32 else c

unfoldable pub is_null : Bytes → Bool
is_null text = bytes_eq (map to_lower text) (codes "null")

-- An issue if a condition holds.
abbrev pub issue_if : Bool → Issue → List Issue
issue_if true i = i ∷ []
issue_if false i = []

-- `HashSet::insert`.
abbrev pub add_port : List ℕ → ℕ → List ℕ
add_port seen port = if contains seen port then seen else port ∷ seen

abbrev pub proxies_without_peer : List ReverseProxySection → Bool → Bool → List Issue
proxies_without_peer [] has_server has_client = []
proxies_without_peer (r ∷ rs) has_server has_client =
    issue_if (not has_server && not has_client) reverse_without_peer

-- What one round of the loop over the forward proxies leaves.
pub record Round : Type 0 where
  pub proxy : ProxySection
  pub seen : List ℕ
  pub errors : List Issue
  pub warnings : List Warning

-- `continue` after an error.
abbrev pub skipped : ℕ → List ℕ → ProxySection → List Issue → InvalidConfigValue → Round
skipped i seen p before e = record {
  proxy = p;
  seen = seen;
  errors = before ++ (invalid_value i e ∷ []);
  warnings = [];
}

-- The end of `validate`: the errors, if there is one.
abbrev pub verdict :
    List Issue → ConfigFile × List Warning → Result (ConfigFile × List Warning) (List Issue)
verdict [] r = ok r
verdict (e ∷ es) r = err (e ∷ es)

module _ (trim : Bytes → Bytes) (is_ip : Bytes → Bool) where
  -- The section after the check, and what is found.
  unfoldable pub check_bind_ip :
      Option ServerSection → Option ServerSection × List Issue × List Warning
  check_bind_ip none = (none, [], [])
  check_bind_ip (some s) = elim s.bind_ip [
    | none ↦ (some s, [], [])
    | some current ↦
        let trimmed = trim current in
        if bytes_eq trimmed []
        then (some (record { bind_ip = some (codes "127.0.0.1") }), [], empty_bind_ip ∷ [])
        else if not (is_ip trimmed)
        then (some s, invalid_bind_ip trimmed ∷ [], [])
        else (some (record { bind_ip = some trimmed }), [], [])
  ]

  -- A source address: what is kept of it, and what is found.
  unfoldable pub check_source_ip : ℕ → Option Bytes → Option Bytes × List Issue × List Warning
  unfolding is_null
  check_source_ip i none = (none, [], [])
  check_source_ip i (some source) =
      let trimmed = trim source in
      if bytes_eq trimmed []
      then (none, [], empty_source_ip i ∷ [])
      else if is_null trimmed
      then (none, [], null_source_ip i ∷ [])
      else if not (is_ip trimmed)
      then (some source, invalid_source_ip i trimmed ∷ [], [])
      else (some source, [], [])

  -- The checks behind a valid remote address.
  unfoldable pub check_ports : ℕ → List ℕ → ProxySection → ℕ → ℕ → Round
  unfolding check_source_ip
  check_ports i seen p local_port remote_port =
      let (source, bad, warned) = check_source_ip i p.source_ip in
      record {
        proxy = record p { source_ip = source };
        seen = add_port seen local_port;
        errors =
            issue_if (local_port == 0) (zero_port i)
            ++ (issue_if (remote_port == 0) (zero_port i)
                ++ (issue_if (contains seen local_port) (duplicate_port i local_port) ++ bad));
        warnings = warned;
      }

  unfoldable pub check_proxy : ℕ → List ℕ → ProxySection → Round
  unfolding check_ports
  check_proxy i seen p = elim (get_local_port p) [
    | err e ↦ skipped i seen p [] e
    | ok local_port ↦
        let before = issue_if (local_port == 0) (zero_port i) in
        elim (get_remote_host p) [
          | err e ↦ skipped i seen p before e
          | ok host ↦ elim (get_remote_port p) [
            | err e ↦ skipped i seen p before e
            | ok remote_port ↦ check_ports i seen p local_port remote_port
          ]
        ]
  ]

  unfoldable pub check_proxies :
      ℕ → List ℕ → List ProxySection → List ProxySection × List Issue × List Warning
  unfolding check_proxy
  check_proxies i seen [] = ([], [], [])
  check_proxies i seen (p ∷ ps) =
      let round = check_proxy i seen p in
      let (qs, errors, warnings) = check_proxies (suc i) round.seen ps in
      (round.proxy ∷ qs, round.errors ++ errors, round.warnings ++ warnings)

  -- The checks behind a valid server port; the source address is not changed here.
  unfoldable pub check_service : ℕ → ReverseProxySection → List Issue × List Warning
  unfolding check_source_ip
  check_service i r = elim (get_service_port r) [
    | err e ↦ (invalid_value i e ∷ [], [])
    | ok port ↦
        let (source, bad, warned) = check_source_ip i r.source_ip in
        (issue_if (port == 0) (zero_port i) ++ bad, warned)
  ]

  unfoldable pub check_reverse :
      ℕ → List ℕ → ReverseProxySection → List ℕ × List Issue × List Warning
  unfolding check_service
  check_reverse i seen r = elim (get_server_port r) [
    | err e ↦ (seen, invalid_value i e ∷ [], [])
    | ok port ↦
        let (bad, warned) = check_service i r in
        (
          add_port seen port,
          issue_if (port == 0) (zero_port i)
              ++ (issue_if (contains seen port) (duplicate_port i port) ++ bad),
          warned,
        )
  ]

  unfoldable pub check_reverses : ℕ → List ℕ → List ReverseProxySection → List Issue × List Warning
  unfolding check_reverse
  check_reverses i seen [] = ([], [])
  check_reverses i seen (r ∷ rs) =
      let (seen', errors, warnings) = check_reverse i seen r in
      let (errors', warnings') = check_reverses (suc i) seen' rs in
      (errors ++ errors', warnings ++ warnings')

  -- The configuration with its sanitized values and the warnings, or the errors.
  unfoldable pub validate : ConfigFile → Result (ConfigFile × List Warning) (List Issue)
  unfolding check_bind_ip check_proxies check_reverses
  validate c =
      let (server, bad_bind, warned_bind) = check_bind_ip c.server in
      let (proxies, bad_proxies, warned_proxies) = check_proxies 0 [] c.proxies in
      let (bad_reverse, warned_reverse) = check_reverses 0 [] c.reverse_proxies in
      let errors =
        proxies_without_peer c.reverse_proxies c.has_server c.has_client
        ++ (bad_bind ++ (bad_proxies ++ bad_reverse)) in
      verdict errors (
        record c { server = server; proxies = proxies },
        warned_bind ++ (warned_proxies ++ warned_reverse),
      )
