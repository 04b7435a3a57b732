-- ===== src/Config/Validate/Reverse.antt =====
-- src/config/loader.rs: the reverse proxies of a configuration that `validate` accepts.
use gsc_fq.Common.{
  ℕ, suc, ◌≡◌, ◌≢◌, ◌⊎◌, inl, inr, refl, sym, ap, ◌∙◌, Bool, true, false, ◌||◌, List, [], ◌∷◌,
  Bytes, contains, nat_eq, All, All-mono, Pairwise, append-eq_nil,
}
use gsc_fq.Common.Results.{ok, Result-cases}
use gsc_fq.Config.Sections.{ReverseProxySection, get_server_port, get_service_port}
use gsc_fq.Config.Sections.Addresses.{get_server_port-lt, get_service_port-lt}
use gsc_fq.Config.Validate.{
  ConfigFile, Warning, check_service, check_reverse, check_reverses, proxies_without_peer, validate,
}
use gsc_fq.Config.Validate.Sound.{issue_if-nil, contains-false, accepted, IsPort, IsPort-checked}

peer_there :
    (rs : List ReverseProxySection) (has_server has_client : Bool)
    → proxies_without_peer rs has_server has_client ≡ []
    → (rs ≡ []) ⊎ ((has_server || has_client) ≡ true)
peer_there [] s t e = inl refl
peer_there (r ∷ rs) true t e = inr refl
peer_there (r ∷ rs) false true e = inr refl
peer_there (r ∷ rs) false false e = absurd (cc)

module _ (trim : Bytes → Bytes) (is_ip : Bytes → Bool) where
  pub record ValidReverse (r : ReverseProxySection) : Type 0 where
    pub server_port : ℕ
    pub local_port : ℕ
    pub server : get_server_port r ≡ ok server_port
    pub local : get_service_port r ≡ ok local_port
    pub server-IsPort : IsPort server_port
    pub local-IsPort : IsPort local_port

  check_service-valid :
      (i : ℕ) (r : ReverseProxySection)
      → (check_service trim is_ip i r).0 ≡ []
      → (n : ℕ) × (get_service_port r ≡ ok n) × IsPort n
  unfolding check_service
  check_service-valid i r e = elim (Result-cases (get_service_port r)) [
    | inr (x, bad) ↦ absurd (cc (rw (bad, check_service) at e))
    | inl (n, en) ↦
        let (zero_port, _) = append-eq_nil _ _ (rw (en, check_service) at e) in
        (n, en, IsPort-checked n (issue_if-nil _ _ zero_port) (get_service_port-lt r n en))
  ]

  -- A reverse proxy without an error: its server port is new, and is remembered.
  record Kept (seen : List ℕ) (r : ReverseProxySection) (after : List ℕ) : Type 0 where
    valid : ValidReverse r
    new : contains seen valid.server_port ≡ false
    remembered : after ≡ valid.server_port ∷ seen

  check_reverse-Kept :
      (i : ℕ) (seen : List ℕ) (r : ReverseProxySection)
      → (check_reverse trim is_ip i seen r).1 ≡ []
      → Kept seen r (check_reverse trim is_ip i seen r).0
  unfolding check_reverse
  check_reverse-Kept i seen r e = elim (Result-cases (get_server_port r)) [
    | inr (x, bad) ↦ absurd (cc (rw (bad, check_reverse) at e))
    | inl (m, em) ↦
        let (zero_port, rest) = append-eq_nil _ _ (rw (em, check_reverse) at e) in
        let (twice, bad) = append-eq_nil _ _ rest in
        let new = issue_if-nil _ _ twice in
        let (n, en, port) = check_service-valid i r bad in
        let after : (check_reverse trim is_ip i seen r).0 ≡ m ∷ seen =
          rw (em, check_reverse, new) refl in
        record {
          valid = record {
            server_port = m;
            local_port = n;
            server = em;
            local = en;
            server-IsPort =
                IsPort-checked m (issue_if-nil _ _ zero_port) (get_server_port-lt r m em);
            local-IsPort = port;
          };
          new = new;
          remembered = after;
        }
  ]

  -- Two reverse proxies on different ports of the server.
  pub Differ : ReverseProxySection → ReverseProxySection → Type 0
  Differ p q = (m n : ℕ) → get_server_port p ≡ ok m → get_server_port q ≡ ok n → m ≢ n

  abbrev Fresh : List ℕ → ReverseProxySection → Type 0
  Fresh seen q = (n : ℕ) → get_server_port q ≡ ok n → contains seen n ≡ false

  record AllKept (seen : List ℕ) (rs : List ReverseProxySection) : Type 0 where
    valid : All ValidReverse rs
    fresh : All (Fresh seen) rs
    apart : Pairwise Differ rs

  AllKept-cons :
      (seen after : List ℕ) (r : ReverseProxySection) (rs : List ReverseProxySection)
      → Kept seen r after
      → AllKept after rs
      → AllKept seen (r ∷ rs)
  unfolding Differ
  AllKept-cons seen after r rs k rest =
      let port = k.valid.server_port in
      let own : (n : ℕ) → get_server_port r ≡ ok n → port ≡ n =
        λ n e. cc (sym k.valid.server ∙ e) in
      let behind : (q : ReverseProxySection)
          → Fresh after q
          → (n : ℕ) → get_server_port q ≡ ok n
          → (contains seen n ≡ false) × (port ≢ n) =
        λ q f n e. contains-false port n seen (ap (λ s. contains s n) (sym k.remembered) ∙ f n e) in
      record {
        valid = (k.valid, rest.valid);
        fresh = (
          λ n e. rw (sym (own n e)) k.new,
          All-mono (Fresh after) (Fresh seen) rs (λ q f n e. (behind q f n e).0) rest.fresh,
        );
        apart = (
          All-mono (Fresh after) (Differ r) rs
              (λ q f m n em en same. (behind q f n en).1 (own m em ∙ same)) rest.fresh,
          rest.apart,
        );
      }

  check_reverses-Kept :
      (i : ℕ) (seen : List ℕ) (rs : List ReverseProxySection)
      → (check_reverses trim is_ip i seen rs).0 ≡ []
      → AllKept seen rs
  unfolding check_reverses
  check_reverses-Kept i seen [] e = record { valid = tt; fresh = tt; apart = tt }
  check_reverses-Kept i seen (r ∷ rs) e =
      let (here, later) = append-eq_nil _ _ e in
      AllKept-cons seen _ r rs (check_reverse-Kept i seen r here)
        (check_reverses-Kept (suc i) (check_reverse trim is_ip i seen r).0 rs later)

  -- A configuration that is accepted has only reverse proxies with ports in range at both ends, no
  -- two of them take one port of the server, and if there is one, a server or a client section is
  -- there.
  pub validate-reverse :
      (c c' : ConfigFile) (ws : List Warning)
      → validate trim is_ip c ≡ ok (c', ws)
      → All ValidReverse c.reverse_proxies
        × Pairwise Differ c.reverse_proxies
        × ((c.reverse_proxies ≡ []) ⊎ ((c.has_server || c.has_client) ≡ true))
  unfolding validate
  validate-reverse c c' ws e =
      let (nothing, same) = accepted _ _ _ e in
      let (lonely, rest) = append-eq_nil _ _ nothing in
      let (_, rest) = append-eq_nil _ _ rest in
      let (_, none_bad) = append-eq_nil _ _ rest in
      let kept = check_reverses-Kept 0 [] c.reverse_proxies none_bad in
      (kept.valid, kept.apart, peer_there c.reverse_proxies c.has_server c.has_client lonely)
