-- ===== src/Config/Validate/Sound.antt =====
-- src/config/loader.rs: what holds of a configuration that `validate` accepts.
use gsc_fq.Common.{
  ℕ, suc, ◌<◌, ◌≡◌, ◌≢◌, ◌⊎◌, inl, inr, refl, sym, ap, ◌∙◌, Bool, true, false, Option, none, some,
  List, [], ◌∷◌, ◌++◌, arith, ◌==◌, Bytes, bytes_eq, contains, nat_eq, Bool-cases, All, All-mono,
  Pairwise, append-eq_nil,
}
use mathlib.Core.Path.{subst}
use gsc_fq.Common.Results.{ok, Result-cases}
use gsc_fq.Config.Sections.{ProxySection, get_local_port, get_remote_host, get_remote_port}
use gsc_fq.Config.Sections.Addresses.{
  get_local_port-lt, get_remote_port-lt, get_local_port-source_ip, get_remote_port-source_ip,
}
use gsc_fq.Config.Validate.{
  ConfigFile, Issue, Warning, issue_if, is_null, check_source_ip, Round, check_ports, check_proxy,
  check_proxies, verdict, validate,
}

pub issue_if-nil : (b : Bool) (i : Issue) → issue_if b i ≡ [] → b ≡ false
issue_if-nil true i e = absurd (cc)
issue_if-nil false i e = refl

-- A port number that is not 0 and fits 16 bits.
pub IsPort : ℕ → Type 0
IsPort n = (0 < n) × (n < 65536)

pub IsPort-checked : (n : ℕ) → (n == 0) ≡ false → n < 65536 → IsPort n
unfolding IsPort
IsPort-checked n h lt = (ground arith, lt)

append-not_nil : (xs : List Issue) (i : Issue) → xs ++ (i ∷ []) ≢ []
append-not_nil [] i e = cc
append-not_nil (x ∷ xs) i e = cc

pub contains-false :
    (m n : ℕ) (seen : List ℕ) → contains (m ∷ seen) n ≡ false → (contains seen n ≡ false) × (m ≢ n)
unfolding contains
contains-false m n seen h = ground arith

-- The end of validation: no error, or the errors.
pub accepted :
    (errors : List Issue) (r r' : ConfigFile × List Warning)
    → verdict errors r ≡ ok r'
    → (errors ≡ []) × (r ≡ r')
accepted [] r r' e = (refl, cc)
accepted (x ∷ xs) r r' e = absurd (cc)

module _ (trim : Bytes → Bytes) (is_ip : Bytes → Bool) where
  -- No source address, or one that parses.
  pub GoodSource : Option Bytes → Type 0
  GoodSource source = (source ≡ none) ⊎ ((s : Bytes) × (source ≡ some s) × (is_ip (trim s) ≡ true))

  pub check_source_ip-good :
      (i : ℕ) (source : Option Bytes)
      → (check_source_ip trim is_ip i source).1 ≡ []
      → GoodSource (check_source_ip trim is_ip i source).0
  unfolding check_source_ip GoodSource
  check_source_ip-good i none e = inl refl
  check_source_ip-good i (some s) e = elim (Bool-cases (bytes_eq (trim s) [])) [
    | inl empty ↦ rw empty (inl refl)
    | inr full ↦ elim (Bool-cases (is_null (trim s))) [
      | inl null ↦ rw (full, null) (inl refl)
      | inr other ↦ elim (Bool-cases (is_ip (trim s))) [
        | inl good ↦ rw (full, other, good) (inr (s, refl, good))
        | inr bad ↦ absurd (cc (rw (full, other, bad) at e))
      ]
    ]
  ]

  pub record ValidProxy (q : ProxySection) : Type 0 where
    pub local_port : ℕ
    pub remote_port : ℕ
    pub local : get_local_port q ≡ ok local_port
    pub remote : get_remote_port q ≡ ok remote_port
    pub local-IsPort : IsPort local_port
    pub remote-IsPort : IsPort remote_port
    pub source : GoodSource q.source_ip

  -- A round without an error keeps a valid proxy whose port is new, and remembers the port.
  record Kept (seen : List ℕ) (r : Round) : Type 0 where
    valid : ValidProxy r.proxy
    new : contains seen valid.local_port ≡ false
    remembered : r.seen ≡ valid.local_port ∷ seen

  check_ports-Kept :
      (i : ℕ) (seen : List ℕ) (p : ProxySection) (m n : ℕ)
      → get_local_port p ≡ ok m
      → get_remote_port p ≡ ok n
      → (check_ports trim is_ip i seen p m n).errors ≡ []
      → Kept seen (check_ports trim is_ip i seen p m n)
  unfolding check_ports
  check_ports-Kept i seen p m n em en none_found =
      let (zero_local, rest) = append-eq_nil _ _ none_found in
      let (zero_remote, rest) = append-eq_nil _ _ rest in
      let (twice, bad) = append-eq_nil _ _ rest in
      let new = issue_if-nil _ _ twice in
      record {
        valid = record {
          local_port = m;
          remote_port = n;
          local = get_local_port-source_ip p _ ∙ em;
          remote = get_remote_port-source_ip p _ ∙ en;
          local-IsPort = IsPort-checked m (issue_if-nil _ _ zero_local) (get_local_port-lt p m em);
          remote-IsPort =
              IsPort-checked n (issue_if-nil _ _ zero_remote) (get_remote_port-lt p n en);
          source = check_source_ip-good i p.source_ip bad;
        };
        new = new;
        remembered = rw new refl;
      }

  check_proxy-Kept :
      (i : ℕ) (seen : List ℕ) (p : ProxySection)
      → (check_proxy trim is_ip i seen p).errors ≡ []
      → Kept seen (check_proxy trim is_ip i seen p)
  unfolding check_proxy
  check_proxy-Kept i seen p e = elim (Result-cases (get_local_port p)) [
    | inr (x, bad) ↦ absurd (cc (rw (bad, check_proxy) at e))
    | inl (m, em) ↦ elim (Result-cases (get_remote_host p)) [
      | inr (x, bad) ↦ absurd (append-not_nil _ _ (rw (em, check_proxy, bad) at e))
      | inl (host, eh) ↦ elim (Result-cases (get_remote_port p)) [
        | inr (x, bad) ↦ absurd (append-not_nil _ _ (rw (em, check_proxy, eh, bad) at e))
        | inl (n, en) ↦
            let same : check_proxy trim is_ip i seen p ≡ check_ports trim is_ip i seen p m n =
              rw (em, check_proxy, eh, en) refl in
            subst (Kept seen) (sym same)
              (check_ports-Kept i seen p m n em en (rw (em, check_proxy, eh, en) at e))
      ]
    ]
  ]

  -- Two proxies that listen on different ports.
  unfoldable pub Differ : ProxySection → ProxySection → Type 0
  Differ p q = (m n : ℕ) → get_local_port p ≡ ok m → get_local_port q ≡ ok n → m ≢ n

  abbrev Fresh : List ℕ → ProxySection → Type 0
  Fresh seen q = (n : ℕ) → get_local_port q ≡ ok n → contains seen n ≡ false

  -- What the loop keeps: valid proxies, on ports that are new and different.
  record AllKept (seen : List ℕ) (qs : List ProxySection) : Type 0 where
    valid : All ValidProxy qs
    fresh : All (Fresh seen) qs
    apart : Pairwise Differ qs

  AllKept-cons :
      (seen : List ℕ) (r : Round) (qs : List ProxySection)
      → Kept seen r
      → AllKept r.seen qs
      → AllKept seen (r.proxy ∷ qs)
  unfolding Differ
  AllKept-cons seen r qs k rest =
      let port = k.valid.local_port in
      let own : (n : ℕ) → get_local_port r.proxy ≡ ok n → port ≡ n =
        λ n e. cc (sym k.valid.local ∙ e) in
      let behind : (q : ProxySection)
          → Fresh r.seen q
          → (n : ℕ) → get_local_port q ≡ ok n
          → (contains seen n ≡ false) × (port ≢ n) =
        λ q f n e. contains-false port n seen (ap (λ s. contains s n) (sym k.remembered) ∙ f n e) in
      record {
        valid = (k.valid, rest.valid);
        fresh = (
          λ n e. rw (sym (own n e)) k.new,
          All-mono (Fresh r.seen) (Fresh seen) qs (λ q f n e. (behind q f n e).0) rest.fresh,
        );
        apart = (
          All-mono (Fresh r.seen) (Differ r.proxy) qs
              (λ q f m n em en same. (behind q f n en).1 (own m em ∙ same)) rest.fresh,
          rest.apart,
        );
      }

  check_proxies-Kept :
      (i : ℕ) (seen : List ℕ) (ps : List ProxySection)
      → (check_proxies trim is_ip i seen ps).1 ≡ []
      → AllKept seen (check_proxies trim is_ip i seen ps).0
  unfolding check_proxies
  check_proxies-Kept i seen [] e = record { valid = tt; fresh = tt; apart = tt }
  check_proxies-Kept i seen (p ∷ ps) e =
      let (here, later) = append-eq_nil _ _ e in
      AllKept-cons seen (check_proxy trim is_ip i seen p) _ (check_proxy-Kept i seen p here)
        (check_proxies-Kept (suc i) (check_proxy trim is_ip i seen p).seen ps later)

  -- A configuration that is accepted has only forward proxies with ports in range at both ends and a
  -- source address that parses, if any, and no two of them listen on one port.
  pub validate-valid :
      (c c' : ConfigFile) (ws : List Warning)
      → validate trim is_ip c ≡ ok (c', ws)
      → All ValidProxy c'.proxies × Pairwise Differ c'.proxies
  unfolding validate
  validate-valid c c' ws e =
      let (nothing, same) = accepted _ _ _ e in
      let (_, rest) = append-eq_nil _ _ nothing in
      let (_, rest) = append-eq_nil _ _ rest in
      let (none_bad, _) = append-eq_nil _ _ rest in
      let kept = check_proxies-Kept 0 [] c.proxies none_bad in
      subst (λ qs. All ValidProxy qs × Pairwise Differ qs) (ap (λ r. r.0.proxies) same)
        (kept.valid, kept.apart)
