-- ===== src/Config/Sections/Addresses.antt =====
-- src/config/loader.rs: addresses taken apart at their last colon.
use gsc_fq.Common.{
  ℕ, ◌+◌, ◌-◌, ◌*◌, ◌≤◌, ◌<◌, ◌≡◌, refl, sym, ap, true, false, ◌&&◌, Option, some, List, [], ◌∷◌,
  ◌++◌, arith, leb, ltb, ◌==◌, Bytes, codes, length, contains, nat_eq, ==_iff, Bool-cases,
  Option-cases, inl, inr, ltb→lt,
}
use mathlib.Core.Path.{subst}
use gsc_fq.Common.Results.{ok}
use gsc_fq.Config.Sections.{
  ProxySection, ReverseProxySection, split, join, front, final, onto_first, digits_u16, parse_u16,
  port_of, get_remote_host, get_remote_port, get_server_ip, get_server_port, get_local_port,
  get_service_port, port_behind,
}

digits_u16-lt :
    (value : ℕ) (cs : Bytes) (n : ℕ) → value < 65536 → digits_u16 value cs ≡ some n → n < 65536
unfolding digits_u16
digits_u16-lt value [] n h e = let same : value ≡ n = cc in omega arith
digits_u16-lt value (c ∷ cs) n h e = elim (Bool-cases (leb b'0' c && leb c b'9')) [
  | inl digit ↦ elim (Bool-cases (ltb (value * 10 + (c - b'0')) 65536)) [
    | inl fits ↦
        digits_u16-lt (value * 10 + (c - b'0')) cs n (ltb→lt _ _ fits) (rw (digit, fits) at e)
    | inr big ↦ absurd (cc (rw (digit, big) at e))
  ]
  | inr other ↦ absurd (cc (rw other at e))
]

pub parse_u16-lt : (text : Bytes) (n : ℕ) → parse_u16 text ≡ some n → n < 65536
unfolding parse_u16
parse_u16-lt [] n e = absurd (cc)
parse_u16-lt (c ∷ []) n e = digits_u16-lt 0 (c ∷ []) n (omega arith) e
parse_u16-lt (c ∷ d ∷ cs) n e = elim (Bool-cases (c == b'+')) [
  | inl plus ↦ digits_u16-lt 0 (d ∷ cs) n (omega arith) (rw plus at e)
  | inr digit ↦ digits_u16-lt 0 (c ∷ d ∷ cs) n (omega arith) (rw digit at e)
]

pub port_of-lt : (path text : Bytes) (n : ℕ) → port_of path text ≡ ok n → n < 65536
unfolding port_of
port_of-lt path text n e = elim (Option-cases (parse_u16 text)) [
  | inl bad ↦ absurd (cc (rw (bad, port_of) at e))
  | inr (m, value) ↦
      let same : m ≡ n = cc (rw (value, port_of) at e) in omega (arith, parse_u16-lt text m value)
]

pub port_behind-lt : (path text : Bytes) (n : ℕ) → port_behind path text ≡ ok n → n < 65536
unfolding port_behind
port_behind-lt path text n e = elim (Bool-cases (contains text b':')) [
  | inl colon ↦ elim (Bool-cases (ltb (length (split text)) 2)) [
    | inl few ↦ absurd (cc (rw (colon, few) at e))
    | inr many ↦ port_of-lt path (final (split text)) n (rw (colon, many) at e)
  ]
  | inr plain ↦ port_of-lt path text n (rw plain at e)
]

pub get_local_port-lt : (p : ProxySection) (n : ℕ) → get_local_port p ≡ ok n → n < 65536
unfolding get_local_port
get_local_port-lt p n e = elim (Bool-cases (contains p.local b':')) [
  | inl colon ↦ elim (Bool-cases (length (split p.local) == 2)) [
    | inl two ↦ port_of-lt (codes "local") (final (split p.local)) n (rw (colon, two) at e)
    | inr other ↦ absurd (cc (rw (colon, other) at e))
  ]
  | inr plain ↦ port_of-lt (codes "local") p.local n (rw plain at e)
]

-- The source address has no part in the ports.
pub get_local_port-source_ip :
    (p : ProxySection) (source : Option Bytes)
    → get_local_port (record p { source_ip = source }) ≡ get_local_port p
unfolding get_local_port
get_local_port-source_ip p source = refl

pub get_remote_port-source_ip :
    (p : ProxySection) (source : Option Bytes)
    → get_remote_port (record p { source_ip = source }) ≡ get_remote_port p
unfolding get_remote_port
get_remote_port-source_ip p source = refl

pub get_remote_port-lt : (p : ProxySection) (n : ℕ) → get_remote_port p ≡ ok n → n < 65536
unfolding get_remote_port
get_remote_port-lt p n e = port_behind-lt (codes "remote") p.remote n e

pub get_server_port-lt : (r : ReverseProxySection) (n : ℕ) → get_server_port r ≡ ok n → n < 65536
unfolding get_server_port
get_server_port-lt r n e = port_behind-lt (codes "server") r.server n e

pub get_service_port-lt : (r : ReverseProxySection) (n : ℕ) → get_service_port r ≡ ok n → n < 65536
unfolding get_service_port
get_service_port-lt r n e = port_behind-lt (codes "local") r.local n e

split-plain : (b : Bytes) → contains b b':' ≡ false → split b ≡ b ∷ []
unfolding split contains
split-plain [] h = refl
split-plain (c ∷ b) h = elim (Bool-cases (c == b':')) [
  | inl colon ↦ absurd (cc (rw (colon, contains) at h))
  | inr other ↦ rw (other, split-plain b (rw (other, contains) at h)) refl
]

-- What is before the last colon of some parts, and what is behind it.
record Apart (parts : List Bytes) (a b : Bytes) : Type 0 where
  before : join (front parts) ≡ a
  behind : final parts ≡ b
  many : 2 ≤ length parts

Apart-colon : (ps : List Bytes) (a b : Bytes) → Apart ps a b → Apart ([] ∷ ps) (b':' ∷ a) b
Apart-colon [] a b h = absurd (omega (arith, h.many))
Apart-colon (p ∷ []) a b h = absurd (omega (arith, h.many))
Apart-colon (p ∷ q ∷ ps) a b h = record {
  before = ap (λ (t : Bytes). b':' ∷ t) h.before;
  behind = h.behind;
  many = omega arith;
}

Apart-char :
    (c : ℕ) (ps : List Bytes) (a b : Bytes) → Apart ps a b → Apart (onto_first c ps) (c ∷ a) b
Apart-char c [] a b h = absurd (omega (arith, h.many))
Apart-char c (p ∷ []) a b h = absurd (omega (arith, h.many))
Apart-char c (p ∷ q ∷ []) a b h = record {
  before = ap (λ (t : Bytes). c ∷ t) h.before;
  behind = h.behind;
  many = omega arith;
}
Apart-char c (p ∷ q ∷ r ∷ ps) a b h = record {
  before = ap (λ (t : Bytes). c ∷ t) h.before;
  behind = h.behind;
  many = omega arith;
}

split-Apart : (a b : Bytes) → contains b b':' ≡ false → Apart (split (a ++ b':' ∷ b)) a b
unfolding split
split-Apart [] b h =
    rw (split-plain b h) (record { before = refl; behind = refl; many = omega arith })
split-Apart (c ∷ a) b h = elim (Bool-cases (c == b':')) [
  | inl colon ↦ rw colon (
      subst (λ x. Apart ([] ∷ split (a ++ b':' ∷ b)) (x ∷ a) b) (sym ((==_iff c b':').0 colon))
        (Apart-colon _ a b (split-Apart a b h)))
  | inr other ↦ rw other (Apart-char c _ a b (split-Apart a b h))
]

contains-colon : (a b : Bytes) → contains (a ++ b':' ∷ b) b':' ≡ true
unfolding contains
contains-colon [] b = refl
contains-colon (c ∷ a) b = ground (arith, contains-colon a b)

pub port_of-some : (path text : Bytes) (n : ℕ) → parse_u16 text ≡ some n → port_of path text ≡ ok n
unfolding port_of
port_of-some path text n e = rw (e, port_of) refl

-- An address of a host, IPv6 or not, and a text without a colon that parses as a port, with a colon
-- between them, is taken apart into this host and port, as the remote of a forward proxy and as the
-- server of a reverse proxy.
pub host_port-split :
    (host text : Bytes) (n : ℕ) (p : ProxySection) (r : ReverseProxySection)
    → contains text b':' ≡ false
    → parse_u16 text ≡ some n
    → p.remote ≡ host ++ b':' ∷ text
    → r.server ≡ host ++ b':' ∷ text
    → (get_remote_host p ≡ ok host)
      × (get_remote_port p ≡ ok n)
      × (get_server_ip r ≡ some host)
      × (get_server_port r ≡ ok n)
unfolding get_remote_host get_remote_port get_server_ip get_server_port port_behind
host_port-split host text n p r plain value e f =
    let parts = split-Apart host text plain in
    let colon = contains-colon host text in
    let many : ltb (length (split (host ++ b':' ∷ text))) 2 ≡ false = ground (arith, parts.many) in
    let two : leb 2 (length (split (host ++ b':' ∷ text))) ≡ true = ground (arith, parts.many) in
    (
      rw (e, colon, many, parts.before) refl,
      rw (e, colon, many, parts.behind) (port_of-some (codes "remote") text n value),
      rw (f, colon, two, parts.before) refl,
      rw (f, colon, many, parts.behind) (port_of-some (codes "server") text n value),
    )
