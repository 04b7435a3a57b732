-- ===== src/ReverseProxy/Tunnel/Answers.antt =====
-- src/reverse_proxy: the answers to datagrams.
use gsc_fq.Common.{
  ℕ, zero, suc, ◌+◌, ◌≤◌, ◌<◌, ◌≡◌, ◌≢◌, refl, inl, inr, none, some, List, [], ◌∷◌, ◌++◌, arith,
  Bytes, length, length-take, length-drop, take, drop, All, All-mono, ap,
}
use gsc_fq.Common.Wire.{
  be16, from_be16, from_be16-be16, read_exact, read_exact-append, read_exact-cases,
}
use gsc_fq.ReverseProxy.Tunnel.{answer, delivered, prepend}

delivered_end :
    (fuel : ℕ) (stream : Bytes) → read_exact 2 stream ≡ none → delivered (suc fuel) stream ≡ some []
unfolding delivered
delivered_end fuel stream e = rw (e, delivered)

delivered_cut :
    (fuel : ℕ) (stream len_bytes rest : Bytes)
    → read_exact 2 stream ≡ some (len_bytes, rest)
    → read_exact (from_be16 len_bytes) rest ≡ none
    → delivered (suc fuel) stream ≡ some []
unfolding delivered
delivered_cut fuel stream len_bytes rest e e' = rw (e, delivered) (rw e')

delivered_next :
    (fuel : ℕ) (stream len_bytes rest datagram rest' : Bytes)
    → read_exact 2 stream ≡ some (len_bytes, rest)
    → read_exact (from_be16 len_bytes) rest ≡ some (datagram, rest')
    → delivered (suc fuel) stream ≡ prepend datagram (delivered fuel rest')
unfolding delivered
delivered_next fuel stream len_bytes rest datagram rest' e e' = rw (e, delivered) (rw e')

abbrev Smaller : ℕ → List Bytes → Type 0
Smaller n = All (λ d. length d + 2 ≤ n)

-- The loop ends: every answer takes at least the two bytes of its length.
delivered_total :
    (fuel : ℕ) (stream : Bytes)
    → length stream < fuel
    → (ds : List Bytes) × (delivered fuel stream ≡ some ds) × Smaller (length stream) ds
delivered_total zero stream h = absurd (omega arith)
delivered_total (suc fuel) stream h = elim (read_exact-cases 2 stream) [
  | inl (_, r) ↦ ([], delivered_end fuel stream r, tt)
  | inr (r, le) ↦ elim (read_exact-cases (from_be16 (take 2 stream)) (drop 2 stream)) [
    | inl (_, r') ↦ ([], delivered_cut fuel stream _ _ r r', tt)
    | inr (r', le') ↦
        let n = from_be16 (take 2 stream) in
        let rest = drop n (drop 2 stream) in
        let left : length rest + n + 2 ≤ length stream =
          omega (arith, length-drop n (drop 2 stream), length-drop 2 stream) in
        let (ds, e, small) = delivered_total fuel rest (omega arith) in
        (
          take n (drop 2 stream) ∷ ds,
          rw (delivered_next fuel stream _ _ _ _ r r', e),
          (
            omega (arith, length-take n (drop 2 stream)),
            All-mono _ _ ds (λ d k. omega arith) small,
          ),
        )
  ]
]

-- An answer of the local service never reaches the peer: the client writes it with no length before
-- it, and whatever the server then delivers is at least two bytes shorter. The loop always ends.
pub answer_never_delivered :
    (reply : Bytes)
    → (ds : List Bytes) × (delivered (suc (length (answer reply))) (answer reply) ≡ some ds)
      × All (λ d. (d ≢ reply) × (length d + 2 ≤ length reply)) ds
unfolding answer
answer_never_delivered reply =
    let (ds, e, small) = delivered_total (suc (length reply)) reply (omega arith) in
    (ds, e, All-mono _ _ ds (λ d k. (λ same. omega (arith, ap length same), k)) small)

-- The frames that the server expects.
unfoldable pub framed : List Bytes → Bytes
framed [] = []
framed (d ∷ ds) = be16 (length d) ++ (d ++ framed ds)

-- Answers below 64 KiB with their lengths before them would be delivered one by one, each as it is.
delivered-framed :
    (ds : List Bytes)
    → All (λ d. length d < 65536) ds
    → delivered (suc (length ds)) (framed ds) ≡ some ds
unfolding framed
delivered-framed [] h = delivered_end 0 [] (unfold read_exact in refl)
delivered-framed (d ∷ ds) (h, hs) = rw (
  delivered_next (suc (length ds)) (be16 (length d) ++ (d ++ framed ds)) (be16 (length d))
      (d ++ framed ds) d (framed ds) (read_exact-append (be16 (length d)) (d ++ framed ds) 2 refl)
      (rw (from_be16-be16 (length d) h) (read_exact-append d (framed ds) (length d) refl)),
  delivered-framed ds hs,
)
