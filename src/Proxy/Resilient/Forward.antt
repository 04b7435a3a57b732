-- ===== src/Proxy/Resilient/Forward.antt =====
-- src/proxy/resilient.rs: `forward_adaptive`. What the two tasks read and write; the monitor and
-- the buffer size, which they share and which do not change the bytes, are left out.
use gsc_fq.Common.{
  ℕ, ◌+◌, ◌≡◌, refl, ap, Bool, true, List, [], ◌∷◌, ◌++◌, arith, if◌then◌else◌, Bytes, length,
  length-append, ◌⊎◌, inl, inr, codes,
}
use gsc_fq.Common.Results.{Result, ok, err, ◌>>=◌, map_err}
use gsc_fq.Error.{ProxyError, forwarding_failed}

-- The result of one `read`, and whether the `write_all` after it succeeds.
pub data Read : Type 0 where
  chunk : Bytes → Bool → Read
  end_of_stream : Read
  read_failed : Read

pub record Direction : Type 0 where
  pub written : Bytes
  pub total_bytes : ℕ

abbrev stopped : Direction
stopped = record { written = []; total_bytes = 0 }

-- One task: what it reads goes to its writer until an end, an error or a failed write.
pub direction : List Read → Direction
direction [] = stopped
direction (end_of_stream ∷ rs) = stopped
direction (read_failed ∷ rs) = stopped
direction (chunk bs sent ∷ rs) =
    let rest = direction rs in
    if sent
    then record { written = bs ++ rest.written; total_bytes = length bs + rest.total_bytes }
    else stopped

pub record Forwarded : Type 0 where
  pub client_write : Bytes
  pub remote_write : Bytes
  pub bytes : ℕ × ℕ

-- `optimize_tcp_socket`, with the answer of `set_nodelay`.
pub optimize_tcp_socket : Result (Unit {0}) Bytes → Result (Unit {0}) ProxyError
optimize_tcp_socket answer =
    map_err (λ m. forwarding_failed (codes "Failed to set nodelay: " ++ m)) answer

-- The options of both sockets; then the first task joins `client_read` to `client_write`, the second
-- `remote_read` to `remote_write`.
pub forward_adaptive :
    Result (Unit {0}) Bytes
    → Result (Unit {0}) Bytes
    → List Read
    → List Read
    → Result Forwarded ProxyError
unfolding direction optimize_tcp_socket
forward_adaptive client_nodelay remote_nodelay client_read remote_read =
    optimize_tcp_socket client_nodelay >>= λ _. optimize_tcp_socket remote_nodelay >>= λ _.
    let client_to_remote = direction client_read in
    let remote_to_client = direction remote_read in
    ok (record {
      client_write = client_to_remote.written;
      remote_write = remote_to_client.written;
      bytes = (client_to_remote.total_bytes, remote_to_client.total_bytes);
    })

-- A peer that sends these chunks, all passed on, and closes.
pub sends : List Bytes → List Read
sends [] = end_of_stream ∷ []
sends (c ∷ cs) = chunk c true ∷ sends cs

unfoldable pub concat : List Bytes → Bytes
concat [] = []
concat (c ∷ cs) = c ++ concat cs

direction-sends :
    (cs : List Bytes)
    → ((direction (sends cs)).written ≡ concat cs)
      × ((direction (sends cs)).total_bytes ≡ length (concat cs))
unfolding direction sends concat
direction-sends [] = (refl, refl)
direction-sends (c ∷ cs) =
    let (same, size) = direction-sends cs in
    (ap (λ (bs : Bytes). c ++ bs) same, omega (arith, size, length-append c (concat cs)))

-- When both sockets take their option, both peers send and close and every write succeeds, each peer
-- is written exactly what it sent itself, all of it and in order, and nothing of the other's; the two
-- counts are the lengths of that. A socket that refuses its option is an error.
pub forward_adaptive_echoes :
    (client_nodelay remote_nodelay : Result (Unit {0}) Bytes) (cs rs : List Bytes)
    → ((client_nodelay ≡ ok tt)
        × (remote_nodelay ≡ ok tt)
        × (forward_adaptive client_nodelay remote_nodelay (sends cs) (sends rs)
            ≡ ok (record {
              client_write = concat cs;
              remote_write = concat rs;
              bytes = (length (concat cs), length (concat rs));
            })))
      ⊎ ((m : Bytes) × ((client_nodelay ≡ err m) ⊎ (remote_nodelay ≡ err m))
          × (forward_adaptive client_nodelay remote_nodelay (sends cs) (sends rs)
              ≡ err (forwarding_failed (codes "Failed to set nodelay: " ++ m))))
unfolding forward_adaptive
forward_adaptive_echoes (err m) remote cs rs = inr (m, inl refl, refl)
forward_adaptive_echoes (ok _) (err m) cs rs = inr (m, inr refl, refl)
forward_adaptive_echoes (ok _) (ok _) cs rs =
    let (c, m) = direction-sends cs in
    let (r, n) = direction-sends rs in inl (refl, refl, rw (c, m, r, n) refl)
