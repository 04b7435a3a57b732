-- ===== src/Proxy/ZeroCopy/Optimizer/Blocks.antt =====
-- src/proxy/splice_optimizer.rs: what a transfer counts, against the blocks that the kernel moved.
use gsc_fq.Common.{
  ℕ, zero, suc, ◌+◌, ◌-◌, ◌<◌, ◌≤◌, min, ◌≡◌, refl, sym, ◌∙◌, ap, some, List, [], ◌∷◌, ◌++◌, map,
  arith, All,
}
use gsc_fq.Common.Results.{ok}
use gsc_fq.Proxy.ZeroCopy.Optimizer.{
  Answer, would_block, interrupted, failed, asked, buffer_size, moved, drain, emptied, after_drain,
  splice_loop, splice_blocking, splice_adaptive_blocking, without_retries,
  splice_loop-without_retries,
}

-- A block that came into the pipe: the pieces in which it left, and the bytes that were left behind
-- when the peer answered 0.
pub record Block : Type 0 where
  pub pieces : List ℕ
  pub lost : ℕ

abbrev pub sum : List ℕ → ℕ
sum [] = 0
sum (n ∷ ns) = n + sum ns

abbrev pub size : Block → ℕ
size b = sum b.pieces + b.lost

-- With at least one byte, and no more than a call asks for.
abbrev pub IsBlock : ℕ → Block → Type 0
IsBlock chunk b = All (λ w. 0 < w) b.pieces × (0 < size b) × (size b ≤ chunk)

abbrev pub written : List Block → ℕ
written [] = 0
written (b ∷ bs) = sum b.pieces + written bs

-- What was read, and what stayed behind.
abbrev pub taken : List Block → ℕ
taken [] = 0
taken (b ∷ bs) = size b + taken bs

abbrev pub behind : List Block → ℕ
behind [] = 0
behind (b ∷ bs) = b.lost + behind bs

written-behind : (bs : List Block) → written bs + behind bs ≡ taken bs
written-behind [] = omega arith
written-behind (b ∷ bs) = omega (arith, written-behind bs)

-- The answers for the blocks: each is read, until the end, and written piece by piece, with a 0 where
-- bytes stay behind.
abbrev pub fills_of : List Block → List Answer
fills_of [] = moved 0 ∷ []
fills_of (b ∷ bs) = moved (size b) ∷ fills_of bs

abbrev pub stop_of : ℕ → List Answer
stop_of zero = []
stop_of (suc lost) = moved 0 ∷ []

abbrev pub drains_of : List Block → List Answer
drains_of [] = []
drains_of (b ∷ bs) = map moved b.pieces ++ (stop_of b.lost ++ drains_of bs)

drain-done : (n t : ℕ) (rest : List Answer) → n ≡ 0 → drain n t rest ≡ emptied t rest
unfolding drain
drain-done n t rest e = rw e refl

drain-stop :
    (n k t : ℕ) (rest : List Answer) → n ≡ suc k → drain n t (moved 0 ∷ rest) ≡ emptied t rest
unfolding drain
drain-stop n k t rest e = rw e refl

drain-piece :
    (n w s t : ℕ) (rest : List Answer)
    → n ≡ suc (w + s)
    → drain n t (moved (suc w) ∷ rest) ≡ drain s (t + suc w) rest
unfolding drain
drain-piece n w s t rest e = let left : (w + s) - w ≡ s = omega arith in rw (e, drain, left) refl

drain-block :
    (ws : List ℕ) (lost t : ℕ) (rest : List Answer)
    → All (λ w. 0 < w) ws
    → drain (sum ws + lost) t (map moved ws ++ (stop_of lost ++ rest)) ≡ emptied (t + sum ws) rest
drain-block [] zero t rest _ =
    let same : t + 0 ≡ t = omega arith in rw same (drain-done (0 + 0) t rest (omega arith))
drain-block [] (suc k) t rest _ =
    let same : t + 0 ≡ t = omega arith in rw same (drain-stop (0 + suc k) k t rest (omega arith))
drain-block (zero ∷ ws) lost t rest (h, hs) = absurd (omega (arith, h))
drain-block (suc w ∷ ws) lost t rest (h, hs) =
    let same : t + suc w + sum ws ≡ t + (suc w + sum ws) = omega arith in
    drain-piece (suc w + sum ws + lost) w (sum ws + lost) t (map moved ws ++ (stop_of lost ++ rest))
      (omega arith)
    ∙ drain-block ws lost (t + suc w) rest hs
    ∙ ap (λ n. emptied n rest) same

splice_loop-fill :
    (n : ℕ) (fills drains : List Answer) (t : ℕ)
    → 0 < n
    → splice_loop (moved n ∷ fills) drains t
      ≡ after_drain (drain n t drains) (λ t' left. splice_loop fills left t')
unfolding splice_loop
splice_loop-fill zero fills drains t h = absurd (omega (arith, h))
splice_loop-fill (suc n) fills drains t h = refl

splice_loop-blocks :
    (chunk : ℕ) (bs : List Block) (t : ℕ)
    → All (IsBlock chunk) bs
    → splice_loop (fills_of bs) (drains_of bs) t ≡ some (ok (t + written bs))
unfolding splice_loop
splice_loop-blocks chunk [] t _ = ap (λ n. some (ok n)) (omega arith)
splice_loop-blocks chunk (b ∷ bs) t ((h, more, fits), hs) =
    let block = drain-block b.pieces b.lost t (drains_of bs) h in
    let same : t + sum b.pieces + written bs ≡ t + (sum b.pieces + written bs) = omega arith in
    splice_loop-fill (size b) (fills_of bs) (drains_of (b ∷ bs)) t more
    ∙ (rw block (splice_loop-blocks chunk bs (t + sum b.pieces) hs) ∙ ap (λ n. some (ok n)) same)

-- Which calls are repeated does not depend on how much each moves.
without_retries-asked :
    (n : ℕ) (fills : List Answer)
    → without_retries (map (asked n) fills) ≡ map (asked n) (without_retries fills)
without_retries-asked n [] = refl
without_retries-asked n (moved m ∷ fills) =
    ap (λ (r : List Answer). moved (min m n) ∷ r) (without_retries-asked n fills)
without_retries-asked n (would_block ∷ fills) = without_retries-asked n fills
without_retries-asked n (interrupted ∷ fills) = without_retries-asked n fills
without_retries-asked n (failed e ∷ fills) =
    ap (λ (r : List Answer). failed e ∷ r) (without_retries-asked n fills)

asked-fills_of :
    (chunk n : ℕ) (bs : List Block)
    → chunk ≤ n
    → All (IsBlock chunk) bs
    → map (asked n) (fills_of bs) ≡ fills_of bs
asked-fills_of chunk n [] le _ = ap (λ (m : ℕ). moved m ∷ []) (omega arith)
asked-fills_of chunk n (b ∷ bs) le ((h, more, fits), hs) =
    let same : min (size b) n ≡ size b = omega arith in
    ap (λ (m : ℕ). moved m ∷ map (asked n) (fills_of bs)) same
    ∙ ap (λ (r : List Answer). moved (size b) ∷ r) (asked-fills_of chunk n bs le hs)

splice_loop-counted :
    (chunk n : ℕ) (bs : List Block) (fills drains : List Answer)
    → chunk ≤ n
    → All (IsBlock chunk) bs
    → without_retries fills ≡ fills_of bs
    → without_retries drains ≡ drains_of bs
    → splice_loop (map (asked n) fills) drains 0 ≡ some (ok (written bs))
splice_loop-counted chunk n bs fills drains le blocks e e' =
    let calls : without_retries (map (asked n) fills) ≡ fills_of bs =
      without_retries-asked n fills
      ∙ (ap (λ (r : List Answer). map (asked n) r) e ∙ asked-fills_of chunk n bs le blocks) in
    let alone : splice_loop (fills_of bs) (drains_of bs) 0
        ≡ splice_loop (map (asked n) fills) drains 0 =
      rw (sym calls, sym e') (splice_loop-without_retries (map (asked n) fills) drains 0) in
    sym alone ∙ (splice_loop-blocks chunk bs 0 blocks ∙ ap (λ n. some (ok n)) (omega arith))

-- A transfer, with calls of 256 KiB or of a chunk no larger, counts exactly the bytes that its calls
-- wrote, however the kernel cuts it into blocks, of at most a chunk, and pieces, and wherever calls
-- would block or are interrupted. It is a success also where the peer answered 0 and bytes stayed in
-- the pipe, so that fewer are counted than were read.
pub splice_blocking-written :
    (chunk : ℕ) (bs : List Block) (fills drains : List Answer)
    → chunk ≤ buffer_size
    → All (IsBlock chunk) bs
    → without_retries fills ≡ fills_of bs
    → without_retries drains ≡ drains_of bs
    → (splice_blocking (ok tt) fills drains ≡ some (ok (written bs)))
      × (splice_adaptive_blocking chunk (ok tt) fills drains ≡ some (ok (written bs)))
      × (written bs + behind bs ≡ taken bs)
unfolding splice_blocking splice_adaptive_blocking
splice_blocking-written chunk bs fills drains le blocks e e' = (
  splice_loop-counted chunk buffer_size bs fills drains le blocks e e',
  splice_loop-counted chunk chunk bs fills drains (omega arith) blocks e e',
  written-behind bs,
)
