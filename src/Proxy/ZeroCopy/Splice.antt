-- ===== src/Proxy/ZeroCopy/Splice.antt =====
-- src/proxy/zero_copy.rs: what a direction of the splice loop counts, and the bulk copy.
use gsc_fq.Common.{ℕ, suc, ◌+◌, ◌<◌, ◌≡◌, ap, ◌∙◌, some, List, [], ◌∷◌, arith, Bytes, inl}
use gsc_fq.Common.Results.{Result}
use gsc_fq.Proxy.Copy.{Event}
use gsc_fq.Proxy.Copy.Source.{bytes_of, work, IsHealthy}
use gsc_fq.Proxy.Copy.Whole.{IsWriter, Delivers, copy_loop-Delivers}
use gsc_fq.Proxy.ZeroCopy.{Moved, moved, failed, drain, direction, bulk_copy_optimized, bulk_copy}

-- A reader that sends some blocks and closes, and a peer that takes each block whole.
abbrev sends : List ℕ → List Moved
sends [] = moved 0 ∷ []
sends (n ∷ ns) = moved (suc n) ∷ sends ns

abbrev takes : List ℕ → List Moved
takes [] = []
takes (n ∷ ns) = moved (suc n) ∷ takes ns

abbrev all_of : List ℕ → ℕ
all_of [] = 0
all_of (n ∷ ns) = suc n + all_of ns

drain-block : (n : ℕ) (ns : List ℕ) → drain (suc n) 0 (takes (n ∷ ns)) ≡ (suc n, takes ns)
unfolding drain
drain-block n [] = ground arith
drain-block n (m ∷ ns) = ground arith

-- A direction whose peer takes each block as it comes counts every byte of them.
direction-all_of :
    (ns : List ℕ) (total : ℕ) → direction (sends ns) (takes ns) total ≡ some (total + all_of ns)
unfolding direction
direction-all_of [] total = ap (λ t. some t) (omega arith)
direction-all_of (n ∷ ns) total =
    rw (drain-block n ns, direction)
      (direction-all_of ns (total + suc n) ∙ ap (λ t. some t) (omega arith))

-- A block of which the peer takes a part before an error is dropped behind that part, and the
-- direction goes on with the next block: the count is short and no error is returned.
direction-drops :
    (n w total : ℕ)
    → w < n
    → direction (moved (suc n) ∷ moved 0 ∷ []) (moved (suc w) ∷ failed ∷ []) total
      ≡ some (total + suc w)
unfolding direction drain
direction-drops n w total short = ground arith

module _ {W E : Type 0} (write_all : W → Bytes → Result W E) (flush : W → Result W E)
    (content flushed : W → Bytes) where
  -- The bulk copy delivers all of a healthy stream, flushed, with more fuel than reads and a writer
  -- that takes what it is given and starts with nothing unflushed.
  bulk_copy-Delivers :
      IsWriter write_all flush content flushed
      → (fuel : ℕ) (s : List Event) (w : W) → work s < fuel
      → IsHealthy s
      → flushed w ≡ content w
      → Delivers write_all flush content flushed w 0
          (bytes_of s)
          (bulk_copy write_all flush fuel s w)
  unfolding bulk_copy bulk_copy_optimized
  bulk_copy-Delivers ok_w fuel s w fueled h clean =
      copy_loop-Delivers write_all flush content flushed ok_w fuel _ s w 0 0 fueled (omega arith) h
        (omega arith) (inl (λ _. clean))
