-- ===== src/Proxy/Copy/Source.antt =====
-- src/proxy/adaptive_stream.rs: what one read takes of a stream, and what the sample takes.
use gsc_fq.Common.{
  ℕ, zero, suc, ◌+◌, ◌-◌, ◌≤◌, ◌<◌, ◌≡◌, refl, sym, ap, ◌∙◌, Bool, true, false, List, [], ◌∷◌, ◌++◌,
  arith, Bytes, length, take, drop, take-append-drop, length-take, length-drop, length-append,
  append_assoc, append-nil, Bool-cases, inl, inr, leb,
}
use gsc_fq.Proxy.Copy.{
  Event, arrives, would_block, breaks, Read, got, eof, blocked, broken, left, read, Run, done,
  read_initial_sample,
}

-- All the bytes of a stream.
unfoldable pub bytes_of : List Event → Bytes
bytes_of [] = []
bytes_of (arrives c cs ∷ s) = (c ∷ cs) ++ bytes_of s
bytes_of (would_block ∷ s) = bytes_of s
bytes_of (breaks ∷ s) = bytes_of s

-- The reads that a stream can take at most, but for the one at its end.
unfoldable pub work : List Event → ℕ
work [] = 0
work (arrives c cs ∷ s) = suc (length cs) + work s
work (would_block ∷ s) = suc (work s)
work (breaks ∷ s) = suc (work s)

-- A stream without an error.
unfoldable pub IsHealthy : List Event → Type 0
IsHealthy [] = Unit
IsHealthy (arrives c cs ∷ s) = IsHealthy s
IsHealthy (would_block ∷ s) = IsHealthy s
IsHealthy (breaks ∷ s) = ⊥

-- One read of a healthy stream: the end, some bytes, or nothing yet.
pub data Reads (size : ℕ) (s s' : List Event) : Read → Type 0 where
  at_end : bytes_of s ≡ [] → s' ≡ s → Reads size s s' eof
  some_bytes :
      {b : Bytes}
      → 0 < length b
      → length b ≤ size
      → bytes_of s ≡ b ++ bytes_of s'
      → IsHealthy s'
      → work s' < work s
      → Reads size s s' (got b)
  nothing_yet : bytes_of s ≡ bytes_of s' → IsHealthy s' → work s' < work s → Reads size s s' blocked

pub bytes_of-left : (cs : Bytes) (s : List Event) → bytes_of (left cs s) ≡ cs ++ bytes_of s
unfolding bytes_of
bytes_of-left [] s = refl
bytes_of-left (c ∷ cs) s = refl

pub work-left : (cs : Bytes) (s : List Event) → work (left cs s) ≡ length cs + work s
unfolding work
work-left [] s = omega arith
work-left (c ∷ cs) s = omega arith

left-IsHealthy : (cs : Bytes) (s : List Event) → IsHealthy s → IsHealthy (left cs s)
unfolding IsHealthy
left-IsHealthy [] s h = h
left-IsHealthy (c ∷ cs) s h = h

pub read-Reads :
    (size : ℕ) (s : List Event)
    → 0 < size
    → IsHealthy s
    → Reads size s (read size s).1 (read size s).0
unfolding read bytes_of work IsHealthy
read-Reads zero s pos h = absurd (omega arith)
read-Reads (suc k) [] pos h = at_end refl refl
read-Reads (suc k) (arrives c cs ∷ s) pos h =
    some_bytes (omega arith) (omega (arith, length-take k cs))
      (ap (λ (t : Bytes). c ∷ t)
        (ap (λ (t : Bytes). t ++ bytes_of s) (sym (take-append-drop k cs))
          ∙ (append_assoc (take k cs) (drop k cs) (bytes_of s)
              ∙ ap (λ (t : Bytes). take k cs ++ t) (sym (bytes_of-left (drop k cs) s)))))
      (left-IsHealthy (drop k cs) s h) (omega (arith, work-left (drop k cs) s, length-drop k cs))
read-Reads (suc k) (would_block ∷ s) pos h = nothing_yet refl h (omega arith)
read-Reads (suc k) (breaks ∷ s) pos h = elim h [ ]

-- A sample of a stream: its first bytes, and the stream behind them. It is shorter than 32 KB
-- exactly when it ends the stream.
pub record Sampled {E : Type 0} (s : List Event) (sample : Bytes)
    (r : Run (Bytes × Bool × List Event) E) : Type 0 where
  pub bytes : Bytes
  pub is_eos : Bool
  pub rest : List Event
  pub returned : r ≡ done (sample ++ bytes, is_eos, rest)
  pub cut : bytes_of s ≡ bytes ++ bytes_of rest
  pub healthy : IsHealthy rest
  pub less : work rest ≤ work s
  pub ended : is_eos ≡ true → (bytes_of rest ≡ []) × (length (sample ++ bytes) < 32768)
  pub full : is_eos ≡ false → length (sample ++ bytes) ≡ 32768

module _ (E : Type 0) where
  Sample : ℕ → List Event → Bytes → Type 0
  Sample fuel s sample = Sampled s sample (read_initial_sample {E = E} fuel s sample)

  sample_more :
      (s s' : List Event) (sample b : Bytes) (r : Run (Bytes × Bool × List Event) E)
      → bytes_of s ≡ b ++ bytes_of s'
      → work s' < work s
      → Sampled s' (sample ++ b) r
      → Sampled s sample r
  sample_more s s' sample b r cut less m = record {
    bytes = b ++ m.bytes;
    is_eos = m.is_eos;
    rest = m.rest;
    returned = rw (sym (append_assoc sample b m.bytes)) m.returned;
    cut = cut ∙ (ap (λ (t : Bytes). b ++ t) m.cut ∙ sym (append_assoc b m.bytes (bytes_of m.rest)));
    healthy = m.healthy;
    less = omega (arith, m.less);
    ended = λ e. rw (sym (append_assoc sample b m.bytes)) (m.ended e);
    full = λ e. rw (sym (append_assoc sample b m.bytes)) (m.full e);
  }

  Sample-read :
      (fuel : ℕ) (s s' : List Event) (sample : Bytes) (result : Read)
      → length sample < 32768
      → IsHealthy s
      → read (32768 - length sample) s ≡ (result, s')
      → Reads (32768 - length sample) s s' result
      → ((sample' : Bytes)
          → length sample' < 32768
          → IsHealthy s'
          → work s' < work s
          → Sample fuel s' sample')
      → Sample (suc fuel) s sample
  unfolding Sample read_initial_sample
  Sample-read fuel s s' sample eof short h e (at_end nothing same) ih =
      rw (e, read_initial_sample, e, same)
        (record {
          bytes = [];
          is_eos = true;
          rest = s;
          returned = rw (append-nil sample) refl;
          cut = refl;
          healthy = h;
          less = omega arith;
          ended = λ _. (nothing, rw (append-nil sample) short);
          full = λ e. absurd (cc);
        })
  Sample-read fuel s s' sample (got b) short h e (some_bytes pos fits cut h' less) ih =
      elim (Bool-cases (leb 32768 (length (sample ++ b)))) [
        | inl long ↦
            rw (e, read_initial_sample, long, e)
              (record {
                bytes = b;
                is_eos = false;
                rest = s';
                returned = refl;
                cut = cut;
                healthy = h';
                less = omega arith;
                ended = λ e. absurd (cc);
                full = λ _. ground (arith, length-append sample b);
              })
        | inr more ↦
            rw (e, read_initial_sample, more, e)
              (sample_more s s' sample b _ cut less (ih (sample ++ b) (ground arith) h' less))
      ]
  Sample-read fuel s s' sample blocked short h e (nothing_yet same h' less) ih =
      let later = ih sample short h' less in
      rw (e, read_initial_sample, e)
        (record {
          bytes = later.bytes;
          is_eos = later.is_eos;
          rest = later.rest;
          returned = later.returned;
          cut = same ∙ later.cut;
          healthy = later.healthy;
          less = omega (arith, later.less);
          ended = later.ended;
          full = later.full;
        })
  Sample-read fuel s s' sample broken short h e r ih = elim r [ ]

  -- With more fuel than reads, the sample of a healthy stream is taken.
  pub read_initial_sample-Sampled :
      (fuel : ℕ) (s : List Event) (sample : Bytes)
      → work s < fuel
      → length sample < 32768
      → IsHealthy s
      → Sampled s sample (read_initial_sample {E = E} fuel s sample)
  unfolding Sample
  read_initial_sample-Sampled zero s sample fueled short h = absurd (omega arith)
  read_initial_sample-Sampled (suc fuel) s sample fueled short h =
      let size = 32768 - length sample in
      Sample-read fuel s (read size s).1 sample (read size s).0 short h refl
        (read-Reads size s (omega arith) h)
        (λ sample' short' h' less.
          read_initial_sample-Sampled fuel (read size s).1 sample' (omega arith) short' h')
