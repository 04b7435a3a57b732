-- ===== src/Proxy/Resilient/History.antt =====
-- src/proxy/resilient.rs: the window of round trip times.
use gsc_fq.Common.{
  ℕ, ◌-◌, ◌≡◌, refl, sym, ap, ◌∙◌, List, [], ◌∷◌, ◌++◌, arith, length, drop, append_assoc,
  append-nil, map,
}
use gsc_fq.Common.Windows.{last_of, push-last_of}
use gsc_fq.Proxy.Resilient.{ConnectionQuality, new_quality, push_rtt, record_rtt}

abbrev last_20 : List ℕ → List ℕ
last_20 = last_of 20

push_rtt-last_20 : (all : List ℕ) (r : ℕ) → push_rtt (last_20 all) r ≡ last_20 (all ++ (r ∷ []))
unfolding push_rtt
push_rtt-last_20 all r = push-last_of 20 all r

-- A monitor that is given measurements, each with the clock at its end.
pub measure : ConnectionQuality → List (ℕ × ℕ) → ConnectionQuality
unfolding record_rtt
measure q [] = q
measure q ((rtt, now) ∷ ms) = measure (record_rtt q rtt now) ms

measure-last_20 :
    (ms : List (ℕ × ℕ)) (all : List ℕ) (q : ConnectionQuality)
    → q.rtt_history ≡ last_20 all
    → (measure q ms).rtt_history ≡ last_20 (all ++ map (λ m. m.0) ms)
unfolding measure record_rtt
measure-last_20 [] all q h = rw (append-nil all) h
measure-last_20 ((r, now) ∷ ms) all q h = rw (sym (append_assoc all (r ∷ []) (map (λ m. m.0) ms))) (
    measure-last_20 ms (all ++ (r ∷ [])) (record_rtt q r now)
      (ap (λ (h : List ℕ). push_rtt h r) h ∙ push_rtt-last_20 all r))

length-map : (ms : List (ℕ × ℕ)) → length (map (λ m. m.0) ms) ≡ length ms
length-map [] = refl
length-map (m ∷ ms) = omega (arith, length-map ms)

-- A new monitor that has taken any measurements holds the last twenty of them, in order.
pub measure-window :
    (ms : List (ℕ × ℕ)) (start : ℕ)
    → (measure (new_quality start) ms).rtt_history ≡ drop (length ms - 20) (map (λ m. m.0) ms)
unfolding new_quality
measure-window ms start = rw (sym (length-map ms)) (measure-last_20 ms [] (new_quality start) refl)
