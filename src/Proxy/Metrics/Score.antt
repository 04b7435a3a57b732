-- ===== src/Proxy/Metrics/Score.antt =====
-- src/proxy/connection_metrics.rs: the window of samples and the points of a round trip.
use gsc_fq.Common.{
  ℕ, ◌≤◌, ◌≡◌, refl, sym, ap, ◌∙◌, Option, none, some, List, [], ◌∷◌, ◌++◌, arith, append_assoc,
  append-nil,
}
use gsc_fq.Common.Windows.{push, last_of, push-last_of}
use gsc_fq.Proxy.Metrics.{Float, ConnectionMetrics, new, add_rtt_sample, rtt_points}

-- A longer round trip never has more points.
rtt_points-antitone : (a b : ℕ) → a ≤ b → rtt_points (some b) ≤ rtt_points (some a)
unfolding rtt_points
rtt_points-antitone a b le = ground arith

rtt_points-range : (rtt : Option ℕ) → (10 ≤ rtt_points rtt) × (rtt_points rtt ≤ 100)
unfolding rtt_points
rtt_points-range none = (omega arith, omega arith)
rtt_points-range (some rtt) = (ground arith, ground arith)

module _ {F : Type 0} (f : Float F) where
  -- The samples of some round trips, each at a time, in order.
  pub sampled : ConnectionMetrics F → List (ℕ × ℕ) → ConnectionMetrics F
  unfolding add_rtt_sample
  sampled m [] = m
  sampled m ((rtt, now) ∷ rest) = sampled (add_rtt_sample f m rtt now) rest

  abbrev rtts : List (ℕ × ℕ) → List ℕ
  rtts [] = []
  rtts ((rtt, now) ∷ rest) = rtt ∷ rtts rest

  sampled-from :
      (rest : List (ℕ × ℕ)) (all : List ℕ) (m : ConnectionMetrics F)
      → m.rtt_samples ≡ last_of 100 all
      → (sampled m rest).rtt_samples ≡ last_of 100 (all ++ rtts rest)
  unfolding sampled add_rtt_sample
  sampled-from [] all m e = rw (append-nil all) e
  sampled-from ((rtt, now) ∷ rest) all m e = rw (sym (append_assoc all (rtt ∷ []) (rtts rest))) (
      sampled-from rest (all ++ (rtt ∷ [])) (add_rtt_sample f m rtt now)
        (ap (λ s. push 100 s rtt) e ∙ push-last_of 100 all rtt))

  -- A connection keeps the last hundred of its round trips, in order.
  sampled-window :
      (samples : List (ℕ × ℕ)) (now : ℕ)
      → (sampled (new f now) samples).rtt_samples ≡ last_of 100 (rtts samples)
  unfolding new
  sampled-window samples now = sampled-from samples [] (new f now) refl
