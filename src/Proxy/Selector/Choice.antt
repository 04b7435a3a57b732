-- ===== src/Proxy/Selector/Choice.antt =====
-- src/proxy/connection_selector.rs: what a selection takes from the pool.
use gsc_fq.Common.{
  ℕ, ◌≤◌, ◌<◌, ◌≡◌, refl, false, Option, some, List, ◌∷◌, arith, ◌==◌, length, inl, inr, Bool-cases,
  All, get_elem?, get_elem?-some,
}
use native.Mathlib.Nat.{mod-lt}
use mathlib.Core.List.{Perm}
use gsc_fq.Proxy.Selector.{
  SelectionStrategy, best_quality, weighted_random, round_robin, least_connections, swap_remove,
  handed, select_best_quality, total_weight, select_weighted_random, select_round_robin, select,
}
use gsc_fq.Proxy.Selector.Scans.{
  swap_remove-Removed, Tail-next, Tail-all, best_index-Best, total_weight-le, weighted_index-Drawn,
}

-- The draws of the random generator stay in the range that it is asked for.
abbrev pub InRange : (ℕ → ℕ) → Type 0
InRange random_range = (n : ℕ) → 0 < n → random_range n < n

module _ {ℓ} {A : Type ℓ} where
  -- A selection hands out one connection of the pool and keeps the others, each once.
  pub record Handed (score : A → ℕ) (P : A → Type 0) (pool : List A)
      (out : Option (Option A × List A)) : Type ℓ where
    pub chosen : A
    pub rest : List A
    pub is : out ≡ some (some chosen, rest)
    pub same : Perm (chosen ∷ rest) pool
    pub good : P chosen

  pub handed-Handed :
      (score : A → ℕ) (P : A → Type 0) (pool : List A) (i : ℕ) (c : A)
      → get_elem? pool i ≡ some c
      → P c
      → Handed score P pool (handed (swap_remove pool i))
  handed-Handed score P pool i c h p =
      let out = swap_remove-Removed pool i c h in
      record { chosen = c; rest = out.rest; is = rw out.is refl; same = out.same; good = p }

  -- The best-quality strategy, on a pool that is not empty, hands out one connection and keeps
  -- the others, and no connection of the pool scores higher than the one it hands out.
  pub select_best-highest :
      (score : A → ℕ) (c : A) (cs : List A)
      → Handed score
          (λ x. All (λ y. score y ≤ score x) (c ∷ cs))
          (c ∷ cs)
          (select_best_quality score (c ∷ cs))
  unfolding select_best_quality
  select_best-highest score c cs =
      let best =
        best_index-Best score (c ∷ cs) 1 0 c (score c) cs refl refl
          (Tail-next (c ∷ cs) 0 c cs (Tail-all (c ∷ cs))) in
      handed-Handed score _ (c ∷ cs) _ best.item best.at (best.over, best.above)

  at_index :
      (pool : List A) (i : ℕ)
      → i < length pool
      → (score : A → ℕ) → Handed score (λ _. Unit) pool (handed (swap_remove pool i))
  at_index pool i h score =
      let (c, e) = get_elem?-some pool i h in handed-Handed score _ pool i c e tt

  -- The weighted strategy, on a pool that is not empty and whose total weight is not 0, hands
  -- out one connection of positive score and keeps the others, when draws stay in range.
  pub select_weighted-positive :
      (score : A → ℕ) (random_range : ℕ → ℕ) (c : A) (cs : List A)
      → InRange random_range
      → 0 < total_weight score (c ∷ cs)
      → Handed score
          (λ x. 0 < score x)
          (c ∷ cs)
          (select_weighted_random score random_range (c ∷ cs))
  unfolding select_weighted_random
  select_weighted-positive score random_range c cs range some_weight =
      let total = total_weight score (c ∷ cs) in
      let test : (total == 0) ≡ false = ground arith in
      let drawn =
        weighted_index-Drawn score (c ∷ cs) 0 (random_range total) (c ∷ cs)
          (omega (arith, range total some_weight, total_weight-le score (c ∷ cs)))
          (Tail-all (c ∷ cs)) in
      rw (test, drawn.is)
        (handed-Handed score _ (c ∷ cs) drawn.index drawn.item drawn.at drawn.positive)

  anything :
      (score : A → ℕ) (P : A → Type 0) (pool : List A) (out : Option (Option A × List A))
      → Handed score P pool out
      → Handed score (λ _. Unit) pool out
  anything score P pool out h = record {
    chosen = h.chosen;
    rest = h.rest;
    is = h.is;
    same = h.same;
    good = tt;
  }

  weighted-Handed :
      (score : A → ℕ) (random_range : ℕ → ℕ) (c : A) (cs : List A)
      → InRange random_range
      → Handed score (λ _. Unit) (c ∷ cs) (select_weighted_random score random_range (c ∷ cs))
  unfolding select_weighted_random
  weighted-Handed score random_range c cs range =
      elim (Bool-cases (total_weight score (c ∷ cs) == 0)) [
        | inl none_weigh ↦ rw none_weigh (at_index (c ∷ cs) _ (range _ (omega arith)) score)
        | inr e ↦
            anything score (λ x. 0 < score x) (c ∷ cs) _
              (select_weighted-positive score random_range c cs range (ground arith))
      ]

  -- Every strategy, on a pool that is not empty and when draws stay in range, returns without a
  -- panic: it hands out one connection, and that and the pool left are the pool before.
  pub select-Handed :
      (score : A → ℕ) (random_range : ℕ → ℕ) (c : A) (cs : List A) (strategy : SelectionStrategy)
      (index : ℕ)
      → InRange random_range
      → Handed score (λ _. Unit) (c ∷ cs) (select score random_range (c ∷ cs) strategy index).0
  unfolding select select_round_robin
  select-Handed score random_range c cs best_quality index range =
      anything score _ (c ∷ cs) _ (select_best-highest score c cs)
  select-Handed score random_range c cs weighted_random index range =
      weighted-Handed score random_range c cs range
  select-Handed score random_range c cs round_robin index range =
      at_index (c ∷ cs) _ (mod-lt index (omega arith)) score
  select-Handed score random_range c cs least_connections index range =
      anything score _ (c ∷ cs) _ (select_best-highest score c cs)
