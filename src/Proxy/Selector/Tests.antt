-- ===== src/Proxy/Selector/Tests.antt =====
-- src/proxy/connection_selector.rs: runs of the selection, and its theorems at inputs.
use gsc_fq.Common.{ℕ, ◌≤◌, ◌<◌, ◌≡◌, refl, some, List, [], ◌∷◌, arith, codes, All, contains}
use gsc_fq.Proxy.Selector.{
  best_quality, weighted_random, round_robin, from_str, select, select_best_quality,
  select_weighted_random, select_round_robin, swap_remove, best_index, total_weight, last, but_last,
}
use gsc_fq.Proxy.Selector.Choice.{
  Handed, InRange, select_best-highest, select_weighted-positive, select-Handed,
}

-- Connections that are their own scores, and the lowest draw.
abbrev pool : List ℕ
pool = 3 ∷ 9 ∷ 4 ∷ []

lowest : InRange (λ n. 0)
lowest n h = h

best_run : select (λ x. x) (λ n. 0) pool best_quality 7 ≡ (some (some 9, 3 ∷ 4 ∷ []), 7)
unfolding select select_best_quality swap_remove best_index last but_last
best_run = refl

robin_run : select (λ x. x) (λ n. 0) pool round_robin 3 ≡ (some (some 3, 4 ∷ 9 ∷ []), 1)
unfolding select select_round_robin swap_remove last but_last
robin_run = refl

parsed : from_str (codes "roundrobin") ≡ some round_robin
unfolding from_str contains
parsed = refl

select_best-highest_example :
    Handed (λ x. x) (λ x. All (λ y. y ≤ x) pool) pool (select_best_quality (λ x. x) pool)
select_best-highest_example = select_best-highest (λ x. x) 3 (9 ∷ 4 ∷ [])

positive_chosen : Handed (λ x. x) (λ x. 0 < x) pool (select_weighted_random (λ x. x) (λ n. 0) pool)
unfolding total_weight
positive_chosen = select_weighted-positive (λ x. x) (λ n. 0) 3 (9 ∷ 4 ∷ []) lowest (omega arith)

select-Handed_example :
    Handed (λ x. x) (λ _. Unit) pool (select (λ x. x) (λ n. 0) pool weighted_random 5).0
select-Handed_example = select-Handed (λ x. x) (λ n. 0) 3 (9 ∷ 4 ∷ []) weighted_random 5 lowest
