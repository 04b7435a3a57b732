-- ===== src/Proxy/Selector.antt =====
-- src/proxy/connection_selector.rs: which pooled connection a request is given. The score of a
-- connection and a draw of the random generator are arguments; `none` of an outer option is a
-- panic of the code.
use gsc_fq.Common.{
  ℕ, zero, suc, ◌+◌, ◌-◌, ◌%◌, ◌^◌, Bool, true, false, Option, none, some, List, [], ◌∷◌, arith,
  ltb, ◌==◌, if◌then◌else◌, Bytes, codes, length, contains, ◌||◌, bytes_key, map,
}
pub mod Scans
pub mod Choice
pub mod Tests

pub data SelectionStrategy : Type 0 where
  best_quality : SelectionStrategy
  weighted_random : SelectionStrategy
  round_robin : SelectionStrategy
  least_connections : SelectionStrategy

-- The text is what `to_lowercase` returns.
pub from_str : Bytes → Option SelectionStrategy
from_str s =
    if contains (codes "best_quality" ∷ codes "best" ∷ []) s
    then some best_quality
    else if contains (codes "weighted_random" ∷ codes "weighted" ∷ []) s
    then some weighted_random
    else if contains (codes "round_robin" ∷ codes "roundrobin" ∷ []) s
    then some round_robin
    else if contains (codes "least_connections" ∷ codes "least" ∷ []) s
    then some least_connections
    else none

module _ {ℓ} {A : Type ℓ} where
  pub last : A → List A → A
  last y [] = y
  last y (z ∷ zs) = last z zs

  pub but_last : A → List A → List A
  but_last y [] = []
  but_last y (z ∷ zs) = y ∷ but_last z zs

  abbrev pub last_first : List A → List A
  unfolding last but_last
  last_first [] = []
  last_first (y ∷ ys) = last y ys ∷ but_last y ys

  -- `Vec::swap_remove` puts the last item into the place of the one it removes, and panics out
  -- of range.
  pub swap_remove : List A → ℕ → Option (A × List A)
  swap_remove [] i = none
  swap_remove (x ∷ xs) zero = some (x, last_first xs)
  swap_remove (x ∷ xs) (suc i) = elim (swap_remove xs i) [
    | none ↦ none
    | some (c, rest) ↦ some (c, x ∷ rest)
  ]

  -- What a selection returns: the connection, if any, and the pool that is left.
  abbrev pub handed : Option (A × List A) → Option (Option A × List A)
  handed none = none
  handed (some (c, rest)) = some (some c, rest)

  module _ (score : A → ℕ) where
    -- The scan for the best score: the index it is at, the best index and score so far.
    pub best_index : ℕ → ℕ → ℕ → List A → ℕ
    best_index idx best_at best [] = best_at
    best_index idx best_at best (c ∷ cs) =
        let s = score c in
        if ltb best s then best_index (suc idx) idx s cs else best_index (suc idx) best_at best cs

    pub select_best_quality : List A → Option (Option A × List A)
    unfolding swap_remove best_index
    select_best_quality [] = some (none, [])
    select_best_quality (c ∷ cs) = handed (swap_remove (c ∷ cs) (best_index 1 0 (score c) cs))

    pub total_weight : List A → ℕ
    total_weight [] = 0
    total_weight (c ∷ cs) = (score c + total_weight cs) % 2 ^ 32

    -- The scan for the item that the drawn weight falls on.
    pub weighted_index : ℕ → ℕ → List A → Option ℕ
    weighted_index idx w [] = none
    weighted_index idx w (c ∷ cs) =
        if ltb w (score c) then some idx else weighted_index (suc idx) (w - score c) cs

    pub select_weighted_random : (ℕ → ℕ) → List A → Option (Option A × List A)
    unfolding swap_remove total_weight weighted_index
    select_weighted_random random_range [] = some (none, [])
    select_weighted_random random_range (c ∷ cs) =
        let pool = c ∷ cs in
        let total = total_weight pool in
        if total == 0
        then handed (swap_remove pool (random_range (length pool)))
        else elim (weighted_index 0 (random_range total) pool) [
          | some idx ↦ handed (swap_remove pool idx)
          | none ↦ handed (swap_remove pool (length pool - 1))
        ]

  -- The selection and the new `round_robin_index`.
  pub select_round_robin : List A → ℕ → Option (Option A × List A) × ℕ
  unfolding swap_remove
  select_round_robin [] index = (some (none, []), index)
  select_round_robin (c ∷ cs) index =
      let n = length (c ∷ cs) in
      (handed (swap_remove (c ∷ cs) (index % n)), ((index + 1) % 2 ^ 64) % n)

  pub select : (A → ℕ) → (ℕ → ℕ) → List A → SelectionStrategy → ℕ → Option (Option A × List A) × ℕ
  unfolding select_best_quality select_weighted_random select_round_robin
  select score random_range [] strategy index = (some (none, []), index)
  select score random_range (c ∷ cs) best_quality index =
      (select_best_quality score (c ∷ cs), index)
  select score random_range (c ∷ cs) weighted_random index =
      (select_weighted_random score random_range (c ∷ cs), index)
  select score random_range (c ∷ cs) round_robin index = select_round_robin (c ∷ cs) index
  select score random_range (c ∷ cs) least_connections index =
      (select_best_quality score (c ∷ cs), index)
