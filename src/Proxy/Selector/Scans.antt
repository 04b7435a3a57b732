-- ===== src/Proxy/Selector/Scans.antt =====
-- src/proxy/connection_selector.rs: the scans of the pool, and taking a connection out of it.
use gsc_fq.Common.{
  ℕ, zero, suc, ◌+◌, ◌-◌, ◌≤◌, ◌<◌, ◌≡◌, refl, Option, some, List, [], ◌∷◌, arith, ltb, inl, inr,
  Bool-cases, All, ◌∙◌, ap, get_elem?,
}
use mathlib.Core.Path.{subst}
use mathlib.Core.List.{Perm}
use mathlib.Core.List.Perm
use gsc_fq.Proxy.Selector.{
  last, but_last, last_first, swap_remove, best_index, total_weight, weighted_index,
}

module _ {ℓ} {A : Type ℓ} where
  last-Perm : (y : A) (ys : List A) → Perm (last y ys ∷ but_last y ys) (y ∷ ys)
  unfolding last but_last
  last-Perm y [] = Perm.refl (y ∷ [])
  last-Perm y (z ∷ zs) =
      Perm.trans (Perm.swap y (last z zs) (but_last z zs)) (Perm.cons y (last-Perm z zs))

  last_first-Perm : (xs : List A) → Perm (last_first xs) xs
  unfolding last but_last
  last_first-Perm [] = Perm.refl []
  last_first-Perm (y ∷ ys) = last-Perm y ys

  -- The connection at an index is taken out: with what is left it makes up the pool.
  pub record Removed (pool : List A) (i : ℕ) (c : A) : Type ℓ where
    pub rest : List A
    pub is : swap_remove pool i ≡ some (c, rest)
    pub same : Perm (c ∷ rest) pool

  pub swap_remove-Removed :
      (pool : List A) (i : ℕ) (c : A) → get_elem? pool i ≡ some c → Removed pool i c
  unfolding swap_remove
  swap_remove-Removed [] i c h = absurd (cc)
  swap_remove-Removed (x ∷ xs) zero c h =
      let e : x ≡ c = cc in
      record {
        rest = last_first xs;
        is = cc;
        same = subst (λ y. Perm (y ∷ last_first xs) (x ∷ xs)) e (Perm.cons x (last_first-Perm xs));
      }
  swap_remove-Removed (x ∷ xs) (suc i) c h =
      let below = swap_remove-Removed xs i c h in
      record {
        rest = x ∷ below.rest;
        is = rw below.is refl;
        same = Perm.trans (Perm.swap x c below.rest) (Perm.cons x below.same);
      }

  -- From `idx` on, the pool is this list.
  pub Tail : List A → ℕ → List A → Type ℓ
  Tail pool idx cs = (j : ℕ) → get_elem? pool (idx + j) ≡ get_elem? cs j

  pub Tail-next :
      (pool : List A) (idx : ℕ) (c : A) (cs : List A)
      → Tail pool idx (c ∷ cs)
      → Tail pool (suc idx) cs
  unfolding Tail
  Tail-next pool idx c cs h j = ap (get_elem? pool) (omega arith) ∙ h (suc j)

  Tail-head :
      (pool : List A) (idx : ℕ) (c : A) (cs : List A)
      → Tail pool idx (c ∷ cs)
      → get_elem? pool idx ≡ some c
  unfolding Tail
  Tail-head pool idx c cs h = ap (get_elem? pool) (omega arith) ∙ h 0

  pub Tail-all : (pool : List A) → Tail pool 0 pool
  unfolding Tail
  Tail-all pool j = ap (get_elem? pool) (omega arith)

  module _ (score : A → ℕ) where
    -- The scan stops at an item that no item it saw exceeds.
    pub record Best (pool : List A) (best : ℕ) (cs : List A) (i : ℕ) : Type ℓ where
      pub item : A
      pub at : get_elem? pool i ≡ some item
      pub over : best ≤ score item
      pub above : All (λ x. score x ≤ score item) cs

    pub best_index-Best :
        (pool : List A) (idx at : ℕ) (b : A) (best : ℕ) (cs : List A)
        → get_elem? pool at ≡ some b
        → score b ≡ best
        → Tail pool idx cs
        → Best pool best cs (best_index score idx at best cs)
    unfolding best_index
    best_index-Best pool idx at b best [] e eb tail = record {
      item = b;
      at = e;
      over = omega arith;
      above = tt;
    }
    best_index-Best pool idx at b best (c ∷ cs) e eb tail = elim (Bool-cases (ltb best (score c))) [
      | inl more ↦
          let next =
            best_index-Best pool (suc idx) idx c (score c) cs (Tail-head pool idx c cs tail) refl
              (Tail-next pool idx c cs tail) in
          rw more (record {
            item = next.item;
            at = next.at;
            over = ground (arith, next.over);
            above = (next.over, next.above);
          })
      | inr less ↦
          let next =
            best_index-Best pool (suc idx) at b best cs e eb (Tail-next pool idx c cs tail) in
          rw less (record {
            item = next.item;
            at = next.at;
            over = next.over;
            above = (ground (arith, next.over), next.above);
          })
    ]

    -- The weights before the wrap of the sum.
    pub weights : List A → ℕ
    weights [] = 0
    weights (c ∷ cs) = score c + weights cs

    pub total_weight-le : (cs : List A) → total_weight score cs ≤ weights cs
    unfolding total_weight weights
    total_weight-le [] = omega arith
    total_weight-le (c ∷ cs) = omega (arith, total_weight-le cs)

    -- A draw below the sum of the weights falls on an item of positive weight.
    pub record Drawn (pool : List A) (found : Option ℕ) : Type ℓ where
      pub index : ℕ
      pub item : A
      pub is : found ≡ some index
      pub at : get_elem? pool index ≡ some item
      pub positive : 0 < score item

    pub weighted_index-Drawn :
        (pool : List A) (idx w : ℕ) (cs : List A)
        → w < weights cs
        → Tail pool idx cs
        → Drawn pool (weighted_index score idx w cs)
    unfolding weighted_index weights
    weighted_index-Drawn pool idx w [] low tail = absurd (omega arith)
    weighted_index-Drawn pool idx w (c ∷ cs) low tail = elim (Bool-cases (ltb w (score c))) [
      | inl here ↦ rw here (record {
        index = idx;
        item = c;
        is = refl;
        at = Tail-head pool idx c cs tail;
        positive = ground arith;
      })
      | inr beyond ↦ rw beyond (
          weighted_index-Drawn pool (suc idx) (w - score c) cs (ground arith)
            (Tail-next pool idx c cs tail))
    ]
