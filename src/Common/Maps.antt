-- ===== src/Common/Maps.antt =====
-- `HashMap` as an association list: a key is listed once, since `insert` writes in place.
use gsc_fq.Common.Tests.{if◌then◌else◌, Eq, Bool-cases}
use gsc_fq.Common.Lists.{length}
use Prim.Native.Nat.{ℕ}
use mathlib.Core.Path.{◌≡◌, refl, ap}
use mathlib.Core.Bool.{Bool, true}
use mathlib.Core.Logic.{inl, inr}
use mathlib.Core.List.{List, [], ◌∷◌}
use mathlib.Core.Option.{Option, none, some}
use native.Mathlib.Omega.{arith}

pub record Map {ℓ κ} (K : Type ℓ) (V : Type κ) : Type (ℓ ⊔ κ) where
  pub entries : List (K × V)

module _ {ℓ κ} {K : Type ℓ} {V : Type κ} where
  abbrev pub empty : Map K V
  empty = record { entries = [] }

  abbrev pub size : Map K V → ℕ
  size m = length m.entries

  -- `retain(|k, v| keep k v)`.
  pub retain_entries : (K → V → Bool) → List (K × V) → List (K × V)
  retain_entries p [] = []
  retain_entries p ((k, v) ∷ m) =
      let rest = retain_entries p m in if p k v then (k, v) ∷ rest else rest

  unfoldable pub retain : (K → V → Bool) → Map K V → Map K V
  unfolding retain_entries
  retain p m = record { entries = retain_entries p m.entries }

module _ {ℓ κ} {K : Type ℓ} {V : Type κ} ⦃e : Eq K⦄ where
  unfoldable pub lookup : K → List (K × V) → Option V
  lookup k [] = none
  lookup k ((j, v) ∷ m) = if e.beq j k then some v else lookup k m

  pub insert_entry : K → V → List (K × V) → List (K × V)
  insert_entry k v [] = (k, v) ∷ []
  insert_entry k v ((j, w) ∷ m) = if e.beq j k then (j, v) ∷ m else (j, w) ∷ insert_entry k v m

  pub remove_entry : K → List (K × V) → List (K × V)
  remove_entry k [] = []
  remove_entry k ((j, w) ∷ m) =
      let rest = remove_entry k m in if e.beq j k then rest else (j, w) ∷ rest

  unfoldable pub get : K → Map K V → Option V
  unfolding lookup
  get k m = lookup k m.entries

  unfoldable pub insert : K → V → Map K V → Map K V
  unfolding insert_entry
  insert k v m = record { entries = insert_entry k v m.entries }

  pub remove : K → Map K V → Map K V
  unfolding remove_entry
  remove k m = record { entries = remove_entry k m.entries }

  lookup-insert_entry :
      (k j : K) (v : V) (m : List (K × V))
      → lookup j (insert_entry k v m) ≡ (if e.beq k j then some v else lookup j m)
  unfolding lookup insert_entry
  lookup-insert_entry k j v [] = refl
  lookup-insert_entry k j v ((i, w) ∷ m) =
      ground (arith, e.beq_iff k j, e.beq_iff i k, e.beq_iff i j, lookup-insert_entry k j v m)

  pub get-insert :
      (k j : K) (v : V) (m : Map K V)
      → get j (insert k v m) ≡ (if e.beq k j then some v else get j m)
  unfolding get insert
  get-insert k j v m = lookup-insert_entry k j v m.entries

  lookup-remove_entry :
      (k j : K) (m : List (K × V))
      → lookup j (remove_entry k m) ≡ (if e.beq k j then none else lookup j m)
  unfolding lookup remove_entry
  lookup-remove_entry k j [] = ground arith
  lookup-remove_entry k j ((i, w) ∷ m) =
      ground (arith, e.beq_iff k j, e.beq_iff i k, e.beq_iff i j, lookup-remove_entry k j m)

  pub get-remove :
      (k j : K) (m : Map K V) → get j (remove k m) ≡ (if e.beq k j then none else get j m)
  unfolding get remove
  get-remove k j m = lookup-remove_entry k j m.entries

  -- An entry that passes is kept, whatever else is dropped.
  lookup-retain_entries :
      (p : K → V → Bool) (k : K) (v : V) (m : List (K × V))
      → lookup k m ≡ some v
      → p k v ≡ true
      → lookup k (retain_entries p m) ≡ some v
  unfolding lookup retain_entries
  lookup-retain_entries p k v [] found pass = absurd (cc)
  lookup-retain_entries p k v ((j, w) ∷ m) found pass = elim (Bool-cases (e.beq j k)) [
    | inl same ↦
        let own : j ≡ k = (e.beq_iff j k).0 same in
        let here : w ≡ v = cc (rw same at found) in
        let kept : p j w ≡ true = rw (own, here) pass in rw (kept, same) (ap (λ x. some x) here)
    | inr other ↦
        let ih = lookup-retain_entries p k v m (rw other at found) pass in
        elim (Bool-cases (p j w)) [ inl kept ↦ rw (kept, other) ih | inr dropped ↦ rw dropped ih ]
  ]

  pub get-retain :
      (p : K → V → Bool) (k : K) (v : V) (m : Map K V)
      → get k m ≡ some v
      → p k v ≡ true
      → get k (retain p m) ≡ some v
  unfolding get retain
  get-retain p k v m found pass = lookup-retain_entries p k v m.entries found pass
