-- ===== src/Common/Windows.antt =====
-- A list of bounded length: an item is pushed at the end, and the first goes where there are too many.
use gsc_fq.Common.Tests.{if◌then◌else◌, ltb, Bool-cases}
use gsc_fq.Common.Lists.{length, drop, length-append, length-drop}
use Prim.Native.Nat.{ℕ, zero, suc, ◌-◌, ◌≤◌}
use mathlib.Core.Path.{◌≡◌, refl, sym}
use mathlib.Core.Logic.{inl, inr}
use mathlib.Core.List.{List, [], ◌∷◌, ◌++◌}
use native.Mathlib.Omega.{arith}

module _ {ℓ} {A : Type ℓ} where
  -- `push`, and `remove(0)` if the list is longer than the bound.
  abbrev pub push : ℕ → List A → A → List A
  push bound xs x = let all = xs ++ (x ∷ []) in if ltb bound (length all) then drop 1 all else all

  abbrev pub last_of : ℕ → List A → List A
  last_of bound xs = drop (length xs - bound) xs

  pub length-push :
      (bound : ℕ) (xs : List A) (x : A) → length xs ≤ bound → length (push bound xs x) ≤ bound
  length-push bound xs x le = elim (Bool-cases (ltb bound (length (xs ++ (x ∷ []))))) [
    | inl long ↦ rw long (omega (arith, length-drop 1 (xs ++ (x ∷ [])), length-append xs (x ∷ [])))
    | inr short ↦ rw short (ground arith)
  ]

  drop-append_le : (n : ℕ) (xs ys : List A) → n ≤ length xs → drop n (xs ++ ys) ≡ drop n xs ++ ys
  drop-append_le zero xs ys h = refl
  drop-append_le (suc n) [] ys h = absurd (omega arith)
  drop-append_le (suc n) (x ∷ xs) ys h = drop-append_le n xs ys (omega arith)

  drop-drop : (n : ℕ) (xs : List A) → drop 1 (drop n xs) ≡ drop (suc n) xs
  drop-drop zero xs = refl
  drop-drop (suc n) [] = refl
  drop-drop (suc n) (x ∷ xs) = drop-drop n xs

  pub push-last_of :
      (bound : ℕ) (all : List A) (x : A)
      → push bound (last_of bound all) x ≡ last_of bound (all ++ (x ∷ []))
  push-last_of bound all x =
      let n : length (all ++ (x ∷ [])) ≡ suc (length all) =
        omega (arith, length-append all (x ∷ [])) in
      let kept = length-drop (length all - bound) all in
      let m = length-append (last_of bound all) (x ∷ []) in
      elim (Bool-cases (ltb bound (length (last_of bound all ++ (x ∷ []))))) [
        | inl long ↦
            let cut : length all - bound ≤ length all = omega arith in
            let k : length (all ++ (x ∷ [])) - bound ≡ suc (length all - bound) = ground arith in
            rw (long, k, sym (drop-append_le (length all - bound) all (x ∷ []) cut))
              (drop-drop (length all - bound) (all ++ (x ∷ [])))
        | inr short ↦
            let k : length (all ++ (x ∷ [])) - bound ≡ 0 = ground arith in
            let z : length all - bound ≡ 0 = ground arith in rw (short, k, z) refl
      ]
