-- ===== src/Prelude/Dict.antt =====
-- Python's dictionaries and sets: association lists in insertion order, lists without repetition,
-- and functions for a `defaultdict`.
use Prim.Native.Nat.{◌≤◌}
use mathlib.Core.Path.{◌≡◌, refl, sym, ap, ◌∙◌}
use mathlib.Core.Logic.{inl, inr}
use mathlib.Core.Bool.{Bool, false, ◌||◌}
use mathlib.Core.Option.{Option, none, some}
use mathlib.Core.List.{List, [], ◌∷◌}
use native.Mathlib.Omega.{arith}
use beeflow.Prelude.Tests.{if◌then◌else◌, Eq, ◌==◌, Bool-cases, some_inj}
use beeflow.Prelude.Lists.{length, In}

module _ {ℓ κ} {K : Type ℓ} ⦃e : Eq K⦄ {V : Type κ} where
  -- `d.get(k)`
  unfoldable pub lookup : K → List (K × V) → Option V
  lookup k [] = none
  lookup k ((j, v) ∷ m) = if j == k then some v else lookup k m

  -- `d[k] = v`
  unfoldable pub insert : K → V → List (K × V) → List (K × V)
  insert k v [] = (k, v) ∷ []
  insert k v ((j, w) ∷ m) = if j == k then (j, v) ∷ m else (j, w) ∷ insert k v m

  pub lookup-insert :
      (set read : K) (v : V) (m : List (K × V))
      → lookup read (insert set v m) ≡ (if set == read then some v else lookup read m)
  unfolding lookup insert
  lookup-insert set read v [] = refl
  lookup-insert set read v ((first, w) ∷ rest) = ground (
    arith,
    e.agrees_iff set read,
    e.agrees_iff first set,
    e.agrees_iff first read,
    lookup-insert set read v rest,
  )

  -- `d[k] = v` of a `defaultdict`
  unfoldable pub update : (K → V) → K → V → K → V
  update f k v j = if k == j then v else f j

module _ {ℓ} {K : Type ℓ} ⦃e : Eq K⦄ where
  -- `k in s`
  unfoldable pub contains : K → List K → Bool
  contains k [] = false
  contains k (j ∷ s) = j == k || contains k s

  -- `s.add(k)`
  unfoldable pub add : K → List K → List K
  add k s = if contains k s then s else k ∷ s

  pub contains-add : (k j : K) (s : List K) → contains j (add k s) ≡ (k == j || contains j s)
  unfolding add contains
  contains-add k j s = elim (Bool-cases (k == j)) [
    | inl same ↦ rw ((e.agrees_iff k j).0 same) (ground arith)
    | inr other ↦ ground arith
  ]

  pub length-add-le : (k : K) (s : List K) → length s ≤ length (add k s)
  unfolding add
  length-add-le k s = ground arith

module _ {K V : Type 0} ⦃e : Eq K⦄ where
  -- What is found is there.
  pub lookup-In : (k : K) (v : V) (m : List (K × V)) → lookup k m ≡ some v → In (k, v) m
  unfolding lookup
  lookup-In k v [] h = cc
  lookup-In k v ((j, w) ∷ m) h = elim (Bool-cases (j == k)) [
    | inl same ↦
        let key = sym ((e.agrees_iff j k).0 same) in
        let value : w ≡ v = some_inj (rw same at h) in
        inl (ap (λ i. (i, v)) key ∙ ap (λ u. (j, u)) (sym value))
    | inr other ↦ inr (lookup-In k v m (rw other at h))
  ]
