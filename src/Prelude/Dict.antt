-- ===== src/Prelude/Dict.antt =====
-- Go's maps as association lists: the order of the list stands for the order of a `range` over
-- the map, which Go leaves open.
use mathlib.Core.Path.{◌≡◌, refl}
use mathlib.Core.Option.{Option, none, some}
use mathlib.Core.List.{List, [], ◌∷◌}
use native.Mathlib.Omega.{arith}
use ws_tunnel.Prelude.Tests.{if◌then◌else◌, Eq, ◌==◌, beq_refl}

module _ {ℓ κ} {K : Type ℓ} {V : Type κ} ⦃e : Eq K⦄ where
  unfoldable pub lookup : K → List (K × V) → Option V
  lookup k [] = none
  lookup k ((j, v) ∷ m) = if j == k then some v else lookup k m

  -- `m[k] = v`: a new key joins at the end.
  unfoldable pub insert : K → V → List (K × V) → List (K × V)
  insert k v [] = (k, v) ∷ []
  insert k v ((i, u) ∷ m) = if i == k then (k, v) ∷ m else (i, u) ∷ insert k v m

  -- `delete(m, k)`.
  unfoldable pub delete : K → List (K × V) → List (K × V)
  delete k [] = []
  delete k ((j, w) ∷ m) = let rest = delete k m in if j == k then rest else (j, w) ∷ rest

  pub lookup-insert :
      (p q : K) (x : V) (m : List (K × V))
      → lookup q (insert p x m) ≡ (if p == q then some x else lookup q m)
  unfolding lookup insert
  lookup-insert p q x [] = refl
  lookup-insert p q x ((i, w) ∷ m) =
      ground (arith, e.beq_iff p q, e.beq_iff i p, e.beq_iff i q, lookup-insert p q x m)

  pub lookup-delete :
      (k j : K) (m : List (K × V)) → lookup j (delete k m) ≡ (if k == j then none else lookup j m)
  unfolding lookup delete
  lookup-delete k j [] = ground arith
  lookup-delete k j ((i, w) ∷ m) =
      ground (arith, e.beq_iff k j, e.beq_iff i k, e.beq_iff i j, lookup-delete k j m)

  pub lookup-insert_self : (k : K) (v : V) (m : List (K × V)) → lookup k (insert k v m) ≡ some v
  lookup-insert_self k v m = rw (lookup-insert, beq_refl k)

  pub lookup-delete_self : (k : K) (m : List (K × V)) → lookup k (delete k m) ≡ none
  lookup-delete_self k m = rw (lookup-delete, beq_refl k)

  -- `m[k]` where a missing key reads the zero value.
  abbrev pub lookup_or : V → K → List (K × V) → V
  lookup_or d k m = elim (lookup k m) [ none ↦ d | some v ↦ v ]
