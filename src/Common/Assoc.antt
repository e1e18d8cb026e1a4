-- ===== src/Common/Assoc.antt =====
-- Go maps as association lists with one entry for each key.
use Prim.Native.Nat.{◌+◌, ◌≤◌}
use mathlib.Core.Path.{◌≡◌}
use mathlib.Core.Logic.{ite}
use mathlib.Core.List.{List, [], ◌∷◌}
use mathlib.Core.Option.{Option, none, some}
use native.Mathlib.Omega.{arith}
use quectel_qmi_go.Common.Lists.{length}

module _ {ℓ} {K : Type 0} {V : Type ℓ} (d : Discrete K) where
  -- m[k], with ok = false as `none`.
  unfoldable pub lookup : List (K × V) → K → Option V
  lookup [] k = none
  lookup ((j, v) ∷ m) k = ite (d j k) (some v) (lookup m k)

  -- delete(m, k)
  unfoldable pub delete : List (K × V) → K → List (K × V)
  delete [] k = []
  delete ((j, v) ∷ m) k = let rest = delete m k in ite (d j k) rest ((j, v) ∷ rest)

  -- m[k] = v
  unfoldable pub insert : List (K × V) → K → V → List (K × V)
  insert m k v = (k, v) ∷ delete m k

  pub lookup-delete :
      (m : List (K × V)) (k j : K) → lookup (delete m k) j ≡ ite (d k j) none (lookup m j)
  unfolding lookup delete
  lookup-delete [] k j = ground arith
  lookup-delete ((i, v) ∷ m) k j = ground (arith, lookup-delete m k j)

  pub lookup-insert :
      (m : List (K × V)) (k j : K) (v : V)
      → lookup (insert m k v) j ≡ ite (d k j) (some v) (lookup m j)
  unfolding lookup insert
  lookup-insert m k j v = ground (arith, lookup-delete m k j)

  pub length-delete : (m : List (K × V)) (k : K) → length (delete m k) ≤ length m
  unfolding delete
  length-delete [] k = omega arith
  length-delete ((i, v) ∷ m) k = ground (arith, length-delete m k)

  pub shrink_delete :
      (m : List (K × V)) (k : K) (v : V) → lookup m k ≡ some v → length (delete m k) + 1 ≤ length m
  unfolding lookup delete
  shrink_delete [] k v e = absurd (ground arith)
  shrink_delete ((i, w) ∷ m) k v e = ground (arith, length-delete m k, shrink_delete m k v)

  pub length-insert : (m : List (K × V)) (k : K) (v : V) → length (insert m k v) ≤ length m + 1
  unfolding insert
  length-insert m k v = omega (arith, length-delete m k)

-- Equality of keys that are pairs.
unfoldable pub pair_discrete {ℓ ℓ'} :
    {A : Type ℓ} {B : Type ℓ'} → Discrete A → Discrete B → Discrete (A × B)
pair_discrete dA dB p q = elim (dA (p.0) (q.0)) [
  | no n ↦ no (λ e. n (λ i. (e i).0))
  | yes e ↦ elim (dB (p.1) (q.1)) [
    | no n ↦ no (λ e'. n (λ i. (e' i).1))
    | yes e' ↦ yes (λ i. (e i, e' i))
  ]
]
