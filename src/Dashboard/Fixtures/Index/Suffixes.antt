-- ===== src/Dashboard/Fixtures/Index/Suffixes.antt =====
-- uniqueClusterKey gives a key that no cluster has.
use surebet.Base.{
  ℕ, zero, suc, ◌≤◌, ◌<◌, String, false, ◌≡◌, refl, List, [], ◌∷◌, map, any, ◌==◌, eq_iff, arith,
  Bool-cases, inl, inr,
}
use surebet.Base.Decimal.{numbered_injective}
use surebet.Base.Text.{◌^^◌}
use surebet.JsMap.{JsSet, has, delete, size}
use surebet.JsMap.Laws.{has-delete, size-delete}
use surebet.JsMap.SetOf.{set_of, has-set_of, elem}
use surebet.Dashboard.Fixtures.Index.{Cluster, numbered_key, free_suffix, unique_cluster_key}

numbered_key_injective :
    (base : String) (m n : ℕ) → numbered_key base m ≡ numbered_key base n → m ≡ n
unfolding numbered_key
numbered_key_injective base m n e = numbered_injective (base ^^ " #") m n e

numbered_key_differs :
    (base : String) (m n : ℕ) → m < n → (numbered_key base m == numbered_key base n) ≡ false
numbered_key_differs base m n h = elim (Bool-cases (numbered_key base m == numbered_key base n)) [
  | inl e ↦ absurd (
      omega (
        arith,
        numbered_key_injective base m n ((eq_iff (numbered_key base m) (numbered_key base n)).0 e),
      ))
  | inr e ↦ e
]

-- More fuel than keys that are left: `rest` holds those of the used keys that can still be met.
free_suffix-unused :
    (fuel : ℕ) (used rest : JsSet) (base : String) (n : ℕ)
    → ((j : ℕ) → n ≤ j → has (numbered_key base j) used ≡ has (numbered_key base j) rest)
    → size rest < fuel
    → has (numbered_key base (free_suffix fuel used base n)) used ≡ false
unfolding free_suffix
free_suffix-unused zero used rest base n same enough = absurd (omega arith)
free_suffix-unused (suc fuel) used rest base n same enough =
    elim (Bool-cases (has (numbered_key base n) used)) [
      | inl e ↦
          rw (e, free_suffix)
            (free_suffix-unused fuel used (delete (numbered_key base n) rest) base (suc n)
              (λ j h. ground (
                arith,
                same j,
                has-delete (numbered_key base n) (numbered_key base j) rest,
                numbered_key_differs base n j,
              ))
              (ground (arith, same n, size-delete (numbered_key base n) rest)))
      | inr e ↦ rw (e, free_suffix) e
    ]

elem-keys :
    (k : String) (clusters : List Cluster)
    → elem k (map (λ (c : Cluster). c.key) clusters) ≡ any (λ c. c.key == k) clusters
elem-keys k [] = refl
elem-keys k (c ∷ clusters) = ground (arith, elem-keys k clusters)

-- A new cluster gets a key that no cluster has, however many have its base or a numbered one: the
-- search for a number ends.
pub unique_cluster_key-unused :
    (clusters : List Cluster) (base : String)
    → any (λ c. c.key == unique_cluster_key clusters base) clusters ≡ false
unfolding unique_cluster_key
unique_cluster_key-unused clusters base =
    let used : JsSet = set_of (map (λ (c : Cluster). c.key) clusters) in
    ground (
      arith,
      free_suffix-unused (suc (size used)) used used base 2 (λ j h. refl) (omega arith),
      elem-keys (unique_cluster_key clusters base) clusters,
      has-set_of (unique_cluster_key clusters base) (map (λ (c : Cluster). c.key) clusters),
    )
