-- ===== src/ClusterMap/Cached.antt =====
-- The cache of revtr/clustermap/cluster_map.go is transparent.
use reverse_traceroute_publi.Base.{
  ℕ, ◌≡◌, ◌⊎◌, inl, inr, String, Option, none, some, ℤ, refl, ◌∙◌, ap,
}
use reverse_traceroute_publi.Addresses.{IpNet}
use reverse_traceroute_publi.ClusterMap.{Cache, cache_key, find_cluster, fetch_cluster, get_cluster}

-- What is found in the cache was put there under the same key: an entry may be gone, but is never
-- changed.
abbrev pub KeepsEntries : {C : Type 0} → Cache C → Type 0
KeepsEntries {C} ca =
    (cache : C) (key other v : String)
    → (ca.get (ca.set cache key v) other ≡ none)
      ⊎ ((key ≡ other) × (ca.get (ca.set cache key v) other ≡ some v)
          ⊎ (ca.get (ca.set cache key v) other ≡ ca.get cache other))

module _ {C : Type 0} (ca : Cache C) (net : IpNet) (cluster_of : ℕ → Option ℤ)
    (decimal : ℤ → String) where
  -- Each entry is the cluster of its address.
  abbrev pub IsSound : C → Type 0
  IsSound cache =
      (s : String)
      → (ca.get cache (cache_key s) ≡ none)
        ⊎ (ca.get cache (cache_key s) ≡ some (find_cluster ca net cluster_of decimal s))

  fetch_cluster-IsSound :
      (cache : C) (s : String)
      → KeepsEntries ca
      → IsSound cache
      → IsSound (fetch_cluster ca net cluster_of decimal cache s).0
  unfolding fetch_cluster
  fetch_cluster-IsSound cache s keeps sound t =
      elim (keeps cache (cache_key s) (cache_key t) (find_cluster ca net cluster_of decimal s)) [
        | inl gone ↦ inl gone
        | inr (inl (same, found)) ↦
            let same_address : s ≡ t = cc (same) in
            inr (found ∙ ap (λ u. some (find_cluster ca net cluster_of decimal u)) same_address)
        | inr (inr kept) ↦ elim (sound t) [
          | inl none_yet ↦ inl (kept ∙ none_yet)
          | inr some_yet ↦ inr (kept ∙ some_yet)
        ]
      ]

  -- With a cache that never changes an entry, `Get` answers what the cluster source says, whatever
  -- the cache has kept, and the cache stays right.
  pub get_cluster-find_cluster :
      (cache : C) (s : String)
      → KeepsEntries ca
      → IsSound cache
      → ((get_cluster ca net cluster_of decimal cache s).1
          ≡ find_cluster ca net cluster_of decimal s)
        × IsSound (get_cluster ca net cluster_of decimal cache s).0
  unfolding get_cluster
  get_cluster-find_cluster cache s keeps sound = elim (sound s) [
    | inl missing ↦
        rw (missing, get_cluster)
          (unfold fetch_cluster in refl, fetch_cluster-IsSound cache s keeps sound)
    | inr found ↦ rw (found, get_cluster) (refl, sound)
  ]
