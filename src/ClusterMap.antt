-- ===== src/ClusterMap.antt =====
-- revtr/clustermap/cluster_map.go: the map from addresses to clusters of aliases, behind a cache.
--
-- The cache is a parameter with a state `C`; the time that it keeps an entry does not matter here,
-- since an entry may be gone at any time. `cluster_of` is `GetClusterIDByIP` of the cluster source,
-- `none` being an error, and `decimal` is `fmt.Sprintf("%d", ...)`.
pub mod Cached
use reverse_traceroute_publi.Base.{ℕ, String, Option, none, some, or_zero, ℤ}
use reverse_traceroute_publi.Addresses.{IpNet, ip_string_to_int32}
use Prim.Native.String.{◌∷◌}

-- `types.Cache`, as far as the source uses it.
pub record Cache (C : Type 0) : Type 0 where
  pub get : C → String → Option String
  pub set : C → String → String → C

-- `"CM_" + s`.
abbrev pub cache_key : String → String
cache_key s = "C" ∷ "M" ∷ "_" ∷ s

module _ {C : Type 0} (ca : Cache C) (net : IpNet) (cluster_of : ℕ → Option ℤ)
    (decimal : ℤ → String) where
  -- The error of `IPStringToInt32` is dropped: the address is 0 then.
  unfoldable pub find_cluster : String → String
  find_cluster s = elim (cluster_of (or_zero 0 (ip_string_to_int32 net s))) [
    | none ↦ s
    | some cluster ↦ decimal cluster
  ]

  -- `fetchCluster`.
  unfoldable pub fetch_cluster : C → String → C × String
  fetch_cluster cache s =
      let clusters = find_cluster s in (ca.set cache (cache_key s) clusters, clusters)

  -- `Get`.
  unfoldable pub get_cluster : C → String → C × String
  unfolding fetch_cluster
  get_cluster cache s = elim (ca.get cache (cache_key s)) [
    | none ↦ fetch_cluster cache s
    | some item ↦ (cache, item)
  ]
