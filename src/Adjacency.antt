-- ===== src/Adjacency.antt =====
-- `getAdjacenciesForIPToSrc` of revtr/reverse_traceroute/revese_traceroute.go, with the types of
-- revtr/types/types.go that it reads: the neighbours of a hop that are worth a timestamp probe.
pub mod Candidates
use reverse_traceroute_publi.Base.{
  ℕ, ◌+◌, bit_and, Bool, List, [], ◌∷◌, ◌++◌, String, Option, none, some, ◌>>=◌, or_zero, length,
  take, ltb, ◌==◌, if◌then◌else◌,
}
use reverse_traceroute_publi.StringUtil.{StringMap, string_slice_minus}
use reverse_traceroute_publi.Addresses.{IpNet, ip_string_to_int32, int32_to_ip_string}

pub record Adjacency : Type 0 where
  pub ip1 : ℕ
  pub ip2 : ℕ
  pub cnt : ℕ

pub record AdjacencyToDest : Type 0 where
  pub dest24 : ℕ
  pub address : ℕ
  pub adjacent : ℕ
  pub cnt : ℕ

-- `types.AdjacencySource`; `none` is an error.
pub record AdjacencySource : Type 0 where
  pub by_ip1 : ℕ → Option (List Adjacency)
  pub by_ip2 : ℕ → Option (List Adjacency)
  pub to_dest_24 : ℕ → ℕ → Option (List AdjacencyToDest)

-- What `sort.Sort(sort.Reverse(...))` makes of the two slices, which have their order by `Cnt`.
pub record Sorts : Type 0 where
  pub by_count : List AdjacencyToDest → List AdjacencyToDest
  pub a_by_count : List Adjacency → List Adjacency

-- An address as text. (The error that is dropped leaves "".)
abbrev pub text_of : IpNet → ℕ → String
text_of net ip = or_zero "" (int32_to_ip_string net ip)

unfoldable pub adjacents_to_dest : IpNet → List AdjacencyToDest → List String
adjacents_to_dest net [] = []
adjacents_to_dest net (adj ∷ adjstodst) = text_of net adj.adjacent ∷ adjacents_to_dest net adjstodst

-- The other end of each adjacency.
unfoldable pub other_ends : IpNet → ℕ → List Adjacency → List String
other_ends net ipint [] = []
other_ends net ipint (a ∷ combined) =
    text_of net (if a.ip1 == ipint then a.ip2 else a.ip1) ∷ other_ends net ipint combined

-- `ret[:30]`, or all of it.
abbrev pub at_most_30 : List String → List String
at_most_30 ret = if ltb (length ret) 30 then take (length ret) ret else take 30 ret

-- The candidates: those seen on the way to the source first, then the other neighbours.
unfoldable pub candidates :
    (StringMap → StringMap) → String → List String → List String → List String
candidates visit ip atjs combined_ips =
    at_most_30
      (atjs ++ string_slice_minus visit (string_slice_minus visit combined_ips atjs) (ip ∷ []))

unfoldable pub get_adjacencies :
    (StringMap → StringMap)
    → IpNet
    → Sorts
    → AdjacencySource
    → String
    → String
    → Option (List String)
unfolding candidates adjacents_to_dest other_ends
get_adjacencies visit net sorts source ip src = do
  let ipint = or_zero 0 (ip_string_to_int32 net ip)
  let dest24 = bit_and (or_zero 0 (ip_string_to_int32 net src)) 0xFFFFFF00
  ips1 ← source.by_ip1 ipint
  ips2 ← source.by_ip2 ipint
  adjstodst ← source.to_dest_24 dest24 ipint
  let atjs = adjacents_to_dest net (sorts.by_count adjstodst)
  some (candidates visit ip atjs (other_ends net ipint (sorts.a_by_count (ips1 ++ ips2))))
