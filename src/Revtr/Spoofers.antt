-- ===== src/Revtr/Spoofers.antt =====
-- The ranked spoofers of revtr/reverse_traceroute/revese_traceroute.go: `AddRankedSpoofers`,
-- `MatchSpoofedResponses`, `GetRRVPsNoUpdate` and `GetTimestampSpoofers`.
--
-- The map `RankedSpoofersByHop` is the state. The inner maps and their entries are shared by
-- reference only through it, so they are values here.
pub mod Ranks
use reverse_traceroute_publi.Base.{
  ℕ, zero, suc, ◌+◌, ◌%◌, ◌^◌, Bool, true, false, List, [], ◌∷◌, map, String, Option, none, some,
  ◌>>=◌, length, take, ltb, if◌then◌else◌, ℤ, pos, NatDict, fetch_at, store_at, or_zero,
}
use reverse_traceroute_publi.Addresses.{IpNet, ip_string_to_int32, int32_to_ip_string}
use reverse_traceroute_publi.Revtr.{Source}

pub record RankedSpooferMeasurement : Type 0 where
  pub rank : ℕ
  pub ip : ℕ
  pub measurement_id : ℤ

abbrev pub RankedSpoofers : Type 0
RankedSpoofers = NatDict RankedSpooferMeasurement

-- A spoofer with its rank, a `uint32`, and no measurement yet.
abbrev pub ranked_spoofer : ℕ → ℕ → RankedSpooferMeasurement
ranked_spoofer vp rank = record { rank = rank % 2 ^ 32; ip = vp; measurement_id = pos 0 }

-- The loop of `AddRankedSpoofers`, from index `rank` on. The answer is whether it returns an error.
unfoldable pub rank_spoofers : IpNet → ℕ → ℕ → List String → RankedSpoofers → RankedSpoofers × Bool
rank_spoofers net previous_max_rank rank [] spoofers = (spoofers, false)
rank_spoofers net previous_max_rank rank (vp ∷ vps) spoofers = elim (ip_string_to_int32 net vp) [
  | none ↦ (spoofers, true)
  | some vp_i ↦
      rank_spoofers net previous_max_rank (suc rank) vps
        (store_at spoofers vp_i (ranked_spoofer vp_i (rank + previous_max_rank)))
]

unfoldable pub add_ranked_spoofers :
    IpNet → String → List String → NatDict RankedSpoofers → NatDict RankedSpoofers × Bool
unfolding rank_spoofers
add_ranked_spoofers net target vps by_hop = elim (ip_string_to_int32 net target) [
  | none ↦ (by_hop, true)
  | some target_i ↦
      let spoofers = or_zero [] (fetch_at by_hop target_i) in
      let added = rank_spoofers net (length spoofers + 1) 0 vps spoofers in
      (store_at by_hop target_i added.0, added.1)
]

-- The loop of `MatchSpoofedResponses`. An entry that is missing is a nil pointer, and panics.
unfoldable pub match_each : IpNet → NatDict ℤ → List String → RankedSpoofers → Option RankedSpoofers
match_each net rrs [] spoofers = some spoofers
match_each net rrs (vp ∷ vps) spoofers =
    let vp_i = or_zero 0 (ip_string_to_int32 net vp) in
    fetch_at spoofers vp_i >>= λ m.
    match_each net rrs vps
      (store_at spoofers vp_i (record m { measurement_id = or_zero (pos 0) (fetch_at rrs vp_i) }))

-- The entries were changed in place, so a target that is not in the map stays out of it.
abbrev pub keep_matched :
    ℕ → Option RankedSpoofers → RankedSpoofers → NatDict RankedSpoofers → NatDict RankedSpoofers
keep_matched target_i none spoofers by_hop = by_hop
keep_matched target_i (some old) spoofers by_hop = store_at by_hop target_i spoofers

-- `rrs` is its `MeasurementID` for each spoofer that answered. The Bool is whether an error is
-- returned.
unfoldable pub match_spoofed_responses :
    IpNet
    → String
    → NatDict ℤ
    → List String
    → NatDict RankedSpoofers
    → Option (NatDict RankedSpoofers × Bool)
unfolding match_each
match_spoofed_responses net target rrs vps by_hop = elim (ip_string_to_int32 net target) [
  | none ↦ some (by_hop, true)
  | some target_i ↦ match_each net rrs vps (or_zero [] (fetch_at by_hop target_i)) >>= λ spoofers.
      some (keep_matched target_i (fetch_at by_hop target_i) spoofers by_hop, false)
]

-- `GetRRVPsNoUpdate`, of the answer of the ranking service.
unfoldable pub get_rr_vps_no_update : Option (List Source) → Option (List String)
get_rr_vps_no_update vps = do vps ← vps; some (map (λ vp. vp.ip) vps)

-- `GetTimestampSpoofers`, of the answer of the VP source.
unfoldable pub get_timestamp_spoofers : IpNet → Option (List ℕ) → List String
get_timestamp_spoofers net none = []
get_timestamp_spoofers net (some vps) =
    let spoofers = map (λ ip. or_zero "" (int32_to_ip_string net ip)) vps in
    if ltb 5 (length spoofers) then take 5 spoofers else spoofers
