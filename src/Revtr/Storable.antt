-- ===== src/Revtr/Storable.antt =====
-- The path in `ToStorable` of revtr/reverse_traceroute/revese_traceroute.go: the hops that are shown
-- to the user, with how each was found. The other fields of the message are copies of the state's.
--
-- The maps that only this method reads are in `HopInfo`; `none` is a panic.
pub mod Distinct
use reverse_traceroute_publi.Base.{
  ℕ, zero, suc, ◌+◌, Bool, true, false, not, ◌&&◌, List, [], ◌∷◌, ◌++◌, String, str_eq, Option,
  none, some, ◌>>=◌, get_elem?, if◌then◌else◌, ℤ, pos, Dict, fetch, or_zero,
}
use reverse_traceroute_publi.StringUtil.{StringMap, map_set, map_has}
use reverse_traceroute_publi.Segment.{
  Segment, RevSegment, IntersectHopType, between, exact, unknown, base, hops, type_of,
  tr_to_src_rev,
}
use reverse_traceroute_publi.Addresses.{IpNet, ip_string_to_int32}
use reverse_traceroute_publi.Revtr.{Revtr, curr_path, revtr_failed}

-- `RTTMeasurement`.
pub record RttMeasurement : Type 0 where
  pub rtt : ℕ
  pub rtt_id : ℤ

-- `DestinationBasedRoutingByHop` and `RTTByHop`.
pub record HopInfo : Type 0 where
  pub destination_based_routing_by_hop : Dict ℕ
  pub rtt_by_hop : ℕ → Option RttMeasurement

-- `pb.RevtrHop`, its enumerations by their numbers.
pub record RevtrHop : Type 0 where
  pub name : String
  pub hop_type : ℕ
  pub dest_based_routing_type : ℕ
  pub measurement_id : ℤ
  pub from_cache : Bool
  pub rtt : ℕ
  pub rtt_measurement_id : ℤ

-- The type of hop `i` of an intersected traceroute.
abbrev pub intersect_type : IntersectHopType → Option ℕ
intersect_type between = some 4
intersect_type exact = some 3
intersect_type unknown = none

unfoldable pub type_of_hop : Segment → ℕ → Option ℕ
type_of_hop (tr_to_src_rev rv types) i = get_elem? types i >>= intersect_type
type_of_hop s i = some (type_of s)

abbrev pub no_rtt : RttMeasurement
no_rtt = record { rtt = 0; rtt_id = pos 0 }

unfoldable pub revtr_hop : IpNet → HopInfo → Segment → String → ℕ → RevtrHop
revtr_hop net info s hi ty =
    let rtt_infos = or_zero no_rtt (info.rtt_by_hop (or_zero 0 (ip_string_to_int32 net hi))) in
    record {
      name = hi;
      hop_type = ty;
      dest_based_routing_type = or_zero 0 (fetch info.destination_based_routing_by_hop hi);
      measurement_id = (base s).measurement_id;
      from_cache = (base s).is_from_cache;
      rtt = rtt_infos.rtt;
      rtt_measurement_id = rtt_infos.rtt_id;
    }

module _ (net : IpNet) (info : HopInfo) where
  -- The loop over the hops of a segment, from hop `i` on: those not seen yet are appended.
  unfoldable pub store_hops :
      Segment → ℕ → List String → StringMap → List RevtrHop → Option (StringMap × List RevtrHop)
  store_hops s i [] seen path = some (seen, path)
  store_hops s i (hi ∷ seg) seen path =
      let skipped = store_hops s (suc i) seg seen path in
      let added : ℕ → Option (StringMap × List RevtrHop) = λ ty.
        store_hops s (suc i) seg (map_set hi true seen)
          (path ++ (revtr_hop net info s hi ty ∷ [])) in
      if map_has hi seen then skipped else type_of_hop s i >>= added

  unfoldable pub store_segments : List Segment → StringMap → List RevtrHop → Option (List RevtrHop)
  unfolding store_hops
  store_segments [] seen path = some path
  store_segments (s ∷ segs) seen path =
      store_hops s 0 (hops s) seen path >>= λ next. store_segments segs next.0 next.1

  -- The path is left empty for a traceroute that has failed, or has a reason to.
  unfoldable pub storable_path : ℕ → String → Revtr → Option (List RevtrHop)
  unfolding store_segments
  storable_path now fail_reason rt =
      let shown : Option (List RevtrHop) = curr_path rt >>= λ p. store_segments p.path [] [] in
      if not (revtr_failed now rt).1 && str_eq fail_reason "" then shown else some []
