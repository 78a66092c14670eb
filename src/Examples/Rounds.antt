-- ===== src/Examples/Rounds.antt =====
-- The theorems on the rounds of the runner at concrete inputs.
use reverse_traceroute_publi.Base.{
  ℕ, zero, suc, Holds, runs_on, ◌≡◌, ◌≢◌, ◌≤◌, ◌↔◌, ◌⊎◌, refl, true, false, List, [], ◌∷◌, ◌++◌,
  map, String, some, none, get_or, ◌==◌, if◌then◌else◌, length, pos, fetch, store, Dict, Sat, arith,
}
use reverse_traceroute_publi.Addresses.{IpNet}
use reverse_traceroute_publi.ClusterMap.{Cache}
use reverse_traceroute_publi.Segment.{
  Segment, IntersectHopType, dst_sym_rev, base, last_hop, last_or, is_dst_sym,
}
use reverse_traceroute_publi.ReversePath.{path_last_hop, last_seg}
use reverse_traceroute_publi.Revtr.{Revtr, has_failed, new_reverse_traceroute}
use reverse_traceroute_publi.Runner.Engine.{PingStream, IntersectHop, Options, World, Engine}
use reverse_traceroute_publi.Runner.Tunnel.{next_hops, violates_tunnel, next_hop_loop}
use reverse_traceroute_publi.Runner.Tunnel.Violation.{AllAre, violates_tunnel_iff}
use reverse_traceroute_publi.Runner.Tunnel.Stuck.{IsStuck, next_hop_loop-IsStuck}
use reverse_traceroute_publi.Runner.RecordRoute.{record_route_round}
use reverse_traceroute_publi.Runner.RecordRoute.Progress.{HandsOver, record_route_round-HandsOver}
use reverse_traceroute_publi.Runner.TrToSource.{from_intersection}
use reverse_traceroute_publi.Runner.TrToSource.Suffix.{NoneMet, IsMet, from_intersection-Suffix}
use reverse_traceroute_publi.Revtr.{revtr_last_hop, curr_path}
use reverse_traceroute_publi.Revtr.Probes.{with_adjacents}
use reverse_traceroute_publi.Runner.Slots.{TsServices, Stamping}
use reverse_traceroute_publi.Runner.Timestamp.{timestamp, timestamp_round, unfinished}
use reverse_traceroute_publi.Runner.Timestamp.Ends.{timestamp-ends}
use reverse_traceroute_publi.Runner.Timestamp.HandsOver.{Told, timestamp_round-Told}
use reverse_traceroute_publi.Examples.Sample.{
  own_order, own_order-VisitsAll, own_cluster, as_it_is, as_it_is-Rearranges, sample_net, fresh,
  two_segs, hops_b_c,
}

-- The addresses are told apart by their last byte.
abbrev pub last_byte_text : ℕ → String
last_byte_text ip =
    if ip == 1
    then "1.1.1.1"
    else if ip == 2
    then "2.2.2.2"
    else if ip == 5
    then "5.5.5.5"
    else if ip == 7
    then "7.7.7.7"
    else "0.0.0.4"

abbrev pub text_net : IpNet
text_net = record {
  parse_ip = λ s. some (1 ∷ 2 ∷ 3 ∷ 4 ∷ []);
  to4 = λ ip. some ip;
  ipv4 = λ a b c d. a ∷ b ∷ c ∷ d ∷ [];
  to_string = λ ip. last_byte_text (get_or ip 3 0);
}

abbrev dict_cache : Cache (Dict String)
dict_cache = record { get = fetch; set = store }

-- The first probe is answered with a record of the route that goes on from 5.5.5.5 to 7.7.7.7, the
-- others with one that goes on from there to the source.
abbrev recorded : ℕ → List ℕ
recorded zero = 5 ∷ 7 ∷ []
recorded (suc n) = 7 ∷ 1 ∷ []

abbrev answer_to : ℕ → PingStream
answer_to n = record {
  pings =
      record {
        spoofed_from = 9;
        responses = recorded n ∷ [];
        revtr_measurement_id = pos 5;
        from_cache = false;
      }
      ∷ [];
  is_broken = false;
}

abbrev pub sample_world : World (Dict String)
sample_world = record {
  net = sample_net;
  ip_net = text_net;
  contains = λ cidr s. false;
  visit = own_order;
  visit_rrs = λ rrs. rrs;
  cm = own_cluster;
  sorted = as_it_is;
  rkc = some (λ dst n. some []);
  ca = dict_cache;
  ping = λ n pms. some (answer_to n);
  get_one_vp_per_site = λ i. none;
  shuffle = λ vps. vps;
  intersecting_path = λ addrs. none;
  now = 40;
}

abbrev engine_on : Revtr → Engine (Dict String)
engine_on rt = record {
  rt = rt;
  ranked = [];
  routing = [];
  cache = [];
  pings_asked = 0;
  rr_round_count = 0;
  rr_probes = 0;
  spoofed_rr_probes = pos 0;
  routing_round_count = 0;
  dest_based_rout_rr_probes = 0;
  tr_to_src_round_count = 0;
  tokens = [];
  traceroute_id = pos 0;
  fail_reason = "";
}

abbrev pub no_options : Options
no_options = record {
  use_atlas = false;
  check_tunnel = false;
  use_timestamp = false;
  use_cache = false;
}

-- Three answers go on to the same hop, which is not the known one.
abbrev same_nexts : List (List String)
same_nexts = ("b" ∷ "c" ∷ []) ∷ ("b" ∷ []) ∷ [] ∷ ("b" ∷ "d" ∷ []) ∷ []

violates_tunnel_iff_example : ((violates_tunnel "a" "x" same_nexts []).1 ≡ true) ↔ (
    (only : String) × AllAre only (next_hops same_nexts)
    × (3 ≤ length (next_hops same_nexts))
    × (only ≢ "x"))
violates_tunnel_iff_example = violates_tunnel_iff "a" "x" same_nexts []

-- A hop that was assumed to be symmetric, alone in its segment.
abbrev lone_hop : Segment
lone_hop = dst_sym_rev (record hops_b_c { segment = "5.5.5.5" ∷ [] }) [] 0

abbrev stuck : Revtr
stuck = record fresh {
  paths = record { src = "1.1.1.1"; dst = "2.2.2.2"; path = lone_hop ∷ [] } ∷ [];
}

stuck-IsStuck : IsStuck stuck
unfolding has_failed path_last_hop last_seg last_hop is_dst_sym fetch last_or base
    new_reverse_traceroute
stuck-IsStuck = record {
  current = record { src = "1.1.1.1"; dst = "2.2.2.2"; path = lone_hop ∷ [] };
  below = [];
  s = lone_hop;
  test = "5.5.5.5";
  on_top = refl;
  last = refl;
  stands_at = refl;
  alone = refl;
  symmetric = refl;
  unknown = refl;
  lives = refl;
}

next_hop_loop-IsStuck_example : next_hop_loop sample_world 100 (engine_on stuck) ≡ runs_on
next_hop_loop-IsStuck_example =
    next_hop_loop-IsStuck sample_world 100 (engine_on stuck) stuck-IsStuck

record_route_round-HandsOver_example :
    Holds ⊥
      (HandsOver no_options two_segs.paths)
      (record_route_round sample_world no_options 3 (engine_on two_segs))
record_route_round-HandsOver_example =
    record_route_round-HandsOver sample_world no_options own_order-VisitsAll as_it_is-Rearranges 3
      (engine_on two_segs) refl

abbrev met_hops : List IntersectHop
met_hops =
    record { hop_ip = 1; intersect_hop_type = IntersectHopType.between }
    ∷ record { hop_ip = 2; intersect_hop_type = IntersectHopType.exact }
    ∷ record { hop_ip = 4; intersect_hop_type = IntersectHopType.between }
    ∷ []

from_intersection-Suffix_example :
    (before : List IntersectHop) × (kept : List IntersectHop) × (met_hops ≡ before ++ kept)
    × NoneMet last_byte_text own_cluster "2.2.2.2" before
    × ((kept ≡ [])
        ⊎ ((h : IntersectHop) × (rest : List IntersectHop) × (kept ≡ h ∷ rest)
            × IsMet last_byte_text own_cluster "2.2.2.2" h))
    × (from_intersection last_byte_text own_cluster "2.2.2.2" false met_hops
        ≡ (map (λ h. last_byte_text h.hop_ip) kept, map (λ h. h.intersect_hop_type) kept))
from_intersection-Suffix_example =
    from_intersection-Suffix last_byte_text own_cluster "2.2.2.2" met_hops

-- Two neighbours of each hop are known, and every probe is answered with two stamps,
-- of which the second is of 7.7.7.7.
abbrev pub ts_services : TsServices
ts_services = record {
  ts_ping = λ n ms.
      record {
        ts_src = 1;
        ts_dst = 5;
        ts_spoofed_from = 0;
        stamps = (record { stamp_ip = 5; ts = 10 } ∷ record { stamp_ip = 7; ts = 20 } ∷ []) ∷ [];
        ts_measurement_id = pos 3;
        ts_from_cache = false;
      }
      ∷ [];
  get_ts_spoofers = λ n. some (9 ∷ []);
  adjacencies = λ hop src. some ("7.7.7.7" ∷ "8.8.8.8" ∷ []);
  visit_probes = λ ps. ps;
  visit_receivers = λ rs. rs;
  visit_checks = λ cs. cs;
}

abbrev pub stamping : Stamping (Dict String)
stamping = record {
  e = engine_on two_segs;
  stamps_zero = [];
  send_spoofed = [];
  ts_round_count = 0;
  ts_probes = 0;
  spoofed_ts_probes = 0;
  ts_pings_asked = 0;
  ts_spoofers_asked = 0;
  to_spoof = [];
  rev_hops = [];
  linux_bugs = [];
  does_not_stamp = [];
  to_verify = [];
}

timestamp-ends_example : timestamp sample_world ts_services no_options 3 stamping ≢ unfinished
unfolding revtr_last_hop curr_path path_last_hop last_seg last_hop last_or base with_adjacents fetch
    store new_reverse_traceroute
timestamp-ends_example =
    timestamp-ends sample_world ts_services no_options "5.5.5.5" 3 stamping refl (omega arith)

timestamp_round-Told_example :
    Sat
      (Told two_segs.paths)
      (timestamp_round sample_world ts_services no_options "5.5.5.5" stamping)
timestamp_round-Told_example =
    timestamp_round-Told sample_world ts_services no_options own_order-VisitsAll as_it_is-Rearranges
      "5.5.5.5" stamping
