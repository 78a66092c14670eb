-- ===== src/Examples/Stack.antt =====
-- The theorems on the stack of paths and on the vantage points at concrete inputs.
use reverse_traceroute_publi.Base.{
  true, false, ◌⊎◌, none, List, String, ◌≡◌, refl, Bool, [], ◌∷◌, some, store, fetch, str_eq,
  if◌then◌else◌, arith, inr,
}
use reverse_traceroute_publi.StringUtil.{in_array}
use reverse_traceroute_publi.Segment.{dst_rev, type_of, rr_rev, base, last_hop}
use reverse_traceroute_publi.ReversePath.{
  ReversePath, add, path_hops, segs_of, append_segs, append_hops, last_seg, path_last_hop,
}
use reverse_traceroute_publi.Revtr.{
  is_dead_end, Revtr, new_reverse_traceroute, curr_path, revtr_last_hop, revtr_failed, has_failed,
}
use reverse_traceroute_publi.Revtr.Add.{add_and_replace_segment, add_segments}
use reverse_traceroute_publi.Revtr.Add.Replace.{add_and_replace_segment_cases}
use reverse_traceroute_publi.Revtr.Add.Stack.{Growth, Tells, add_segments-Growth}
use reverse_traceroute_publi.Revtr.Add.LoopFree.{AllNoLoop, add_segments-NoLoop}
use reverse_traceroute_publi.Revtr.Fail.{fail_curr_path, fail_curr_path-Popped, Popped}
use reverse_traceroute_publi.Revtr.Probes.{vps_left, next_vps, find_target}
use reverse_traceroute_publi.Revtr.Probes.Vps.{HandsOut, next_vps-HandsOut}
use reverse_traceroute_publi.Revtr.Probes.Target.{FindsTarget, find_target-FindsTarget}
use reverse_traceroute_publi.Addresses.{IpNet}
use reverse_traceroute_publi.Revtr.Storable.{RevtrHop, HopInfo, type_of_hop, storable_path}
use reverse_traceroute_publi.Revtr.Storable.Distinct.{names, Distinct, storable_path-Distinct}
use reverse_traceroute_publi.Examples.Sample.{
  seg_new, dst_hop, own_order, own_order-VisitsAll, own_cluster, as_it_is, as_it_is-Rearranges,
  hops_b_c, path_b, vp_1, vp_2, two_segs, new_segs, new_segs-Fine, with_vps,
}

added_run :
    (rt' : Revtr) × (added : Bool) × (add_segments own_order own_cluster as_it_is new_segs two_segs
      ≡ some (rt', added))
    × Growth path_b new_segs two_segs rt'
    × Tells two_segs.paths rt'.paths added
added_run =
    add_segments-Growth own_order own_cluster as_it_is new_segs two_segs path_b own_order-VisitsAll
      as_it_is-Rearranges (λ s m. (new_segs-Fine s m).0) (unfold curr_path in refl)

path_b-NoLoop : AllNoLoop (path_b ∷ [])
unfolding path_hops segs_of append_segs append_hops base in_array
path_b-NoLoop = ((inr refl, (inr refl, (inr refl, (inr refl, tt)))), tt)

add_segments-NoLoop_example : AllNoLoop added_run.0.paths
add_segments-NoLoop_example =
    add_segments-NoLoop own_order own_cluster as_it_is new_segs two_segs added_run.0 path_b
      added_run.1 own_order-VisitsAll as_it_is-Rearranges new_segs-Fine (unfold curr_path in refl)
      path_b-NoLoop added_run.2

add_segments-Growth_example :
    (rt' : Revtr) × (added : Bool) × (add_segments own_order own_cluster as_it_is new_segs two_segs
      ≡ some (rt', added))
    × Growth path_b new_segs two_segs rt'
    × Tells two_segs.paths rt'.paths added
add_segments-Growth_example =
    add_segments-Growth own_order own_cluster as_it_is new_segs two_segs path_b own_order-VisitsAll
      as_it_is-Rearranges (λ s m. (new_segs-Fine s m).0) (unfold curr_path in refl)

fail_curr_path-Popped_example :
    (rt' : Revtr) × (fail_curr_path 3 two_segs ≡ some rt')
    × Popped (store two_segs.dead_end "5.5.5.5" true) two_segs.paths rt'
unfolding revtr_last_hop last_seg path_last_hop last_hop base new_reverse_traceroute
fail_curr_path-Popped_example =
    fail_curr_path-Popped 3 two_segs "5.5.5.5" ((rr_rev hops_b_c, refl), tt) refl

next_vps-HandsOut_example :
    let next = next_vps "5.5.5.5" with_vps in
    (vps_left next.0 "6.6.6.6" ≡ (
      if str_eq "5.5.5.5" "6.6.6.6"
      then vps_left next.0 "5.5.5.5"
      else vps_left with_vps "6.6.6.6"))
    × HandsOut [] 5 (vp_1 ∷ vp_2 ∷ []) (vps_left next.0 "5.5.5.5") next.1
unfolding fetch new_reverse_traceroute
next_vps-HandsOut_example =
    next_vps-HandsOut "5.5.5.5" "6.6.6.6" with_vps vp_1 (vp_2 ∷ []) 5 refl refl (omega arith)

find_target-FindsTarget_example :
    FindsTarget with_vps
      ("6.6.6.6" ∷ "5.5.5.5" ∷ [])
      (find_target with_vps ("6.6.6.6" ∷ "5.5.5.5" ∷ []))
find_target-FindsTarget_example = find_target-FindsTarget with_vps ("6.6.6.6" ∷ "5.5.5.5" ∷ [])

abbrev no_info : HopInfo
no_info = record { destination_based_routing_by_hop = []; rtt_by_hop = λ ip. none }

abbrev no_net : IpNet
no_net = record {
  parse_ip = λ s. none;
  to4 = λ ip. none;
  ipv4 = λ a b c d. [];
  to_string = λ ip. "";
}

storable_path-Distinct_example :
    (path : List RevtrHop) × (storable_path no_net no_info 3 "" two_segs ≡ some path)
    × Distinct (names path)
    × ((h : String) → in_array (names path) h ≡ in_array (path_hops path_b) h)
unfolding base type_of type_of_hop revtr_failed has_failed new_reverse_traceroute curr_path
storable_path-Distinct_example =
    storable_path-Distinct no_net no_info 3 two_segs path_b refl refl
      (((1, refl), tt), (((5, refl), ((5, refl), ((5, refl), tt))), tt))

-- The current path, without its last segment.
abbrev path_a : ReversePath
path_a = record path_b { path = dst_rev dst_hop ∷ [] }

add_and_replace_segment_cases_example :
    (is_dead_end two_segs (last_hop (base seg_new)) ≡ true)
      × (add_and_replace_segment seg_new two_segs ≡ some (two_segs, false))
    ⊎ (is_dead_end two_segs (last_hop (base seg_new)) ≡ false)
      × ((rt' : Revtr) × (add_and_replace_segment seg_new two_segs ≡ some (rt', true))
          × (rt'.paths ≡ add path_a seg_new ∷ two_segs.paths)
          × (rt'.dead_end ≡ two_segs.dead_end))
unfolding curr_path add
add_and_replace_segment_cases_example =
    add_and_replace_segment_cases seg_new (rr_rev hops_b_c) two_segs path_a refl
