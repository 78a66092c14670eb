-- ===== src/Runner/ProcessRr.antt =====
-- `processRR`, `stringSliceRIndex` and `updateIngress` of revtr/runner/revtr_runner.go: the reverse
-- hops in an answer to a record route probe.
pub mod Loops
pub mod Clean
use reverse_traceroute_publi.Base.{
  ℕ, zero, suc, ◌+◌, ◌-◌, Bool, true, false, not, List, [], ◌∷◌, map, String, str_eq, Option, none,
  some, ◌>>=◌, length, get_elem?, get_or, drop, leb, ◌==◌, if◌then◌else◌, ℤ, pos, negsuc, Dict,
  fetch, store, or_zero,
}
use reverse_traceroute_publi.StringUtil.{non_spoofed}
use reverse_traceroute_publi.Addresses.{IpNet, int32_to_ip_string}
use reverse_traceroute_publi.Revtr.{Revtr}

-- `stringSliceRIndex`.
unfoldable pub last_index_loop : String → ℕ → ℤ → List String → ℤ
last_index_loop s i rindex [] = rindex
last_index_loop s i rindex (sss ∷ ss) =
    last_index_loop s (suc i) (if str_eq sss s then pos i else rindex) ss

unfoldable pub string_slice_r_index : List String → String → ℤ
unfolding last_index_loop
string_slice_r_index ss s = last_index_loop s 0 (negsuc 0) ss

-- `util.Int32ToIPString` with its error dropped.
abbrev pub hop_text : IpNet → ℕ → String
hop_text net hop = or_zero "" (int32_to_ip_string net hop)

-- The loop of `updateIngress`, which breaks at the predicted ingress: whether it is there, and the
-- last hop before it that is an ingress.
unfoldable pub scan_ingress : Dict ℕ → String → String → List String → Bool × String
scan_ingress failed predicted found [] = (false, found)
scan_ingress failed predicted found (hop ∷ hops) =
    let rest =
      scan_ingress failed predicted (elim (fetch failed hop) [ none ↦ found | some _ ↦ hop ])
        hops in
    if str_eq hop predicted then (true, found) else rest

-- `m[key]++`.
abbrev pub increment : Dict ℕ → String → Dict ℕ
increment m key = store m key (suc (or_zero 0 (fetch m key)))

-- What `updateIngress` does with the failures of `dst`.
unfoldable pub count_failures : String → List String → Dict ℕ → Dict ℕ
unfolding scan_ingress
count_failures predicted hops failed =
    let scanned = scan_ingress failed predicted "" hops in
    if scanned.0
    then increment failed predicted
    else if str_eq scanned.1 ""
    then increment failed predicted
    else increment (increment failed predicted) scanned.1

-- `updateIngress`. Where `dst` has no map, the increment panics.
unfoldable pub update_ingress : String → String → List String → Revtr → Option Revtr
unfolding count_failures
update_ingress predicted dst hops rt = do
  failed ← fetch rt.failed_ingress dst
  some (record rt {
    failed_ingress = store rt.failed_ingress dst (count_failures predicted hops failed);
  })

-- `revtr.RRHop2VPSIngress[dst][spoofer]`.
abbrev pub predicted_ingress : Revtr → String → String → String
predicted_ingress rt dst spoofer =
    or_zero "" (fetch (or_zero [] (fetch rt.rr_hop_vps_ingress dst)) spoofer)

-- The search for the destination's cluster, below the index `i`.
unfoldable pub find_cluster_below : (String → String) → String → List String → ℕ → Option ℕ
find_cluster_below cm dstcls hopss zero = none
find_cluster_below cm dstcls hopss (suc i) =
    let rest = find_cluster_below cm dstcls hopss i in
    if str_eq dstcls (cm (get_or hopss i "")) then some i else rest

-- The loop that removes loops between clusters, on fuel; an index out of range is `none` too.
unfoldable pub skip_loops : ℕ → List String → List String → ℕ → Option (List String)
unfolding string_slice_r_index
skip_loops zero clusters hopss curr_index = none
skip_loops (suc fuel) clusters hopss curr_index = elim (get_elem? clusters curr_index) [
  | none ↦ some []
  | some cluster ↦ elim (string_slice_r_index clusters cluster) [
    | negsuc _ ↦ skip_loops fuel clusters hopss curr_index
    | pos ri ↦
        if leb curr_index ri
        then (do
          hop ← get_elem? hopss ri
          ret_hops ← skip_loops fuel clusters hopss (suc ri)
          some (hop ∷ ret_hops))
        else skip_loops fuel clusters hopss curr_index
  ]
]

-- The end of `processRR`, where the destination's cluster was found at `i`.
unfoldable pub hops_behind : (String → String) → Bool → List String → ℕ → Option (List String)
unfolding skip_loops
hops_behind cm remove_loops hopss i =
    let behind = if suc i == length hopss then [] else drop (suc i) hopss in
    if remove_loops then skip_loops (suc (length behind)) (map cm behind) behind 0 else some behind

-- No reverse hop: the ingress of a spoofer is counted as failed.
unfoldable pub no_hops : String → String → List String → Revtr → Option (Revtr × List String)
unfolding update_ingress
no_hops dst spoofer hopss rt = if str_eq spoofer non_spoofed then some (rt, []) else do
  counted ← update_ingress (predicted_ingress rt dst spoofer) dst hopss rt
  some (counted, [])

-- `processRR` on the texts of the hops.
unfoldable pub process_texts :
    (String → String) → String → String → Bool → List String → Revtr → Option (Revtr × List String)
unfolding find_cluster_below hops_behind no_hops
process_texts cm dst spoofer remove_loops hopss rt =
    if length hopss == 0
    then some (rt, [])
    else if str_eq (cm (get_or hopss (length hopss - 1) "")) (cm dst)
    then no_hops dst spoofer hopss rt
    else elim (find_cluster_below cm (cm dst) hopss (length hopss - 1)) [
      | none ↦ no_hops dst spoofer hopss rt
      | some i ↦ hops_behind cm remove_loops hopss i >>= λ hops. some (rt, hops)
    ]

-- `processRR`.
unfoldable pub process_rr :
    (String → String)
    → IpNet
    → String
    → String
    → Bool
    → List ℕ
    → Revtr
    → Option (Revtr × List String)
unfolding process_texts
process_rr cm net dst spoofer remove_loops hops rt =
    process_texts cm dst spoofer remove_loops (map (hop_text net) hops) rt
