-- ===== src/Revtr/Probes.antt =====
-- Which probes come next, in revtr/reverse_traceroute/revese_traceroute.go: `InitializeRRVPs`,
-- `GetRRVPs`, `InitializeTSAdjacents` and `GetTSAdjacents`.
--
-- The ranking service is the argument `rkc`, which is `none` for a nil client; its
-- `GetRRSpoofers` may fail. The adjacencies of a hop come from the argument `adjacencies`, which
-- `get_adjacencies` of Adjacency implements. `none` is a panic.
pub mod Vps
pub mod Target
pub mod Adjacents
use reverse_traceroute_publi.Base.{
  ℕ, zero, suc, ◌+◌, Bool, true, false, not, ◌&&◌, ◌||◌, List, [], ◌∷◌, ◌++◌, map, reverse, String,
  str_eq, Option, none, some, ◌>>=◌, length, take, drop, ltb, leb, ◌==◌, if◌then◌else◌, ℤ, pos,
  negsuc, ltb_ℤ, eqb_ℤ, Dict, fetch, store, or_zero,
}
use reverse_traceroute_publi.StringUtil.{in_array, non_spoofed, clone_string_slice}
use reverse_traceroute_publi.Segment.{hops, zero_ip}
use reverse_traceroute_publi.ReversePath.{last_seg}
use reverse_traceroute_publi.Revtr.{Revtr, Source, curr_path, rr_vps_initialized_for_hop}

-- `RateLimit`, `maxUnresponsive` and `MAX_INGRESS_VPS`.
abbrev pub rate_limit : ℕ
rate_limit = 5

abbrev pub max_unresponsive : ℕ
max_unresponsive = 10

abbrev pub max_ingress_vps : ℕ
max_ingress_vps = 5

abbrev pub Ranking : Type 0
Ranking = Option (String → ℕ → Option (List Source))

-- The loop of `InitializeRRVPs` over the spoofers, on the two maps of the hop.
unfoldable pub note_vps : List Source → Dict ℕ × Dict String → Dict ℕ × Dict String
note_vps [] maps = maps
note_vps (vp ∷ vps) (failed, ingress) =
    note_vps vps (store failed vp.ingress 0, store ingress vp.ip vp.ingress)

abbrev pub unspoofed_source : Source
unspoofed_source = record { ip = non_spoofed; ingress = "" }

-- `InitializeRRVPs`: the rate limit is set first, whatever becomes of the rest. The answer of the
-- source, an error, is dropped by its caller.
abbrev pub answered : Ranking → String → ℕ → Option (List Source)
answered none cls n = none
answered (some get_rr_spoofers) cls n = get_rr_spoofers cls n

unfoldable pub set_spoofers : String → Option (List Source) → Revtr → Revtr
set_spoofers cls none rt = rt
set_spoofers cls (some vps) rt =
    let maps = note_vps vps ([], []) in
    record rt {
      failed_ingress = store rt.failed_ingress cls maps.0;
      rr_hop_vps_ingress = store rt.rr_hop_vps_ingress cls maps.1;
      rr_hop_vps_left = store rt.rr_hop_vps_left cls (unspoofed_source ∷ vps);
    }

unfoldable pub initialize_rr_vps : Ranking → String → Revtr → Revtr
unfolding note_vps set_spoofers
initialize_rr_vps rkc cls rt =
    set_spoofers cls (answered rkc cls rt.max_spoofers)
      (record rt { rr_hop_rate_limit = store rt.rr_hop_rate_limit cls rate_limit })

unfoldable pub initialize_hops : Ranking → List String → Revtr → Revtr
initialize_hops rkc [] rt = rt
initialize_hops rkc (hop ∷ seg) rt =
    initialize_hops rkc seg
      (if not (rr_vps_initialized_for_hop rt hop) then initialize_rr_vps rkc hop rt else rt)

abbrev pub vps_left : Revtr → String → List Source
vps_left rt hop = or_zero [] (fetch rt.rr_hop_vps_left hop)

-- The hop did not answer ten probes or more, and was not marked responsive.
unfoldable pub seems_unresponsive : Revtr → String → Bool
seems_unresponsive rt hop =
    let n = or_zero (pos 0) (fetch rt.rr_spoof_rr_responsive hop) in
    not (eqb_ℤ n (negsuc 0)) && not (ltb_ℤ n (pos max_unresponsive))

-- The loop that takes hops off the end of the segment: the list is that of the hops left, from the
-- last to the first.
unfoldable pub find_target : Revtr → List String → Option String
find_target rt [] = none
find_target rt (target ∷ seg) =
    if seems_unresponsive rt target || length (vps_left rt target) == 0
    then find_target rt seg
    else some target

-- The ingress failed five times. (0.0.0.0 stands for a VP of the global ranking.)
unfoldable pub has_failed_ingress : Dict ℕ → Source → Bool
has_failed_ingress failed vp = elim (fetch failed vp.ingress) [
  | none ↦ false
  | some n ↦ leb max_ingress_vps n && not (str_eq vp.ingress zero_ip)
]

-- The loop that chooses the VPs: `i` of them looked at, and those to use.
unfoldable pub choose_vps : Dict ℕ → ℕ → ℕ → List String → List Source → ℕ × List String
choose_vps failed min i touse [] = (i, touse)
choose_vps failed min i touse (vp ∷ vps) =
    let skipped = choose_vps failed min (suc i) touse vps in
    let used = touse ++ (vp.ip ∷ []) in
    let go_on = choose_vps failed min (suc i) used vps in
    if has_failed_ingress failed vp
    then skipped
    else if length used == min
    then (suc i, used)
    else go_on

abbrev pub batch_size : ℕ → List Source → ℕ
batch_size rate left = if ltb (length left) rate then length left else rate

-- The VPs to probe `target` from, of those `left`: the target itself first, then a batch of
-- spoofers.
abbrev pub drop_vps : ℕ → String → Revtr → List Source → Revtr
drop_vps i target rt left = record rt {
  rr_hop_vps_left = store rt.rr_hop_vps_left target (drop i left);
}

unfoldable pub vps_of : String → Revtr → List Source → Revtr × List String
vps_of target rt left =
    let min = batch_size (or_zero 0 (fetch rt.rr_hop_rate_limit target)) left in
    let chosen = choose_vps (or_zero [] (fetch rt.failed_ingress target)) min 0 [] left in
    if in_array (map (λ vp. vp.ip) left) non_spoofed
    then (drop_vps 1 target rt left, non_spoofed ∷ [])
    else (drop_vps chosen.0 target rt left, chosen.1)

unfoldable pub next_vps : String → Revtr → Revtr × List String
unfolding vps_of
next_vps target rt = vps_of target rt (vps_left rt target)

-- `GetRRVPs` once the hops are initialized: the VPs and the target, or "" with none.
abbrev pub probe_target : Option String → Revtr → Revtr × List String × String
probe_target none rt = (rt, [], "")
probe_target (some target) rt = let (rt', touse) = next_vps target rt in (rt', touse, target)

unfoldable pub get_rr_vps : Ranking → Revtr → Option (Revtr × List String × String)
unfolding find_target
get_rr_vps rkc rt = do
  p ← curr_path rt
  s ← last_seg p
  let ready = initialize_hops rkc (hops s) rt
  some (probe_target (find_target ready (reverse (clone_string_slice (hops s)))) ready)

-- `InitializeTSAdjacents`, whose error `GetTSAdjacents` only logs, and `GetTSAdjacents`. `none` from
-- `adjacencies` is that error.
abbrev pub set_adjacents : String → Option (List String) → Revtr → Revtr
set_adjacents hop none rt = rt
set_adjacents hop (some adjs) rt = record rt {
  ts_hop_adjs_left = store rt.ts_hop_adjs_left hop adjs;
}

unfoldable pub with_adjacents : (String → String → Option (List String)) → String → Revtr → Revtr
with_adjacents adjacencies hop rt = elim (fetch rt.ts_hop_adjs_left hop) [
  | none ↦ set_adjacents hop (adjacencies hop rt.src) rt
  | some _ ↦ rt
]

unfoldable pub next_adjacents : String → Revtr → Revtr × List String
next_adjacents hop rt =
    let left = or_zero [] (fetch rt.ts_hop_adjs_left hop) in
    let rate = or_zero 1 (fetch rt.ts_hop_rate_limit hop) in
    let min = if ltb (length left) rate then length left else rate in
    if length left == 0 then (rt, []) else (
      record rt { ts_hop_adjs_left = store rt.ts_hop_adjs_left hop (drop min left) },
      take min left,
    )

unfoldable pub get_ts_adjacents :
    (String → String → Option (List String)) → String → Revtr → Revtr × List String
unfolding with_adjacents next_adjacents
get_ts_adjacents adjacencies hop rt = next_adjacents hop (with_adjacents adjacencies hop rt)
