-- ===== src/Runner/Tunnel.antt =====
-- `violatesTunnelDestinationBasedRouting` and `nextHopLastHop` of revtr/runner/revtr_runner.go:
-- whether the routing at a hop depends on the destination alone. `none` is a panic; `panics` is one in
-- the loop of `nextHopLastHop`, which has no bound.
pub mod Violation
pub mod Stuck
use reverse_traceroute_publi.Base.{
  ℕ, zero, suc, ◌+◌, Bool, true, false, not, List, [], ◌∷◌, reverse, String, str_eq, Option, none,
  some, ◌>>=◌, ◌>>>◌, Result, runs_on, gives, of_option, length, get_elem?, take, ltb, ◌==◌,
  if◌then◌else◌, ℤ, Dict, NatDict, fetch, store,
}
use reverse_traceroute_publi.Segment.{hops}
use reverse_traceroute_publi.Segment.Create.{new_rr_rev_segment, new_spoof_rr_rev_segment}
use reverse_traceroute_publi.ReversePath.{path_last_hop, last_seg}
use reverse_traceroute_publi.Revtr.{Revtr, curr_path}
use reverse_traceroute_publi.Revtr.Probes.{Ranking}
use reverse_traceroute_publi.Revtr.Fail.{fail_curr_path}
use reverse_traceroute_publi.Revtr.Spoofers.{get_rr_vps_no_update}
use reverse_traceroute_publi.Runner.Engine.{
  RrHops, SpoofRrHops, RoutingViolation, no_violation, tunnel, World, Engine,
}
use reverse_traceroute_publi.Runner.Issue.{issue_rr, issue_spoofed_rr}

-- The first loop of `violatesTunnelDestinationBasedRouting`: `nextHopTunnel`, and the set.
unfoldable pub next_hops : List (List String) → List String
next_hops [] = []
next_hops ([] ∷ segs) = next_hops segs
next_hops ((hop ∷ seg) ∷ segs) = hop ∷ next_hops segs

unfoldable pub set_of : Dict Bool → List String → Dict Bool
unfolding store
set_of set [] = set
set_of set (hop ∷ hops) = set_of (store set hop true) hops

-- The rest: the map of violations, and the answer. The set has one element at the end.
abbrev pub judge_hops :
    String → String → Dict Bool → Dict RoutingViolation → Dict RoutingViolation × Bool
judge_hops hop next_hop [] routing = (routing, false)
judge_hops hop next_hop ((only, _) ∷ []) routing =
    if not (str_eq only next_hop) then (store routing hop tunnel, true) else (routing, false)
judge_hops hop next_hop (a ∷ b ∷ set) routing = (store routing hop no_violation, false)

unfoldable pub violates_tunnel :
    String → String → List (List String) → Dict RoutingViolation → Dict RoutingViolation × Bool
unfolding next_hops set_of
violates_tunnel hop next_hop segs routing =
    let nexts = next_hops segs in
    if ltb (length nexts) 3
    then (routing, false)
    else judge_hops hop next_hop (set_of [] nexts) routing

-- `util.Find`.
unfoldable pub find : List String → String → Option ℕ
find [] val = none
find (item ∷ slice) val = if str_eq item val then some 0 else find slice val >>= λ i. some (suc i)

abbrev pub is_tunnel : Option RoutingViolation → Bool
is_tunnel none = false
is_tunnel (some tunnel) = true
is_tunnel (some _) = false

-- The hops that are helpful to prove that the routing at `test` depends on the destination alone.
unfoldable pub helpful_hops : Dict RoutingViolation → String → List String → List String
helpful_hops routing test [] = []
helpful_hops routing test (hop ∷ seg) =
    let rest = helpful_hops routing test seg in
    if str_eq hop test then rest else if is_tunnel (fetch routing hop) then rest else hop ∷ rest

-- How a hop serves to find the next hop of the tested one.
pub data Search : Type 0 where
  reveals reveals_nothing breaks_off : Search

abbrev pub no_rr_hops : RrHops
no_rr_hops = record { rr_hops = []; rr_measurement_id = ℤ.pos 0; rr_from_cache = false }

abbrev pub rr_or_none : Option RrHops → RrHops
rr_or_none none = no_rr_hops
rr_or_none (some rr) = rr

-- `vps[:5]`: fewer than five spoofers have no room for five either.
unfoldable pub first_five : List String → Option (List String)
first_five vps = if ltb (length vps) 5 then none else some (take 5 vps)

-- `rkc.GetRRSpoofers(dst, 250, ...)`, which panics on a nil client.
unfoldable pub rank_250 : Ranking → String → Option (Option (List String))
rank_250 none dst = none
rank_250 (some get_rr_spoofers) dst = some (get_rr_vps_no_update (get_rr_spoofers dst 250))

module _ {C : Type 0} (w : World C) where
  -- `NextHopsegmentsbyHop[test] = ...`, of the hops of the probe that was not spoofed.
  abbrev pub note_rr : String → String → RrHops → Engine C → Engine C
  note_rr test hop rr e = record e {
    rt = record e.rt {
      next_hop_segments_by_hop =
          store e.rt.next_hop_segments_by_hop test (
            new_rr_rev_segment w.net rr.rr_hops e.rt.src hop rr.rr_measurement_id rr.rr_from_cache);
    };
  }

  abbrev pub note_spoofed : String → String → RrHops → String → Engine C → Engine C
  note_spoofed test hop rr vp e = record e {
    rt = record e.rt {
      next_hop_segments_by_hop = store e.rt.next_hop_segments_by_hop test (
          new_spoof_rr_rev_segment w.net rr.rr_hops e.rt.src hop vp rr.rr_measurement_id
            rr.rr_from_cache);
    };
  }

  -- The loop over the spoofed answers, which looks into the answer that was not spoofed.
  unfoldable pub spoofed_next :
      String → String → RrHops → NatDict SpoofRrHops → Bool → Engine C → Option (Engine C × Bool)
  unfolding find
  spoofed_next test hop rr [] found e = some (e, found)
  spoofed_next test hop rr ((from, spoofed) ∷ answers) found e = elim (find rr.rr_hops test) [
    | none ↦ spoofed_next test hop rr answers found e
    | some i ↦ elim (ltb i (length rr.rr_hops)) [
      | false ↦ spoofed_next test hop rr answers found e
      | true ↦ get_elem? spoofed.rr.rr_hops (suc i) >>= λ next.
          spoofed_next test hop rr answers true (note_spoofed test hop rr spoofed.vp e)
    ]
  ]

  unfoldable pub search_spoofed :
      String
      → String
      → RrHops
      → Engine C × Option (NatDict SpoofRrHops)
      → Option (Engine C × Search)
  unfolding spoofed_next
  search_spoofed test hop rr (e, none) = some (e, breaks_off)
  search_spoofed test hop rr (e, some answers) =
      spoofed_next test hop rr (w.visit_rrs answers) false
        (record e { dest_based_rout_rr_probes = e.dest_based_rout_rr_probes + 5 })
      >>= λ looked. some (looked.0, if looked.1 then reveals else reveals_nothing)

  unfoldable pub try_spoofers :
      String → String → RrHops → Option (List String) → Engine C → Option (Engine C × Search)
  unfolding search_spoofed first_five issue_spoofed_rr
  try_spoofers test hop rr none e = some (e, breaks_off)
  try_spoofers test hop rr (some vps) e =
      if length vps == 0
      then some (e, reveals_nothing)
      else first_five vps >>= λ five.
          issue_spoofed_rr w e.rt.src hop five true e >>= search_spoofed test hop rr

  -- A hop of the loop: a probe of its own, and spoofed ones where that does not show `test`.
  unfoldable pub try_hop : String → String → Engine C → Option (Engine C × Search)
  unfolding find try_spoofers issue_rr rank_250
  try_hop test hop e = do
    asked ← issue_rr w e.rt.src hop true e
    let rr = rr_or_none asked.1
    let counted : Engine C = record asked.0 {
      dest_based_rout_rr_probes = asked.0.dest_based_rout_rr_probes + 1;
    }
    let spoofed = rank_250 w.rkc hop >>= λ vps. try_spoofers test hop rr vps counted
    elim (find rr.rr_hops test) [
      | none ↦ spoofed
      | some i ↦ elim (ltb i (length rr.rr_hops)) [
        | false ↦ spoofed
        | true ↦
            get_elem? rr.rr_hops (suc i) >>= λ next. some (note_rr test hop rr counted, reveals)
      ]
    ]

  unfoldable pub try_hops : String → List String → Engine C → Option (Engine C × Search)
  unfolding try_hop
  try_hops test [] e = some (e, reveals_nothing)
  try_hops test (hop ∷ hops) e = try_hop test hop e >>= λ tried. elim tried.1 [
    | reveals ↦ some tried
    | breaks_off ↦ some tried
    | reveals_nothing ↦ try_hops test hops tried.0
  ]

  -- The loop of `nextHopLastHop`; the Bool is whether there is an error. The loop has no bound: it
  -- runs on where it takes more than `rounds` rounds, see Runner/Tunnel/Stuck.
  unfoldable pub next_hop_loop : ℕ → Engine C → Result (Engine C × Bool)
  unfolding helpful_hops try_hops
  next_hop_loop zero e = runs_on
  next_hop_loop (suc rounds) e = of_option (curr_path e.rt) >>> λ current.
      of_option (path_last_hop current) >>> λ test.
      elim (fetch e.rt.next_hop_segments_by_hop test) [
        | some _ ↦ gives (e, false)
        | none ↦ of_option (last_seg current) >>> λ s.
            of_option (try_hops test (reverse (helpful_hops e.routing test (hops s))) e)
            >>> λ tried. elim tried.1 [
              | reveals ↦ gives (tried.0, false)
              | breaks_off ↦ gives (tried.0, true)
              | reveals_nothing ↦ of_option (fail_curr_path w.now tried.0.rt) >>> λ left.
                  next_hop_loop rounds (record tried.0 { rt = left })
            ]
      ]

  -- `nextHopLastHop`.
  unfoldable pub next_hop_last_hop : ℕ → Engine C → Result (Engine C × Bool)
  unfolding next_hop_loop
  next_hop_last_hop rounds e =
      next_hop_loop rounds (record e { routing_round_count = e.routing_round_count + 1 })
