-- ===== src/Runner/RecordRoute.antt =====
-- `recordRoute` and `spoofAndUpdate` of revtr/runner/revtr_runner.go. `none` is a panic. The two
-- loops of the step, that over the groups of vantage points and that of `nextHopLastHop`, have no bound:
-- each is given a number of rounds, and what holds one of them returns a `Result`.
pub mod Hops
pub mod Adds
pub mod Keeps
pub mod Progress
use reverse_traceroute_publi.Base.{
  ℕ, zero, suc, ◌+◌, ◌-◌, ◌%◌, Bool, true, false, not, ◌&&◌, ◌||◌, List, [], ◌∷◌, ◌++◌, map, String,
  str_eq, Option, none, some, ◌>>=◌, ◌>>>◌, Result, runs_on, gives, of_option, length, get_elem?,
  take, ltb, leb, ◌==◌, if◌then◌else◌, ℤ, pos, ◌+ℤ◌, Dict, NatDict, fetch, fetch_at, store, or_zero,
}
use Prim.Native.String.{◌++◌ as text_append}
use reverse_traceroute_publi.StringUtil.{in_array, non_spoofed}
use reverse_traceroute_publi.Segment.{Segment, hops, zero_ip}
use reverse_traceroute_publi.Segment.Create.{new_rr_rev_segment, new_spoof_rr_rev_segment}
use reverse_traceroute_publi.Revtr.{
  Revtr, StopReason, revtr_last_hop, revtr_reaches, revtr_failed, mark_responsive_rr_spoofer,
  add_unresponsive_rr_spoofer,
}
use reverse_traceroute_publi.Revtr.Add.{add_segments}
use reverse_traceroute_publi.Revtr.Fail.{fail_curr_path}
use reverse_traceroute_publi.Revtr.Probes.{get_rr_vps, rate_limit}
use reverse_traceroute_publi.Revtr.Spoofers.{add_ranked_spoofers, match_spoofed_responses}
use reverse_traceroute_publi.Runner.Symmetric.{
  Step, tr_to_source_step, record_route_step, timestamp_step, background_trs_step, check_bg_trs,
}
use reverse_traceroute_publi.Runner.Run.{is_failed}
use reverse_traceroute_publi.Runner.Engine.{RrHops, SpoofRrHops, Options, World, Engine}
use reverse_traceroute_publi.Runner.Issue.{
  number_of, is_private_text, issue_rr, issue_spoofed_rr, issue_tunnel_check,
  random_rec_spoof_sources,
}
use reverse_traceroute_publi.Runner.Tunnel.{violates_tunnel, next_hop_last_hop, rank_250}

-- A segment for each hop of an answer but 0.0.0.0, of the hops up to it; `i` hops are looked at.
unfoldable pub prefix_segments :
    (List String → Segment) → List String → ℕ → List String → List Segment
prefix_segments make all i [] = []
prefix_segments make all i (hop ∷ rest) =
    let more = prefix_segments make all (suc i) rest in
    if str_eq hop zero_ip then more else make (take (suc i) all) ∷ more

-- `util.FindFirstAfterNotEqual`.
unfoldable pub first_after : Bool → List String → String → Option String
first_after found [] val = none
first_after found (item ∷ slice) val =
    let rest = first_after true slice val in
    let later = first_after found slice val in
    if str_eq item val then rest else if found then some item else later

-- What a round comes to: it goes on with the loop, or ends the step with the next one.
pub data Round : Type 0 where
  again : Round
  ends : Option Step → Round

-- `revtr.Src + "_" + target`.
abbrev pub response_key : String → String → String
response_key src target = text_append src (text_append "_" target)

abbrev pub is_dummy_entry : Option String → Bool
is_dummy_entry none = false
is_dummy_entry (some res) = str_eq res "dummy"

module _ {C : Type 0} (w : World C) (o : Options) where
  abbrev pub with_rt : Engine C → Revtr → Engine C
  with_rt e rt = record e { rt = rt }

  -- `FailCurrPath`, and on with the loop.
  unfoldable pub step_back : Engine C → Option (Engine C × Round)
  step_back e = fail_curr_path w.now e.rt >>= λ left. some (with_rt e left, again)

  -- The end of a round that has found segments. `on` is the step that `checkbgTRs` is given.
  unfoldable pub add_found : Step → List Segment → Engine C → Option (Engine C × Round)
  unfolding check_bg_trs
  add_found on segs e = add_segments w.visit w.cm w.sorted segs e.rt >>= λ added.
      if not added.1
      then some (with_rt e added.0, again)
      else revtr_reaches w.cm w.now added.0 >>= λ reached.
          some (with_rt e reached.0, ends (if reached.1 then none else check_bg_trs reached.0 on))

  -- The segments of the answers to spoofed probes.
  unfoldable pub spoofed_segments : String → String → NatDict SpoofRrHops → List Segment
  unfolding prefix_segments
  spoofed_segments src target [] = []
  spoofed_segments src target ((from, rr) ∷ rrs) =
      prefix_segments
        (λ seg.
          new_spoof_rr_rev_segment w.net seg src target rr.vp rr.rr.rr_measurement_id
            rr.rr.rr_from_cache)
        rr.rr.rr_hops 0 rr.rr.rr_hops
      ++ spoofed_segments src target rrs

  -- `MarkResponsiveRRSpoofer`, or `AddUnresponsiveRRSpoofer` and the entry in the cache.
  unfoldable pub note_response : String → List String → ℕ → Engine C → Engine C
  note_response target vps zero e = record e {
    rt = add_unresponsive_rr_spoofer e.rt target (pos (length vps));
    cache =
        if o.use_cache then w.ca.set e.cache (response_key e.rt.src target) "dummy" else e.cache;
  }
  note_response target vps (suc n) e = with_rt e (mark_responsive_rr_spoofer e.rt target)

  -- `spoofAndUpdate` up to the answers.
  unfoldable pub probe_spoofed :
      String → List String → Engine C → Option (Engine C × NatDict SpoofRrHops)
  unfolding issue_spoofed_rr note_response
  probe_spoofed target vps e = do
    let ranked : Engine C = record e {
      ranked = (add_ranked_spoofers w.ip_net target vps e.ranked).0;
      spoofed_rr_probes = e.spoofed_rr_probes +ℤ pos (length vps);
    }
    answer ← issue_spoofed_rr w e.rt.src target vps o.use_cache ranked
    let rrs = or_zero [] answer.1
    matched ←
        match_spoofed_responses w.ip_net target
          (map (λ entry. (entry.0, entry.1.rr.rr_measurement_id)) rrs) vps answer.0.ranked
    some (note_response target vps (length rrs) (record answer.0 { ranked = matched.0 }), rrs)

  -- `spoofAndUpdate`, with what its caller does with the answer.
  unfoldable pub spoof_and_update : String → List String → Engine C → Option (Engine C × Round)
  unfolding probe_spoofed spoofed_segments add_found
  spoof_and_update target vps e = do
    probed ← probe_spoofed target vps e
    let segs = spoofed_segments e.rt.src target (w.visit_rrs probed.1)
    if length segs == 0 then some (probed.0, again) else add_found record_route_step segs probed.0

  -- The probe from the source itself, and what is made of its answer.
  unfoldable pub after_source :
      String → String → Engine C × Option RrHops → Option (Engine C × Round)
  unfolding add_found prefix_segments
  after_source target src (e, none) = some (e, again)
  after_source target src (e, some rr) =
      add_found tr_to_source_step
        (prefix_segments
          (λ seg. new_rr_rev_segment w.net seg src target rr.rr_measurement_id rr.rr_from_cache)
          rr.rr_hops 0 rr.rr_hops)
        (record e { rr_probes = if rr.rr_from_cache then e.rr_probes else e.rr_probes + 1 })

  unfoldable pub probe_from_source : String → Engine C → Option (Engine C × Round)
  unfolding issue_rr after_source
  probe_from_source target e =
      issue_rr w e.rt.src target o.use_cache e >>= after_source target e.rt.src

  -- The spoofers of a try of the check for tunnels: five of those that worked, or the ranked ones,
  -- none on an error. With a nil client the call panics.
  unfoldable pub cycle : List String → ℕ → ℕ → Option (List String)
  cycle working k zero = some []
  cycle working k (suc n) = do
    spoofer ← get_elem? working (k % length working)
    rest ← cycle working (suc k) n
    some (spoofer ∷ rest)

  unfoldable pub tunnel_spoofers : String → List String → Option (List String)
  unfolding cycle rank_250
  tunnel_spoofers target [] = rank_250 w.rkc target >>= λ vps. some (or_zero [] vps)
  tunnel_spoofers target (vp ∷ working) = cycle (vp ∷ working) 0 5

  -- The answers that have hops: their spoofers, and the hops.
  unfoldable pub working_answers :
      NatDict SpoofRrHops → List String × List (List String) → List String × List (List String)
  working_answers [] found = found
  working_answers ((from, rr) ∷ rrs) found = working_answers rrs (
      if ltb 0 (length rr.rr.rr_hops)
      then (found.0 ++ (rr.vp ∷ []), found.1 ++ (rr.rr.rr_hops ∷ []))
      else found)

  -- The tries of the check for tunnels: the inner `none` is the error of `randomRecSpoofSources`.
  unfoldable pub tunnel_tries :
      ℕ
      → ℕ
      → String
      → List String × List (List String)
      → Engine C
      → Option (Engine C × Option (List (List String)))
  unfolding random_rec_spoof_sources tunnel_spoofers issue_tunnel_check working_answers
  tunnel_tries zero i target found e = some (e, some found.1)
  tunnel_tries (suc tries) i target found e = elim (ltb (length found.1) 5) [
    | false ↦ some (e, some found.1)
    | true ↦ random_rec_spoof_sources w rate_limit (w.get_one_vp_per_site i) >>= λ sources.
        elim sources [
          | none ↦ some (e, none)
          | some srcs ↦ do
            spoofers ← tunnel_spoofers target found.0
            answer ← issue_tunnel_check w srcs target spoofers o.use_cache e
            tunnel_tries tries (suc i) target
                (working_answers (w.visit_rrs (or_zero [] answer.1)) found) answer.0
        ]
  ]

  -- The check of `target` for a tunnel: `none` inside where there are no sources. A target without a
  -- known next hop panics.
  unfoldable pub check_target : String → Engine C → Option (Engine C × Option Bool)
  unfolding tunnel_tries first_after violates_tunnel
  check_target target e = tunnel_tries 2 0 target ([], []) e >>= λ tried. elim tried.1 [
    | none ↦ some (tried.0, none)
    | some segs ↦ do
      seg ← fetch tried.0.rt.next_hop_segments_by_hop target
      next_hop ← first_after false (hops seg) target
      let judged = violates_tunnel target next_hop segs tried.0.routing
      some (record tried.0 { routing = judged.0 }, some judged.1)
  ]

  -- What a round does with the vantage points.
  unfoldable pub probe_from : String → List String → Engine C → Option (Engine C × Round)
  unfolding probe_from_source spoof_and_update
  probe_from target vps e =
      let is_dummy = is_dummy_entry (w.ca.get e.cache (response_key e.rt.src target)) in
      if in_array vps non_spoofed
      then probe_from_source target e
      else if is_dummy
      then some (e, again)
      else spoof_and_update target vps e

  unfoldable pub check_and_probe : String → List String → Engine C → Option (Engine C × Round)
  unfolding check_target probe_from step_back
  check_and_probe target vps e =
      if o.check_tunnel && not (str_eq target e.rt.dst)
      then (check_target target e >>= λ checked. elim checked.1 [
        | none ↦ some (checked.0, ends none)
        | some true ↦ step_back checked.0
        | some false ↦ probe_from target vps checked.0
      ])
      else probe_from target vps e

  -- No vantage points are left, or as many spoofers were ranked as are allowed.
  abbrev pub is_spent : String → List String → Engine C → Bool
  is_spent target vps e =
      (length vps == 0)
      || leb e.rt.max_spoofers (length (or_zero [] (fetch_at e.ranked (number_of w target))))

  unfoldable pub probe_next : Engine C → Option (Engine C × Round)
  unfolding check_and_probe step_back is_private_text number_of
  probe_next e = do
    last ← revtr_last_hop e.rt
    chosen ← get_rr_vps w.rkc e.rt
    let next = with_rt e chosen.0
    if is_private_text w chosen.2 && not (str_eq chosen.2 "")
        then step_back next
        else if is_spent chosen.2 chosen.1 next
        then some
            (next, ends (some (if o.use_timestamp then timestamp_step else background_trs_step)))
        else check_and_probe chosen.2 chosen.1 next

  -- The check of the last hop, before the vantage points are chosen.
  unfoldable pub check_last_hop : ℕ → Engine C → Result (Engine C × Round)
  unfolding next_hop_last_hop probe_next
  check_last_hop rounds e = next_hop_last_hop w rounds e >>> λ checked.
      let over = revtr_failed w.now checked.0.rt in
      let failed = with_rt checked.0 over.0 in
      if checked.1
      then gives (checked.0, ends none)
      else if over.1
      then gives (
        record failed {
          fail_reason = "No possibility to check destination based routing for any of the hops";
        },
        ends none,
      )
      else of_option (probe_next failed)

  -- One round of the loop.
  unfoldable pub record_route_round : ℕ → Engine C → Result (Engine C × Round)
  unfolding check_last_hop probe_next
  record_route_round rounds e =
      if is_failed e.rt.stop_reason
      then gives (e, ends none)
      else if o.check_tunnel
      then (of_option (revtr_last_hop e.rt) >>> λ last.
          if not (str_eq last e.rt.dst) then check_last_hop rounds e else of_option (probe_next e))
      else of_option (probe_next e)

  -- The loop, which runs on where it takes more than `rounds` rounds.
  unfoldable pub record_route_loop : ℕ → ℕ → Engine C → Result (Engine C × Option Step)
  unfolding record_route_round
  record_route_loop checks zero e = runs_on
  record_route_loop checks (suc rounds) e = record_route_round checks e >>> λ done. elim done.1 [
    | again ↦ record_route_loop checks rounds done.0
    | ends next ↦ gives (done.0, next)
  ]

  -- `recordRoute`.
  unfoldable pub record_route : ℕ → ℕ → Engine C → Result (Engine C × Option Step)
  unfolding record_route_loop
  record_route checks rounds e =
      record_route_loop checks rounds (record e { rr_round_count = e.rr_round_count + 1 })
