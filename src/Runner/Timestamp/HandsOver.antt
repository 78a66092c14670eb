-- ===== src/Runner/Timestamp/HandsOver.antt =====
-- When a round of `timestamp` of revtr/runner/revtr_runner.go ends the step.
use reverse_traceroute_publi.Base.{
  ◌≡◌, refl, sym, ap, fetch, ◌∙◌, ◌⊎◌, inl, inr, Option-cases, List, [], ◌∷◌, String, Option, none,
  some, ◌>>=◌, Sat, >>=-Sat, >>=-Sat_any, if-holds, length, ◌==◌, if◌then◌else◌, Dict, ℕ,
}
use reverse_traceroute_publi.StringUtil.Sets.{VisitsAll}
use reverse_traceroute_publi.ReversePath.{ReversePath}
use reverse_traceroute_publi.Revtr.{Revtr, top, revtr_last_hop, curr_path, reached}
use reverse_traceroute_publi.Revtr.Add.Stack.{Rearranges}
use reverse_traceroute_publi.Revtr.Probes.{
  set_adjacents, with_adjacents, next_adjacents, get_ts_adjacents,
}
use reverse_traceroute_publi.Runner.Symmetric.{tr_to_source_step, background_trs_step}
use reverse_traceroute_publi.Runner.Engine.{World, Engine, Options}
use reverse_traceroute_publi.Runner.RecordRoute.{Round, again, ends, add_found}
use reverse_traceroute_publi.Runner.RecordRoute.Adds.{Grown, Adds, add_found-Adds}
use reverse_traceroute_publi.Runner.Slots.{Probe, TsServices, Stamping, fetch_keyed}
use reverse_traceroute_publi.Runner.Stamps.Shown.{AllShown, fetch_keyed-AllHops}
use reverse_traceroute_publi.Runner.Stamps.Steady.{Steady}
use reverse_traceroute_publi.Runner.Timestamp.Probing.{open_round-Steady, probing-Steady}
use reverse_traceroute_publi.Runner.Timestamp.{
  Opening, gives_up, issues, timestamp_round, open_round, after_opening, probe_stamps, add_shown,
  fresh_round, issue_probes, issue_spoofed, check_linux, check_zeros, verify_zeros,
}

-- What a round tells that began with the stack `old`.
abbrev pub Told : {C : Type 0} → List ReversePath → Stamping C × Round → Type 0
Told old (t, again) = Unit
Told old (t, ends none) = t.e.rt.stop_reason ≡ reached
Told old (t, ends (some step)) =
    (step ≡ background_trs_step) ⊎ (step ≡ tr_to_source_step) × Grown old t.e.rt.paths

-- The neighbours are looked up and handed out on the same stack.
set_adjacents-paths :
    (hop : String) (found : Option (List String)) (rt : Revtr)
    → (set_adjacents hop found rt).paths ≡ rt.paths
set_adjacents-paths hop none rt = refl
set_adjacents-paths hop (some adjs) rt = refl

known-paths :
    (adjacencies : String → String → Option (List String)) (target : String) (rt : Revtr)
    (known : Option (List String))
    → (elim known as (λ k. Revtr) [
      | none ↦ set_adjacents target (adjacencies target rt.src) rt
      | some _ ↦ rt
    ]).paths
      ≡ rt.paths
known-paths adjacencies target rt none = set_adjacents-paths target (adjacencies target rt.src) rt
known-paths adjacencies target rt (some adjs) = refl

get_ts_adjacents-paths :
    (adjacencies : String → String → Option (List String)) (target : String) (rt : Revtr)
    → (get_ts_adjacents adjacencies target rt).0.paths ≡ rt.paths
unfolding get_ts_adjacents with_adjacents next_adjacents
get_ts_adjacents-paths adjacencies target rt =
    let ready = with_adjacents adjacencies target rt in
    if-holds (λ (next : Revtr × List String). next.0.paths ≡ ready.paths) _ refl refl
    ∙ known-paths adjacencies target rt (fetch rt.ts_hop_adjs_left target)

module _ {C : Type 0} (w : World C) (s : TsServices) (o : Options) (all : VisitsAll w.visit)
    (arranged : Rearranges w.sorted) where
  Adds-Told :
      (old : List ReversePath) (t : Stamping C) (r : Engine C × Round)
      → Adds tr_to_source_step old r
      → Told old (record t { e = r.0 }, r.1)
  Adds-Told old t (e, again) adds = tt
  Adds-Told old t (e, ends none) adds = adds
  Adds-Told old t (e, ends (some step)) adds = inr adds

  add_shown-Told :
      (t : Stamping C) (old : List ReversePath) (current : ReversePath)
      → AllShown t.rev_hops
      → t.e.rt.paths ≡ old
      → top old ≡ some current
      → Sat (Told old) (add_shown w s o t)
  unfolding add_shown
  add_shown-Told t old current shown same on_top =
      >>=-Sat_any (Told old) (revtr_last_hop t.e.rt) _ (λ last.
        elim (Option-cases (fetch_keyed t.rev_hops (t.e.rt.src ∷ last ∷ []))) [
          | inl none_shown ↦ rw (none_shown) tt
          | inr (segs, found) ↦ rw (found) (
              >>=-Sat (Adds tr_to_source_step old) (Told old)
                (add_found w o tr_to_source_step segs t.e) _
                (add_found-Adds w o all arranged tr_to_source_step segs t.e old current
                  (fetch_keyed-AllHops t.rev_hops (t.e.rt.src ∷ last ∷ []) segs shown found) same
                  on_top)
                (Adds-Told old t))
        ])

  same_paths : (t t' : Stamping C) → Steady t t' → t'.e.rt.paths ≡ t.e.rt.paths
  same_paths t t' steady =
      ap (λ (k : Dict (List String) × Dict ℕ × List ReversePath). k.2) steady.same

  probe_stamps-Told :
      (probes : List Probe) (t : Stamping C) (old : List ReversePath) (current : ReversePath)
      → AllShown t.rev_hops
      → t.e.rt.paths ≡ old
      → top old ≡ some current
      → Sat (Told old) (probe_stamps w s o probes t)
  unfolding probe_stamps
  probe_stamps-Told probes t old current shown same on_top =
      let n = if length probes == 0 then 0 else 1 in
      let probed = verify_zeros w s o (
        check_zeros w s o
          (check_linux w s o n (issue_spoofed w s o (issue_probes w s o probes t)))) in
      let steady = probing-Steady w s o n probes t in
      add_shown-Told probed old current (steady.still_shown shown)
        (same_paths t probed steady ∙ same) on_top

  after_opening-Told :
      (opened : Stamping C × Opening) (old : List ReversePath) (current : ReversePath)
      → opened.0.e.rt.paths ≡ old
      → top old ≡ some current
      → Sat (Told old) (after_opening w s o opened)
  after_opening-Told (t, gives_up) old current same on_top = inl refl
  after_opening-Told (t, issues probes) old current same on_top =
      probe_stamps-Told probes (fresh_round w s o t) old current tt same on_top

  -- Where the last hop is known, there is a current path.
  from_last_hop-Told :
      (old : List ReversePath) (rt : Revtr) (f : String → Option (Stamping C × Round))
      → rt.paths ≡ old
      → ((last : String) (current : ReversePath) → top old ≡ some current → Sat (Told old) (f last))
      → Sat (Told old) (revtr_last_hop rt >>= f)
  unfolding revtr_last_hop curr_path
  from_last_hop-Told old rt f same h = elim (Option-cases (top rt.paths)) [
    | inl empty ↦ rw (empty) tt
    | inr (current, on_top) ↦
        >>=-Sat_any (Told old) (revtr_last_hop rt) f
          (λ last. h last current (ap top (sym same) ∙ on_top))
  ]

  -- A round of `timestamp` that ends the traceroute has noted that the source is reached; one that
  -- ends the step either hands over to the traceroutes in the background, or it has put a new path on
  -- the stack and hands over to `trToSource`. The order of each map is one that visits every entry, and
  -- sorting makes up no segment.
  pub timestamp_round-Told :
      (target : String) (t : Stamping C) → Sat (Told t.e.rt.paths) (timestamp_round w s o target t)
  unfolding timestamp_round
  timestamp_round-Told target t =
      let old = t.e.rt.paths in
      let got = get_ts_adjacents s.adjacencies target t.e.rt in
      let ready : Stamping C = record t { e = record t.e { rt = got.0 } } in
      let same = get_ts_adjacents-paths s.adjacencies target t.e.rt in
      if-holds (Sat (Told old)) (length got.1 == 0)
        {a = some (ready, ends (some background_trs_step))} (inl refl)
        (from_last_hop-Told old got.0
          (λ last. after_opening w s o (open_round w s o target last got.1 ready)) same
          (λ last current on_top.
            after_opening-Told (open_round w s o target last got.1 ready) old current
              (same_paths ready _ (open_round-Steady w s o target last got.1 ready) ∙ same) on_top))
