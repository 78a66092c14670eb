-- ===== src/Runner/RecordRoute/Progress.antt =====
-- When a round of `recordRoute` of revtr/runner/revtr_runner.go ends the step.
use reverse_traceroute_publi.Base.{
  ℕ, zero, suc, ◌≡◌, refl, sym, ◌∙◌, ◌⊎◌, inl, inr, Bool, true, false, not, List, [], String,
  str_eq, Bool-cases, Option-cases, ◌&&◌, Option, none, some, ◌>>=◌, Holds, of_option-Holds, Sat,
  >>=-Sat, >>=-Sat_any, Sat-map, if-holds, length, NatDict, if◌then◌else◌, ◌==◌, subst, or_zero,
  map,
}
use reverse_traceroute_publi.StringUtil.{in_array, non_spoofed}
use reverse_traceroute_publi.StringUtil.Sets.{VisitsAll}
use reverse_traceroute_publi.Segment.{Segment, base}
use reverse_traceroute_publi.Segment.Create.{new_rev_segment, mask_hops, new_rr_rev_segment}
use reverse_traceroute_publi.ReversePath.{ReversePath}
use reverse_traceroute_publi.Revtr.{
  StopReason, unset, trivial, canceled, top, add_unresponsive_rr_spoofer,
  mark_responsive_rr_spoofer, reached, failed, curr_path, revtr_last_hop,
}
use reverse_traceroute_publi.Revtr.Add.Stack.{Rearranges}
use reverse_traceroute_publi.Runner.Symmetric.{
  Step, tr_to_source_step, record_route_step, timestamp_step, background_trs_step,
}
use reverse_traceroute_publi.Revtr.Fail.{fail_curr_path}
use reverse_traceroute_publi.Revtr.Probes.{get_rr_vps}
use reverse_traceroute_publi.Revtr.Spoofers.{RankedSpoofers, match_spoofed_responses}
use reverse_traceroute_publi.Runner.Run.{is_failed}
use reverse_traceroute_publi.Runner.Issue.{is_private_text}
use reverse_traceroute_publi.Runner.Engine.{RrHops, SpoofRrHops, Options, World, Engine}
use reverse_traceroute_publi.Runner.RecordRoute.{
  Round, again, ends, spoofed_segments, add_found, spoof_and_update, probe_spoofed, note_response,
  response_key, is_dummy_entry, after_source, probe_from_source, probe_from, check_and_probe,
  probe_next, is_spent, record_route_round, step_back,
}
use reverse_traceroute_publi.Runner.RecordRoute.Keeps.{
  HasPaths, ChosenFrom, issue_rr-paths, issue_spoofed_rr-paths, get_rr_vps-paths,
}
use reverse_traceroute_publi.Runner.RecordRoute.Hops.{
  AllHops, cons_ne, answer-AllHops, spoofed_segments-AllHops,
}
use reverse_traceroute_publi.Runner.RecordRoute.Adds.{Grown, Adds, add_found-Adds}

-- How a round may end the step, begun with the stack `old`.
abbrev pub HandsOver : {C : Type 0} → Options → List ReversePath → Engine C × Round → Type 0
HandsOver o old (e, again) = Unit
HandsOver o old (e, ends none) = (e.rt.stop_reason ≡ reached) ⊎ (e.rt.stop_reason ≡ failed)
HandsOver o old (e, ends (some step)) =
    (step ≡ (if o.use_timestamp then timestamp_step else background_trs_step))
    ⊎ ((step ≡ record_route_step) ⊎ (step ≡ tr_to_source_step)) × Grown old e.rt.paths

-- What holds of the branch that is taken where the test says no.
when_not :
    {A : Type 0} (P : A → Type 0) (a : A) {b : A} (c : Bool)
    → c ≡ false
    → P b
    → P (if c then a else b)
when_not P a true h hb = absurd (cc h)
when_not P a false h hb = hb

and_false : (c d : Bool) → c ≡ false → (c && d) ≡ false
and_false true d h = absurd (cc h)
and_false false d h = refl

pub is_failed-failed : (why : StopReason) → is_failed why ≡ true → why ≡ failed
is_failed-failed failed h = refl
is_failed-failed unset h = cc
is_failed-failed trivial h = cc
is_failed-failed canceled h = cc
is_failed-failed reached h = cc

module _ {C : Type 0} (w : World C) (o : Options) (all : VisitsAll w.visit)
    (arranged : Rearranges w.sorted) where
  Adds-HandsOver :
      (on : Step) (old : List ReversePath)
      → ((on ≡ record_route_step) ⊎ (on ≡ tr_to_source_step))
      → (r : Engine C × Round) → Adds on old r
      → HandsOver o old r
  Adds-HandsOver on old which (e, again) adds = tt
  Adds-HandsOver on old which (e, ends none) adds = inl adds
  Adds-HandsOver on old which (e, ends (some step)) (is_on, grown) =
      inr (subst (λ s. (s ≡ record_route_step) ⊎ (s ≡ tr_to_source_step)) (sym is_on) which, grown)

  add_found-HandsOver :
      (on : Step) (segs : List Segment) (e : Engine C) (old : List ReversePath)
      (current : ReversePath)
      → ((on ≡ record_route_step) ⊎ (on ≡ tr_to_source_step))
      → AllHops segs
      → e.rt.paths ≡ old
      → top old ≡ some current
      → Sat (HandsOver o old) (add_found w o on segs e)
  add_found-HandsOver on segs e old current which has_hops same on_top =
      Sat-map (Adds on old) (HandsOver o old) (add_found w o on segs e)
        (Adds-HandsOver on old which)
        (add_found-Adds w o all arranged on segs e old current has_hops same on_top)

  note_response-paths :
      (target : String) (vps : List String) (n : ℕ) (e : Engine C)
      → (note_response w o target vps n e).rt.paths ≡ e.rt.paths
  unfolding note_response add_unresponsive_rr_spoofer mark_responsive_rr_spoofer
  note_response-paths target vps zero e = refl
  note_response-paths target vps (suc n) e = refl

  noted-paths :
      (target : String) (vps : List String) (rrs : NatDict SpoofRrHops) (e : Engine C)
      (old : List ReversePath) (matching : Option (NatDict RankedSpoofers × Bool))
      → e.rt.paths ≡ old
      → Sat (HasPaths {A = NatDict SpoofRrHops} old) (
          matching >>= λ matched.
          some (note_response w o target vps (length rrs) (record e { ranked = matched.0 }), rrs))
  noted-paths target vps rrs e old none kept = tt
  noted-paths target vps rrs e old (some matched) kept =
      note_response-paths target vps (length rrs) (record e { ranked = matched.0 }) ∙ kept

  probe_spoofed-paths :
      (target : String) (vps : List String) (e : Engine C)
      → Sat (HasPaths e.rt.paths) (probe_spoofed w o target vps e)
  unfolding probe_spoofed
  probe_spoofed-paths target vps e =
      >>=-Sat (HasPaths e.rt.paths) (HasPaths e.rt.paths) _ _
        (issue_spoofed_rr-paths w e.rt.src target vps o.use_cache _)
        (λ answer kept.
          noted-paths target vps (or_zero [] answer.1) answer.0 e.rt.paths
            (match_spoofed_responses w.ip_net target
              (map (λ entry. (entry.0, entry.1.rr.rr_measurement_id)) (or_zero [] answer.1)) vps
              answer.0.ranked)
            kept)

  spoof_and_update-HandsOver :
      (target : String) (vps : List String) (e : Engine C) (old : List ReversePath)
      (current : ReversePath)
      → e.rt.paths ≡ old
      → top old ≡ some current
      → Sat (HandsOver o old) (spoof_and_update w o target vps e)
  unfolding spoof_and_update
  spoof_and_update-HandsOver target vps e old current same on_top =
      >>=-Sat (HasPaths e.rt.paths) (HandsOver o old) _ _ (probe_spoofed-paths target vps e)
        (λ probed kept.
          if-holds (Sat (HandsOver o old))
            (length (spoofed_segments w o e.rt.src target (w.visit_rrs probed.1)) == 0)
            {a = some (probed.0, again)} tt
            (add_found-HandsOver record_route_step _ probed.0 old current (inl refl)
              (spoofed_segments-AllHops w o e.rt.src target (w.visit_rrs probed.1)) (kept ∙ same)
              on_top))

  source_answer-HandsOver :
      (target src : String) (e : Engine C) (answer : Option RrHops) (old : List ReversePath)
      (current : ReversePath)
      → e.rt.paths ≡ old
      → top old ≡ some current
      → Sat (HandsOver o old) (after_source w o target src (e, answer))
  unfolding after_source new_rr_rev_segment new_rev_segment mask_hops base
  source_answer-HandsOver target src e none old current same on_top = tt
  source_answer-HandsOver target src e (some rr) old current same on_top =
      add_found-HandsOver tr_to_source_step _ _ old current (inr refl)
        (answer-AllHops
          (λ seg. new_rr_rev_segment w.net seg src target rr.rr_measurement_id rr.rr_from_cache)
          (λ h seg e. cons_ne _ _ e) rr.rr_hops)
        same on_top

  probe_from_source-HandsOver :
      (target : String) (e : Engine C) (old : List ReversePath) (current : ReversePath)
      → e.rt.paths ≡ old
      → top old ≡ some current
      → Sat (HandsOver o old) (probe_from_source w o target e)
  unfolding probe_from_source
  probe_from_source-HandsOver target e old current same on_top =
      >>=-Sat (HasPaths e.rt.paths) (HandsOver o old) _ _
        (issue_rr-paths w e.rt.src target o.use_cache e)
        (λ answer kept.
          source_answer-HandsOver target e.rt.src answer.0 answer.1 old current (kept ∙ same)
            on_top)

  probe_from-HandsOver :
      (target : String) (vps : List String) (e : Engine C) (old : List ReversePath)
      (current : ReversePath)
      → e.rt.paths ≡ old
      → top old ≡ some current
      → Sat (HandsOver o old) (probe_from w o target vps e)
  unfolding probe_from
  probe_from-HandsOver target vps e old current same on_top =
      if-holds (Sat (HandsOver o old)) (in_array vps non_spoofed)
        (probe_from_source-HandsOver target e old current same on_top)
        (if-holds (Sat (HandsOver o old))
          (is_dummy_entry (w.ca.get e.cache (response_key e.rt.src target))) {a = some (e, again)}
          tt (spoof_and_update-HandsOver target vps e old current same on_top))

  step_back-HandsOver :
      (e : Engine C) (old : List ReversePath) → Sat (HandsOver o old) (step_back w o e)
  unfolding step_back
  step_back-HandsOver e old =
      >>=-Sat_any (HandsOver o old) (fail_curr_path w.now e.rt)
        (λ left. some (record e { rt = left }, again)) (λ left. tt)

  check_and_probe-HandsOver :
      (target : String) (vps : List String) (e : Engine C) (old : List ReversePath)
      (current : ReversePath)
      → o.check_tunnel ≡ false
      → e.rt.paths ≡ old
      → top old ≡ some current
      → Sat (HandsOver o old) (check_and_probe w o target vps e)
  unfolding check_and_probe
  check_and_probe-HandsOver target vps e old current off same on_top =
      when_not (Sat (HandsOver o old)) _ (o.check_tunnel && not (str_eq target e.rt.dst))
        (and_false o.check_tunnel (not (str_eq target e.rt.dst)) off)
        (probe_from-HandsOver target vps e old current same on_top)

  probe_next-HandsOver :
      (e : Engine C) → o.check_tunnel ≡ false → Sat (HandsOver o e.rt.paths) (probe_next w o e)
  unfolding probe_next revtr_last_hop curr_path
  probe_next-HandsOver e off = elim (Option-cases (top e.rt.paths)) [
    | inl empty ↦ rw (empty) tt
    | inr (current, on_top) ↦ >>=-Sat_any (HandsOver o e.rt.paths) (revtr_last_hop e.rt) _ (λ last.
        >>=-Sat (ChosenFrom e.rt) (HandsOver o e.rt.paths) (get_rr_vps w.rkc e.rt) _
          (get_rr_vps-paths w.rkc e.rt)
          (λ chosen kept.
            let next : Engine C = record e { rt = chosen.0 } in
            if-holds (Sat (HandsOver o e.rt.paths))
              (is_private_text w chosen.2 && not (str_eq chosen.2 ""))
              (step_back-HandsOver next e.rt.paths)
              (if-holds (Sat (HandsOver o e.rt.paths)) (is_spent w o chosen.2 chosen.1 next)
                {a = some (
                  next,
                  ends (some (if o.use_timestamp then timestamp_step else background_trs_step)),
                )}
                (inl refl)
                (check_and_probe-HandsOver chosen.2 chosen.1 next e.rt.paths current off kept
                  on_top))))
  ]

  -- A round of `recordRoute`, where tunnels are not checked, has no loop that runs on. One that ends
  -- the traceroute has noted that the source is reached or that the traceroute has failed; one that
  -- hands over to `timestamp` or to the background traceroutes does so as the options say; and one that
  -- hands over to `trToSource` or to `recordRoute` again has put a new path on the stack. The order of
  -- each map is one that visits every entry, and sorting makes up no segment.
  pub record_route_round-HandsOver :
      (checks : ℕ) (e : Engine C)
      → o.check_tunnel ≡ false
      → Holds ⊥ (HandsOver o e.rt.paths) (record_route_round w o checks e)
  unfolding record_route_round
  record_route_round-HandsOver checks e off = elim (Bool-cases (is_failed e.rt.stop_reason)) [
    | inl over ↦ rw (over) (inr (is_failed-failed e.rt.stop_reason over))
    | inr alive ↦ when_not (Holds ⊥ (HandsOver o e.rt.paths)) _ (is_failed e.rt.stop_reason) alive (
        when_not (Holds ⊥ (HandsOver o e.rt.paths)) _ o.check_tunnel off (
          of_option-Holds ⊥ (HandsOver o e.rt.paths) (probe_next w o e)
            (probe_next-HandsOver e off)))
  ]
