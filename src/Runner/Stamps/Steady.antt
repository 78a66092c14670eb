-- ===== src/Runner/Stamps/Steady.antt =====
-- What the answers to the timestamp probes of revtr/runner/revtr_runner.go leave as it is.
use reverse_traceroute_publi.Base.{
  ℕ, ◌≡◌, ◌≢◌, refl, ◌∙◌, Bool, true, false, none, List, [], ◌∷◌, String, Dict, if◌then◌else◌,
  str_eq, or_zero,
}
use reverse_traceroute_publi.Segment.{Segment, hops, base}
use reverse_traceroute_publi.Segment.Create.{
  new_rev_segment, mask_hops, new_ts_adj_rev_segment, new_spoof_ts_adj_rev_segment,
  new_spoof_ts_adj_rev_segment_ts_zero_double_stamp,
}
use reverse_traceroute_publi.ReversePath.{ReversePath}
use reverse_traceroute_publi.Revtr.{ts_set_unresponsive}
use reverse_traceroute_publi.Runner.Engine.{World}
use reverse_traceroute_publi.Runner.Issue.{text_of}
use reverse_traceroute_publi.Runner.RecordRoute.Hops.{cons_ne}
use reverse_traceroute_publi.StringUtil.{non_spoofed}
use reverse_traceroute_publi.Runner.Slots.{
  fetch_keyed, TsAndAddr, TsPing, Probes, Receivers, TsServices, Stamping, Verdict, shows, may_show,
  does_not, shows_nothing, judge_slots, judge_zero, three_slots, four_slots,
}
use reverse_traceroute_publi.Runner.Stamps.{
  stamp_segment, show_hop, set_send_spoofed, unresponsive, heed_verdict, heed_stamps,
  check_for_rev_hop, show_hops, heed_second, check_for_linux_bug, heed_zero, dest_does_not_stamp,
  heed_all, asked, measurements, spoofed_measurements, issue_timestamps, issue_spoofed_timestamps,
}
use reverse_traceroute_publi.Runner.Stamps.Shown.{AllShown, store_keyed-AllShown, single-AllHops}

module _ {C : Type 0} where
  -- What the choice of the neighbours depends on, and the stack.
  abbrev pub kept : Stamping C → Dict (List String) × Dict ℕ × List ReversePath
  kept t = (t.e.rt.ts_hop_adjs_left, t.e.rt.ts_hop_rate_limit, t.e.rt.paths)

  pub record Steady (t t' : Stamping C) : Type 0 where
    pub same : kept t' ≡ kept t
    pub still_shown : AllShown t.rev_hops → AllShown t'.rev_hops

  pub steady_trans : (a b c : Stamping C) → Steady a b → Steady b c → Steady a c
  steady_trans a b c ab bc = record {
    same = bc.same ∙ ab.same;
    still_shown = λ all. bc.still_shown (ab.still_shown all);
  }

  pub if-Steady :
      (c : Bool) (t a b : Stamping C) → Steady t a → Steady t b → Steady t (if c then a else b)
  if-Steady true t a b sa sb = sa
  if-Steady false t a b sa sb = sb

  module _ (w : World C) (s : TsServices) where
    pub set_send_spoofed-Steady :
        (src hop : String) (b : Bool) (t : Stamping C) → Steady t (set_send_spoofed w s src hop b t)
    unfolding set_send_spoofed
    set_send_spoofed-Steady src hop b t = record { same = refl; still_shown = λ all. all }

    pub unresponsive-Steady : (dst : String) (t : Stamping C) → Steady t (unresponsive w s dst t)
    unfolding ts_set_unresponsive
    unresponsive-Steady dst t = record { same = refl; still_shown = λ all. all }

    -- An answer to a probe that was not spoofed notes that it came.
    noted-Steady :
        (c : Bool) (src dst : String) (t : Stamping C)
        → Steady t (if c then set_send_spoofed w s src dst false t else t)
    noted-Steady c src dst t =
        if-Steady c t _ t (set_send_spoofed-Steady src dst false t)
          record { same = refl; still_shown = λ all. all }

    if-hops :
        (c : Bool) (a b : Segment) → hops a ≢ [] → hops b ≢ [] → hops (if c then a else b) ≢ []
    if-hops true a b ha hb = ha
    if-hops false a b ha hb = hb

    stamp_segment-hops :
        (hop src dst vp : String) (p : TsPing) → hops (stamp_segment w s hop src dst vp p) ≢ []
    unfolding stamp_segment new_ts_adj_rev_segment new_spoof_ts_adj_rev_segment new_rev_segment
        mask_hops base
    stamp_segment-hops hop src dst vp p =
        if-hops (str_eq vp non_spoofed) _ _ (λ e. cons_ne _ _ e) (λ e. cons_ne _ _ e)

    show_hop-Steady :
        (hop src dst vp : String) (p : TsPing) (t : Stamping C)
        → Steady t (show_hop w s hop src dst vp p t)
    unfolding show_hop
    show_hop-Steady hop src dst vp p t = record {
      same = refl;
      still_shown =
          store_keyed-AllShown t.rev_hops (src ∷ dst ∷ []) _
            (single-AllHops _ (stamp_segment-hops hop src dst vp p));
    }

    heed_verdict-Steady :
        (src dst vp : String) (p : TsPing) (v : Verdict) (t : Stamping C)
        → Steady t (heed_verdict w s src dst vp p v t)
    unfolding heed_verdict
    heed_verdict-Steady src dst vp p (shows ip) t = show_hop-Steady (text_of w ip) src dst vp p t
    heed_verdict-Steady src dst vp p (may_show ip) t = record {
      same = refl;
      still_shown = λ all. all;
    }
    heed_verdict-Steady src dst vp p (does_not ip) t = record {
      same = refl;
      still_shown = λ all. all;
    }
    heed_verdict-Steady src dst vp p shows_nothing t = record {
      same = refl;
      still_shown = λ all. all;
    }

    heed_stamps-Steady :
        (src dst vp : String) (p : TsPing) (rps : List (List TsAndAddr)) (t : Stamping C)
        → Steady t (heed_stamps w s src dst vp p rps t)
    unfolding heed_stamps
    heed_stamps-Steady src dst vp p [] t = record { same = refl; still_shown = λ all. all }
    heed_stamps-Steady src dst vp p (rp ∷ rps) t =
        heed_verdict-Steady src dst vp p (judge_slots (three_slots rp)) t

    pub check_for_rev_hop-Steady :
        (src vp : String) (p : TsPing) (t : Stamping C)
        → Steady t (check_for_rev_hop w s src vp p t)
    unfolding check_for_rev_hop
    check_for_rev_hop-Steady src vp p t =
        let dst = text_of w p.ts_dst in
        let noted : Stamping C =
          if str_eq vp non_spoofed then set_send_spoofed w s src dst false t else t in
        steady_trans t (unresponsive w s dst noted) _
          (steady_trans t noted _ (noted-Steady (str_eq vp non_spoofed) src dst t)
            (unresponsive-Steady dst noted))
          (heed_stamps-Steady src dst vp p p.stamps (unresponsive w s dst noted))

    show_hops-Steady :
        (hs : List String) (src dst vp : String) (p : TsPing) (t : Stamping C)
        → Steady t (show_hops w s hs src dst vp p t)
    unfolding show_hops
    show_hops-Steady [] src dst vp p t = record { same = refl; still_shown = λ all. all }
    show_hops-Steady (hop ∷ hs) src dst vp p t =
        steady_trans t (show_hop w s hop src dst vp p t) _ (show_hop-Steady hop src dst vp p t)
          (show_hops-Steady hs src dst vp p (show_hop w s hop src dst vp p t))

    heed_second-Steady :
        (src dst vp : String) (p : TsPing) (rps : List (List TsAndAddr)) (t : Stamping C)
        → Steady t (heed_second w s src dst vp p rps t)
    unfolding heed_second
    heed_second-Steady src dst vp p [] t = record { same = refl; still_shown = λ all. all }
    heed_second-Steady src dst vp p ([] ∷ rps) t = record { same = refl; still_shown = λ all. all }
    heed_second-Steady src dst vp p ((a ∷ []) ∷ rps) t = record {
      same = refl;
      still_shown = λ all. all;
    }
    heed_second-Steady src dst vp p ((a ∷ b ∷ rest) ∷ rps) t =
        let noted : Stamping C =
          if str_eq vp non_spoofed then set_send_spoofed w s src dst false t else t in
        let one = noted-Steady (str_eq vp non_spoofed) src dst t in
        if-Steady _ t noted _ one (
          steady_trans t noted _ one (
            show_hops-Steady (or_zero [] (fetch_keyed t.linux_bugs (src ∷ dst ∷ vp ∷ []))) src dst
              vp p noted))

    pub check_for_linux_bug-Steady :
        (src vp : String) (p : TsPing) (t : Stamping C)
        → Steady t (check_for_linux_bug w s src vp p t)
    unfolding check_for_linux_bug
    check_for_linux_bug-Steady src vp p t =
        heed_second-Steady src (text_of w p.ts_dst) vp p p.stamps t

    heed_zero-Steady :
        (src dst vp : String) (p : TsPing) (v : Verdict) (t : Stamping C)
        → Steady t (heed_zero w s src dst vp p v t)
    unfolding heed_zero new_spoof_ts_adj_rev_segment_ts_zero_double_stamp new_rev_segment mask_hops
        base
    heed_zero-Steady src dst vp p (shows ip) t = record {
      same = refl;
      still_shown =
          store_keyed-AllShown t.rev_hops (src ∷ dst ∷ []) _
            (single-AllHops _ (λ e. cons_ne _ _ e));
    }
    heed_zero-Steady src dst vp p (may_show ip) t = record { same = refl; still_shown = λ all. all }
    heed_zero-Steady src dst vp p (does_not ip) t = record { same = refl; still_shown = λ all. all }
    heed_zero-Steady src dst vp p shows_nothing t = record { same = refl; still_shown = λ all. all }

    heed_zeros-Steady :
        (src dst vp : String) (p : TsPing) (rps : List (List TsAndAddr)) (t : Stamping C)
        → Steady t (elim rps [
          | [] ↦ t
          | rp ∷ rps ↦ heed_zero w s src dst vp p (judge_zero (four_slots rp)) t
        ])
    heed_zeros-Steady src dst vp p [] t = record { same = refl; still_shown = λ all. all }
    heed_zeros-Steady src dst vp p (rp ∷ rps) t =
        heed_zero-Steady src dst vp p (judge_zero (four_slots rp)) t

    pub dest_does_not_stamp-Steady :
        (src vp : String) (p : TsPing) (t : Stamping C)
        → Steady t (dest_does_not_stamp w s src vp p t)
    unfolding dest_does_not_stamp
    dest_does_not_stamp-Steady src vp p t =
        heed_zeros-Steady src (text_of w p.ts_dst) vp p p.stamps t

    -- Calls of a function that is steady.
    abbrev pub IsSteady : (String → String → TsPing → Stamping C → Stamping C) → Type 0
    IsSteady fn = (src vp : String) (p : TsPing) (t : Stamping C) → Steady t (fn src vp p t)

    heed_all-Steady :
        (fn : String → String → TsPing → Stamping C → Stamping C) (is_spoofed : Bool)
        → IsSteady fn
        → (ps : List TsPing) (t : Stamping C) → Steady t (heed_all w s fn is_spoofed ps t)
    unfolding heed_all
    heed_all-Steady fn is_spoofed h [] t = record { same = refl; still_shown = λ all. all }
    heed_all-Steady fn is_spoofed h (p ∷ ps) t =
        steady_trans t _ _ (h _ _ p t) (heed_all-Steady fn is_spoofed h ps _)

    pub issue_timestamps-Steady :
        (check : Bool) (issue : Probes) (fn : String → String → TsPing → Stamping C → Stamping C)
        → IsSteady fn
        → (t : Stamping C) → Steady t (issue_timestamps w s check issue fn t)
    unfolding issue_timestamps
    issue_timestamps-Steady check issue fn h t =
        steady_trans t (asked w s t) _ record { same = refl; still_shown = λ all. all }
          (heed_all-Steady fn false h
            (s.ts_ping t.ts_pings_asked (measurements w s none check (s.visit_probes issue)))
            (asked w s t))

    pub issue_spoofed_timestamps-Steady :
        (check : Bool) (issue : Receivers) (fn : String → String → TsPing → Stamping C → Stamping C)
        → IsSteady fn
        → (t : Stamping C) → Steady t (issue_spoofed_timestamps w s check issue fn t)
    unfolding issue_spoofed_timestamps
    issue_spoofed_timestamps-Steady check issue fn h t =
        steady_trans t (asked w s t) _ record { same = refl; still_shown = λ all. all }
          (heed_all-Steady fn true h
            (s.ts_ping t.ts_pings_asked (spoofed_measurements w s check (s.visit_receivers issue)))
            (asked w s t))
