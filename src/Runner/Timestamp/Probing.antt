-- ===== src/Runner/Timestamp/Probing.antt =====
-- What the probes of a round of `timestamp` of revtr/runner/revtr_runner.go leave as it is.
use reverse_traceroute_publi.Base.{
  ℕ, ◌+◌, ◌==◌, refl, Bool, true, false, not, if-holds, List, [], ◌∷◌, map, String, Option, none,
  some, length, fetch, or_zero,
}
use reverse_traceroute_publi.Runner.Engine.{World, Options}
use reverse_traceroute_publi.Runner.Slots.{Probe, TsServices, Stamping}
use reverse_traceroute_publi.Runner.Stamps.{
  set_send_spoofed, unresponsive, check_for_rev_hop, check_for_linux_bug, dest_does_not_stamp,
  verify_only, issue_timestamps,
}
use reverse_traceroute_publi.Runner.Stamps.Steady.{
  Steady, steady_trans, if-Steady, set_send_spoofed-Steady, unresponsive-Steady,
  check_for_rev_hop-Steady, check_for_linux_bug-Steady, dest_does_not_stamp-Steady,
  issue_timestamps-Steady, issue_spoofed_timestamps-Steady,
}
use reverse_traceroute_publi.Runner.Timestamp.{
  Opening, issues, adjacent_probe, linux_checks, count_spoofers, add_spoofers, add_all_spoofers,
  four_times, ask_spoofers, open_spoofed, open_round, expect_answers, spoof_unanswered,
  issue_probes, issue_spoofed, check_linux, spoof_zeros, check_zeros, verify_zeros,
}

module _ {C : Type 0} (w : World C) (s : TsServices) (o : Options) where
  -- A change of none of what is kept.
  stays : (t : Stamping C) → Steady t t
  stays t = record { same = refl; still_shown = λ all. all }

  open_spoofed-Steady :
      (target last : String) (adjs : List String) (t : Stamping C) (spfs : List String)
      → Steady t (open_spoofed w s o target last adjs (t, spfs)).0
  unfolding open_spoofed
  open_spoofed-Steady target last adjs t [] = stays t
  open_spoofed-Steady target last adjs t (spf ∷ spfs) =
      let ready : Stamping C = record t {
        to_spoof =
            add_all_spoofers t.e.rt.src (spf ∷ spfs) (map (adjacent_probe last) adjs) t.to_spoof;
      } in
      steady_trans t ready _ record { same = refl; still_shown = λ all. all }
        (unresponsive-Steady w s target ready)

  pub open_round-Steady :
      (target last : String) (adjs : List String) (t : Stamping C)
      → Steady t (open_round w s o target last adjs t).0
  unfolding open_round ask_spoofers
  open_round-Steady target last adjs t =
      let got = ask_spoofers w s o t in
      if-holds (λ (opened : Stamping C × Opening). Steady t opened.0)
        (or_zero false (fetch t.stamps_zero target)) {a = (t, issues [])} (stays t)
        (if-holds (λ (opened : Stamping C × Opening). Steady t opened.0)
          (not (or_zero false (fetch (or_zero [] (fetch t.send_spoofed t.e.rt.src)) target)))
          {a = (t, issues (map (adjacent_probe last) adjs))}
          {b = open_spoofed w s o target last adjs got} (stays t)
          (steady_trans t got.0 _ record { same = refl; still_shown = λ all. all }
            (open_spoofed-Steady target last adjs got.0 got.1)))

  expect-Steady :
      (o : Option Bool) (src hop : String) (t : Stamping C)
      → Steady t (elim o [ none ↦ set_send_spoofed w s src hop true t | some _ ↦ t ])
  expect-Steady none src hop t = set_send_spoofed-Steady w s src hop true t
  expect-Steady (some b) src hop t = stays t

  expect_answers-Steady :
      (probes : List Probe) (t : Stamping C) → Steady t (expect_answers w s o probes t)
  unfolding expect_answers
  expect_answers-Steady [] t = stays t
  expect_answers-Steady ([] ∷ probes) t = expect_answers-Steady probes t
  expect_answers-Steady ((hop ∷ rest) ∷ probes) t =
      steady_trans t _ _
        (expect-Steady (fetch (or_zero [] (fetch t.send_spoofed t.e.rt.src)) hop) t.e.rt.src hop t)
        (expect_answers-Steady probes _)

  spoof_unanswered-Steady :
      (probes : List Probe) (t : Stamping C) → Steady t (spoof_unanswered w s o probes t)
  unfolding spoof_unanswered ask_spoofers
  spoof_unanswered-Steady [] t = stays t
  spoof_unanswered-Steady ([] ∷ probes) t = spoof_unanswered-Steady probes t
  spoof_unanswered-Steady ((hop ∷ rest) ∷ probes) t =
      let got = ask_spoofers w s o t in
      let ready : Stamping C = record got.0 {
        to_spoof = add_spoofers got.0.e.rt.src got.1 (hop ∷ rest) got.0.to_spoof;
      } in
      steady_trans t _ _
        (if-Steady (or_zero false (fetch (or_zero [] (fetch t.send_spoofed t.e.rt.src)) hop)) t
          (unresponsive w s hop ready) t
          (steady_trans t ready _ record { same = refl; still_shown = λ all. all }
            (unresponsive-Steady w s hop ready))
          (stays t))
        (spoof_unanswered-Steady probes _)

  pub issue_probes-Steady :
      (probes : List Probe) (t : Stamping C) → Steady t (issue_probes w s o probes t)
  unfolding issue_probes
  issue_probes-Steady [] t = stays t
  issue_probes-Steady (p ∷ probes) t =
      let expecting = expect_answers w s o (p ∷ probes) t in
      let counted : Stamping C = record expecting { ts_probes = expecting.ts_probes + 1 } in
      let issued =
        issue_timestamps w s o.use_cache ((t.e.rt.src, p ∷ probes) ∷ []) (check_for_rev_hop w s)
          counted in
      steady_trans t issued _
        (steady_trans t counted issued
          (steady_trans t expecting counted (expect_answers-Steady (p ∷ probes) t)
            record { same = refl; still_shown = λ all. all })
          (issue_timestamps-Steady w s o.use_cache _ (check_for_rev_hop w s)
            (check_for_rev_hop-Steady w s) counted))
        (spoof_unanswered-Steady (p ∷ probes) issued)

  pub issue_spoofed-Steady : (t : Stamping C) → Steady t (issue_spoofed w s o t)
  unfolding issue_spoofed
  issue_spoofed-Steady t =
      let counted : Stamping C = record t {
        spoofed_ts_probes = t.spoofed_ts_probes + count_spoofers t.to_spoof;
      } in
      if-Steady (length t.to_spoof == 0) t counted _
        record { same = refl; still_shown = λ all. all }
        (steady_trans t counted _ record { same = refl; still_shown = λ all. all }
          (issue_spoofed_timestamps-Steady w s o.use_cache t.to_spoof (check_for_rev_hop w s)
            (check_for_rev_hop-Steady w s) counted))

  pub check_linux-Steady : (n : ℕ) (t : Stamping C) → Steady t (check_linux w s o n t)
  unfolding check_linux
  check_linux-Steady n t =
      let checks = linux_checks (s.visit_checks t.linux_bugs) ([], []) in
      let counted : Stamping C = record t { ts_probes = t.ts_probes + n } in
      let straight = issue_timestamps w s o.use_cache checks.0 (check_for_linux_bug w s) counted in
      let again : Stamping C = record straight {
        spoofed_ts_probes = straight.spoofed_ts_probes + count_spoofers straight.to_spoof;
      } in
      if-Steady (length t.linux_bugs == 0) t t _ (stays t) (
        steady_trans t again _
          (steady_trans t counted again record { same = refl; still_shown = λ all. all }
            (steady_trans counted straight again
              (issue_timestamps-Steady w s o.use_cache checks.0 (check_for_linux_bug w s)
                (check_for_linux_bug-Steady w s) counted)
              record { same = refl; still_shown = λ all. all }))
          (issue_spoofed_timestamps-Steady w s o.use_cache checks.1 (check_for_linux_bug w s)
            (check_for_linux_bug-Steady w s) again))

  spoof_zeros-Steady :
      (zeros : List (String × String × String)) (t : Stamping C)
      → Steady t (spoof_zeros w s o zeros t)
  unfolding spoof_zeros ask_spoofers
  spoof_zeros-Steady [] t = stays t
  spoof_zeros-Steady ((src, dst, ip) ∷ zeros) t =
      steady_trans t _ _ record { same = refl; still_shown = λ all. all }
        (spoof_zeros-Steady zeros _)

  pub check_zeros-Steady : (t : Stamping C) → Steady t (check_zeros w s o t)
  unfolding check_zeros
  check_zeros-Steady t =
      let emptied : Stamping C = record t { to_spoof = [] } in
      let ready = spoof_zeros w s o t.does_not_stamp emptied in
      let is_ready =
        steady_trans t emptied ready record { same = refl; still_shown = λ all. all }
          (spoof_zeros-Steady t.does_not_stamp emptied) in
      if-Steady (length t.does_not_stamp == 0) t ready _ is_ready (
        steady_trans t ready _ is_ready (
          issue_spoofed_timestamps-Steady w s o.use_cache ready.to_spoof (dest_does_not_stamp w s)
            (dest_does_not_stamp-Steady w s) ready))

  pub verify_zeros-Steady : (t : Stamping C) → Steady t (verify_zeros w s o t)
  unfolding verify_zeros
  verify_zeros-Steady t = if-Steady (length t.to_verify == 0) t t _ (stays t) (
      issue_timestamps-Steady w s o.use_cache (four_times t.to_verify) (verify_only w s)
        (λ src vp p t. stays t) t)

  -- All probes of a round.
  pub probing-Steady :
      (n : ℕ) (probes : List Probe) (t : Stamping C)
      → Steady t (
          verify_zeros w s o (
            check_zeros w s o
              (check_linux w s o n (issue_spoofed w s o (issue_probes w s o probes t)))))
  probing-Steady n probes t =
      let a = issue_probes w s o probes t in
      let b = issue_spoofed w s o a in
      let c = check_linux w s o n b in
      let d = check_zeros w s o c in
      steady_trans t a _ (issue_probes-Steady probes t) (
        steady_trans a b _ (issue_spoofed-Steady a) (
          steady_trans b c _ (check_linux-Steady n b)
            (steady_trans c d _ (check_zeros-Steady c) (verify_zeros-Steady d))))
