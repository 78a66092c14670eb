-- ===== src/Runner/Timestamp.antt =====
-- `timestamp` of revtr/runner/revtr_runner.go: the step that probes the neighbours of the last hop for
-- timestamps. What the code collects and never reads is left out: `dstsDoNotStamp`, and the hops that
-- it verifies at the end.
pub mod Probing
pub mod Ends
pub mod HandsOver
use reverse_traceroute_publi.Base.{
  ℕ, zero, suc, ◌+◌, Bool, true, false, not, List, [], ◌∷◌, ◌++◌, map, String, str_eq, Option, none,
  some, ◌>>=◌, length, take, ltb, ◌==◌, if◌then◌else◌, Dict, fetch, store, or_zero,
}
use reverse_traceroute_publi.StringUtil.{non_spoofed}
use reverse_traceroute_publi.Revtr.{Revtr, revtr_last_hop, ts_is_responsive}
use reverse_traceroute_publi.Revtr.Probes.{get_ts_adjacents}
use reverse_traceroute_publi.Revtr.Spoofers.{get_timestamp_spoofers}
use reverse_traceroute_publi.Runner.Symmetric.{Step, tr_to_source_step, background_trs_step}
use reverse_traceroute_publi.Runner.Engine.{Options, World, Engine}
use reverse_traceroute_publi.Runner.Issue.{text_of}
use reverse_traceroute_publi.Runner.RecordRoute.{Round, again, ends, add_found}
use reverse_traceroute_publi.Runner.Slots.{
  Probe, Probes, Receivers, Keyed, add_probe, fetch_keyed, TsServices, Stamping,
}
use reverse_traceroute_publi.Runner.Stamps.{
  set_send_spoofed, unresponsive, check_for_rev_hop, check_for_linux_bug, dest_does_not_stamp,
  verify_only, issue_timestamps, issue_spoofed_timestamps,
}

-- `dummyIP`.
abbrev pub dummy_ip : String
dummy_ip = "128.208.3.77"

-- The probes of the neighbours: `{LastHop, LastHop, adj, adj}`.
abbrev pub adjacent_probe : String → String → Probe
adjacent_probe last adj = last ∷ last ∷ adj ∷ adj ∷ []

-- How a round begins: it ends the step, or sends nothing, probes that are not spoofed, or spoofed ones.
pub data Opening : Type 0 where
  gives_up : Opening
  issues : List Probe → Opening

-- What comes of some rounds of the loop.
pub data Progress (C : Type 0) : Type 0 where
  panicked unfinished : Progress C
  done : Stamping C → Option Step → Progress C

-- The probes that check for the bug, not spoofed and spoofed.
unfoldable pub linux_checks : Keyed (List String) → Probes × Receivers → Probes × Receivers
unfolding add_probe fetch store
linux_checks [] found = found
linux_checks ((src ∷ dst ∷ vp ∷ rest, hops) ∷ bugs) found =
    let p = dst ∷ dst ∷ dummy_ip ∷ dummy_ip ∷ [] in
    linux_checks bugs (
      if str_eq vp non_spoofed
      then (store found.0 src (or_zero [] (fetch found.0 src) ++ (p ∷ [])), found.1)
      else (found.0, add_probe found.1 src vp p))
linux_checks ((key, hops) ∷ bugs) found = linux_checks bugs found

-- The number of the spoofers of all receivers.
unfoldable pub count_spoofers : Receivers → ℕ
count_spoofers [] = 0
count_spoofers ((recv, spoofers) ∷ rs) = length spoofers + count_spoofers rs

-- A probe for each spoofer, and for each probe of a list.
unfoldable pub add_spoofers : String → List String → Probe → Receivers → Receivers
unfolding add_probe
add_spoofers recv [] p rs = rs
add_spoofers recv (spoofer ∷ spoofers) p rs =
    add_spoofers recv spoofers p (add_probe rs recv spoofer p)

unfoldable pub add_all_spoofers : String → List String → List Probe → Receivers → Receivers
unfolding add_spoofers
add_all_spoofers recv spoofers [] rs = rs
add_all_spoofers recv spoofers (p ∷ ps) rs =
    add_all_spoofers recv spoofers ps (add_spoofers recv spoofers p rs)

-- Each list of probes four times.
unfoldable pub four_times : Probes → Probes
four_times [] = []
four_times ((vp, probes) ∷ issue) =
    (vp, (probes ++ probes) ++ (probes ++ probes)) ∷ four_times issue

module _ {C : Type 0} (w : World C) (s : TsServices) (o : Options) where
  -- A call of `GetTimestampSpoofers`.
  unfoldable pub ask_spoofers : Stamping C → Stamping C × List String
  unfolding get_timestamp_spoofers
  ask_spoofers t = (
    record t { ts_spoofers_asked = suc t.ts_spoofers_asked },
    get_timestamp_spoofers w.ip_net (s.get_ts_spoofers t.ts_spoofers_asked),
  )

  -- The three cases at the start of a round.
  unfoldable pub open_spoofed :
      String → String → List String → Stamping C × List String → Stamping C × Opening
  unfolding add_all_spoofers
  open_spoofed target last adjs (t, []) = (t, gives_up)
  open_spoofed target last adjs (t, spf ∷ spfs) = (
    unresponsive w s target (record t {
      to_spoof =
          add_all_spoofers t.e.rt.src (spf ∷ spfs) (map (adjacent_probe last) adjs) t.to_spoof;
    }),
    issues [],
  )

  unfoldable pub open_round : String → String → List String → Stamping C → Stamping C × Opening
  unfolding open_spoofed ask_spoofers
  open_round target last adjs t =
      if or_zero false (fetch t.stamps_zero target)
      then (t, issues [])
      else if not (or_zero false (fetch (or_zero [] (fetch t.send_spoofed t.e.rt.src)) target))
      then (t, issues (map (adjacent_probe last) adjs))
      else open_spoofed target last adjs (ask_spoofers t)

  -- Before the probes are issued: an answer is still to come from their destinations.
  unfoldable pub expect_answers : List Probe → Stamping C → Stamping C
  unfolding set_send_spoofed
  expect_answers [] t = t
  expect_answers ([] ∷ probes) t = expect_answers probes t
  expect_answers ((hop ∷ rest) ∷ probes) t =
      expect_answers probes (elim (fetch (or_zero [] (fetch t.send_spoofed t.e.rt.src)) hop) [
        | none ↦ set_send_spoofed w s t.e.rt.src hop true t
        | some _ ↦ t
      ])

  -- After them: without an answer the probes are spoofed.
  unfoldable pub spoof_unanswered : List Probe → Stamping C → Stamping C
  unfolding ask_spoofers add_spoofers
  spoof_unanswered [] t = t
  spoof_unanswered ([] ∷ probes) t = spoof_unanswered probes t
  spoof_unanswered ((hop ∷ rest) ∷ probes) t =
      let got = ask_spoofers t in
      let spoofed = unresponsive w s hop (record got.0 {
        to_spoof = add_spoofers got.0.e.rt.src got.1 (hop ∷ rest) got.0.to_spoof;
      }) in
      let is_unanswered =
        or_zero false (fetch (or_zero [] (fetch t.send_spoofed t.e.rt.src)) hop) in
      spoof_unanswered probes (if is_unanswered then spoofed else t)

  unfoldable pub issue_probes : List Probe → Stamping C → Stamping C
  unfolding issue_timestamps check_for_rev_hop expect_answers spoof_unanswered
  issue_probes [] t = t
  issue_probes (p ∷ probes) t =
      let expecting = expect_answers (p ∷ probes) t in
      spoof_unanswered (p ∷ probes) (
        issue_timestamps w s o.use_cache ((t.e.rt.src, p ∷ probes) ∷ []) (check_for_rev_hop w s)
          (record expecting { ts_probes = expecting.ts_probes + 1 }))

  unfoldable pub issue_spoofed : Stamping C → Stamping C
  unfolding issue_spoofed_timestamps check_for_rev_hop count_spoofers
  issue_spoofed t =
      let counted : Stamping C = record t {
        spoofed_ts_probes = t.spoofed_ts_probes + count_spoofers t.to_spoof;
      } in
      if length t.to_spoof == 0
      then counted
      else issue_spoofed_timestamps w s o.use_cache t.to_spoof (check_for_rev_hop w s) counted

  -- The checks for the bug; `n` is the number of the sources of the probes of this round.
  unfoldable pub check_linux : ℕ → Stamping C → Stamping C
  unfolding issue_timestamps issue_spoofed_timestamps check_for_linux_bug linux_checks
      count_spoofers
  check_linux n t =
      let checks = linux_checks (s.visit_checks t.linux_bugs) ([], []) in
      let straight =
        issue_timestamps w s o.use_cache checks.0 (check_for_linux_bug w s)
          (record t { ts_probes = t.ts_probes + n }) in
      if length t.linux_bugs == 0
      then t
      else issue_spoofed_timestamps w s o.use_cache checks.1 (check_for_linux_bug w s)
          (record straight {
            spoofed_ts_probes = straight.spoofed_ts_probes + count_spoofers straight.to_spoof;
          })

  -- The destinations that do not stamp.
  unfoldable pub spoof_zeros : List (String × String × String) → Stamping C → Stamping C
  unfolding ask_spoofers add_spoofers
  spoof_zeros [] t = t
  spoof_zeros ((src, dst, ip) ∷ zeros) t =
      let got = ask_spoofers t in
      spoof_zeros zeros (record got.0 {
        to_spoof = add_spoofers src got.1 (dst ∷ ip ∷ ip ∷ ip ∷ ip ∷ []) got.0.to_spoof;
      })

  unfoldable pub check_zeros : Stamping C → Stamping C
  unfolding spoof_zeros issue_spoofed_timestamps dest_does_not_stamp
  check_zeros t =
      let ready = spoof_zeros t.does_not_stamp (record t { to_spoof = [] }) in
      if length t.does_not_stamp == 0
      then ready
      else issue_spoofed_timestamps w s o.use_cache ready.to_spoof (dest_does_not_stamp w s) ready

  unfoldable pub verify_zeros : Stamping C → Stamping C
  unfolding issue_timestamps four_times
  verify_zeros t =
      if length t.to_verify == 0
      then t
      else issue_timestamps w s o.use_cache (four_times t.to_verify) (verify_only w s) t

  -- The end of a round, with the segments that were shown for the last hop.
  unfoldable pub add_shown : Stamping C → Option (Stamping C × Round)
  unfolding add_found fetch_keyed
  add_shown t = revtr_last_hop t.e.rt >>= λ last.
      elim (fetch_keyed t.rev_hops (t.e.rt.src ∷ last ∷ [])) [
        | none ↦ some (t, again)
        | some segs ↦ add_found w o tr_to_source_step segs t.e >>= λ added.
            some (record t { e = added.0 }, added.1)
      ]

  -- A round from its probes on.
  unfoldable pub probe_stamps : List Probe → Stamping C → Option (Stamping C × Round)
  unfolding issue_probes issue_spoofed check_linux check_zeros verify_zeros add_shown
  probe_stamps probes t = add_shown (
      verify_zeros (
        check_zeros (
          check_linux (if length probes == 0 then 0 else 1)
            (issue_spoofed (issue_probes probes t)))))

  -- The variables of a round begin empty; `to_spoof` is declared before the loop.
  abbrev pub fresh_round : Stamping C → Stamping C
  fresh_round t = record t { rev_hops = []; linux_bugs = []; does_not_stamp = []; to_verify = [] }

  abbrev pub after_opening : Stamping C × Opening → Option (Stamping C × Round)
  after_opening (t, gives_up) = some (t, ends (some background_trs_step))
  after_opening (t, issues probes) = probe_stamps probes (fresh_round t)

  -- One round of the loop.
  unfoldable pub timestamp_round : String → Stamping C → Option (Stamping C × Round)
  unfolding get_ts_adjacents open_round probe_stamps
  timestamp_round target t =
      let got = get_ts_adjacents s.adjacencies target t.e.rt in
      let ready : Stamping C = record t { e = record t.e { rt = got.0 } } in
      if length got.1 == 0
      then some (ready, ends (some background_trs_step))
      else revtr_last_hop got.0 >>= λ last. after_opening (open_round target last got.1 ready)

  -- How the loop stands after some rounds.
  unfoldable pub timestamp_loop : String → ℕ → Stamping C → Progress C
  unfolding timestamp_round
  timestamp_loop target zero t = unfinished
  timestamp_loop target (suc rounds) t = elim (timestamp_round target t) [
    | none ↦ panicked
    | some (t', again) ↦ timestamp_loop target rounds t'
    | some (t', ends next) ↦ done t' next
  ]

  -- `timestamp`.
  unfoldable pub timestamp : ℕ → Stamping C → Progress C
  unfolding timestamp_loop
  timestamp rounds t =
      let counted : Stamping C = record t {
        ts_round_count = t.ts_round_count + 1;
        to_spoof = [];
      } in
      elim (revtr_last_hop t.e.rt) [
        | none ↦ panicked
        | some target ↦
            if not (ts_is_responsive t.e.rt target)
            then done counted (some background_trs_step)
            else timestamp_loop target rounds counted
      ]
