-- ===== src/Runner/Stamps.antt =====
-- What `timestamp` of revtr/runner/revtr_runner.go makes of the answers to its probes:
-- `issueTimestamps`, `issueSpoofedTimestamps` and the functions that they call.
pub mod Shown
pub mod Steady
use reverse_traceroute_publi.Base.{
  ℕ, suc, ◌+◌, ◌-◌, ◌*◌, ◌^◌, ◌%◌, Bool, true, false, not, ◌&&◌, ◌||◌, List, [], ◌∷◌, ◌++◌, map,
  String, str_eq, Option, none, some, length, take, ltb, ◌==◌, if◌then◌else◌, ℤ, pos, Dict, fetch,
  store, or_zero,
}
use Prim.Native.String.{◌++◌ as text_append}
use reverse_traceroute_publi.StringUtil.{non_spoofed}
use reverse_traceroute_publi.Segment.{Segment}
use reverse_traceroute_publi.Segment.Create.{
  new_ts_adj_rev_segment, new_spoof_ts_adj_rev_segment,
  new_spoof_ts_adj_rev_segment_ts_zero_double_stamp,
}
use reverse_traceroute_publi.Revtr.{Revtr, ts_set_unresponsive}
use reverse_traceroute_publi.Runner.Engine.{World, Engine}
use reverse_traceroute_publi.Runner.Issue.{number_of, text_of, is_private_text}
use reverse_traceroute_publi.Runner.Slots.{
  Keyed, Probe, Probes, Receivers, Stamping, TsAndAddr, TsMeasurement, TsPing, TsServices, Verdict,
  add_probe, does_not, fetch_keyed, four_slots, join_addrs, judge_slots, judge_zero, may_show,
  no_stamp, same_texts, shows, shows_nothing, store_keyed, three_slots, timestamp_addr_to_string,
}

module _ {C : Type 0} (w : World C) (s : TsServices) where
  -- `checksrctohoptosendspoofedmagic`, with what is written behind it.
  unfoldable pub set_send_spoofed : String → String → Bool → Stamping C → Stamping C
  unfolding store fetch
  set_send_spoofed src hop b t = record t {
    send_spoofed = store t.send_spoofed src (store (or_zero [] (fetch t.send_spoofed src)) hop b);
  }

  -- `TSSetUnresponsive`.
  abbrev pub unresponsive : String → Stamping C → Stamping C
  unresponsive dst t = record t { e = record t.e { rt = ts_set_unresponsive t.e.rt dst } }

  -- The segment of a hop that was shown.
  unfoldable pub stamp_segment : String → String → String → String → TsPing → Segment
  stamp_segment hop src dst vp p =
      if str_eq vp non_spoofed
      then new_ts_adj_rev_segment w.net (hop ∷ []) src dst false p.ts_measurement_id p.ts_from_cache
      else new_spoof_ts_adj_rev_segment w.net (hop ∷ []) src dst vp false p.ts_measurement_id
          p.ts_from_cache

  unfoldable pub show_hop : String → String → String → String → TsPing → Stamping C → Stamping C
  unfolding store_keyed stamp_segment
  show_hop hop src dst vp p t = record t {
    rev_hops = store_keyed t.rev_hops (src ∷ dst ∷ []) (stamp_segment hop src dst vp p ∷ []);
  }

  -- `processTSCheckForRevHop`.
  unfoldable pub heed_verdict :
      String → String → String → TsPing → Verdict → Stamping C → Stamping C
  unfolding show_hop fetch_keyed store_keyed store text_of
  heed_verdict src dst vp p (shows ip) t = show_hop (text_of w ip) src dst vp p t
  heed_verdict src dst vp p (may_show ip) t =
      let key = src ∷ dst ∷ vp ∷ [] in
      record t {
        linux_bugs =
            store_keyed t.linux_bugs key
              (or_zero [] (fetch_keyed t.linux_bugs key) ++ (text_of w ip ∷ []));
      }
  heed_verdict src dst vp p (does_not ip) t = record t {
    stamps_zero = store t.stamps_zero dst true;
    does_not_stamp = t.does_not_stamp ++ ((src, dst, text_of w ip) ∷ []);
  }
  heed_verdict src dst vp p shows_nothing t = t

  unfoldable pub heed_stamps :
      String → String → String → TsPing → List (List TsAndAddr) → Stamping C → Stamping C
  unfolding heed_verdict judge_slots
  heed_stamps src dst vp p [] t = t
  heed_stamps src dst vp p (rp ∷ rps) t = heed_verdict src dst vp p (judge_slots (three_slots rp)) t

  unfoldable pub check_for_rev_hop : String → String → TsPing → Stamping C → Stamping C
  unfolding heed_stamps set_send_spoofed text_of
  check_for_rev_hop src vp p t =
      let dst = text_of w p.ts_dst in
      let noted = if str_eq vp non_spoofed then set_send_spoofed src dst false t else t in
      heed_stamps src dst vp p p.stamps (unresponsive dst noted)

  -- `processTSCheckForLinuxBug`: the last of the hops stays.
  unfoldable pub show_hops :
      List String → String → String → String → TsPing → Stamping C → Stamping C
  unfolding show_hop
  show_hops [] src dst vp p t = t
  show_hops (hop ∷ hops) src dst vp p t = show_hops hops src dst vp p (show_hop hop src dst vp p t)

  unfoldable pub heed_second :
      String → String → String → TsPing → List (List TsAndAddr) → Stamping C → Stamping C
  unfolding show_hops set_send_spoofed fetch_keyed
  heed_second src dst vp p [] t = t
  heed_second src dst vp p ([] ∷ rps) t = t
  heed_second src dst vp p ((a ∷ []) ∷ rps) t = t
  heed_second src dst vp p ((a ∷ b ∷ rest) ∷ rps) t =
      let noted = if str_eq vp non_spoofed then set_send_spoofed src dst false t else t in
      if not (b.ts == 0)
      then noted
      else show_hops (or_zero [] (fetch_keyed t.linux_bugs (src ∷ dst ∷ vp ∷ []))) src dst vp p
          noted

  unfoldable pub check_for_linux_bug : String → String → TsPing → Stamping C → Stamping C
  unfolding heed_second text_of
  check_for_linux_bug src vp p t = heed_second src (text_of w p.ts_dst) vp p p.stamps t

  -- `processTSDestDoesNotStamp`, but for `vpDstAdjToInterestedSrcs`, which nothing reads.
  unfoldable pub heed_zero : String → String → String → TsPing → Verdict → Stamping C → Stamping C
  unfolding store_keyed store fetch text_of
  heed_zero src dst vp p (shows ip) t = record t {
    rev_hops = store_keyed t.rev_hops (src ∷ dst ∷ []) (
        new_spoof_ts_adj_rev_segment_ts_zero_double_stamp w.net (text_of w ip ∷ []) src dst vp false
          p.ts_measurement_id p.ts_from_cache
        ∷ []);
  }
  heed_zero src dst vp p (may_show ip) t =
      let hop = text_of w ip in
      record t {
        to_verify =
            store t.to_verify vp
              (or_zero [] (fetch t.to_verify vp) ++ ((dst ∷ hop ∷ hop ∷ hop ∷ hop ∷ []) ∷ []));
      }
  heed_zero src dst vp p (does_not ip) t = t
  heed_zero src dst vp p shows_nothing t = t

  unfoldable pub dest_does_not_stamp : String → String → TsPing → Stamping C → Stamping C
  unfolding heed_zero judge_zero text_of
  dest_does_not_stamp src vp p t = elim p.stamps [
    | [] ↦ t
    | rp ∷ rps ↦ heed_zero src (text_of w p.ts_dst) vp p (judge_zero (four_slots rp)) t
  ]

  -- `processTSDestDoesNotStampToVerify` writes only what nothing reads.
  abbrev pub verify_only : String → String → TsPing → Stamping C → Stamping C
  verify_only src vp p t = t

  -- The measurements of the probes of a source, and of a spoofer with its receiver. A probe has a
  -- destination.
  unfoldable pub measurements_of : String → Option String → Bool → List Probe → List TsMeasurement
  unfolding number_of is_private_text timestamp_addr_to_string
  measurements_of src receiver check [] = []
  measurements_of src receiver check ([] ∷ probes) = []
  measurements_of src receiver check ((hop ∷ rest) ∷ probes) =
      let more = measurements_of src receiver check probes in
      if is_private_text w hop
      then more
      else record {
        from = number_of w src;
        to = number_of w hop;
        receiver = receiver;
        time_stamp = timestamp_addr_to_string (hop ∷ rest);
        is_cached = check;
      }
        ∷ more

  unfoldable pub measurements : Option String → Bool → Probes → List TsMeasurement
  unfolding measurements_of
  measurements receiver check [] = []
  measurements receiver check ((src, probes) ∷ issue) =
      measurements_of src receiver check probes ++ measurements receiver check issue

  unfoldable pub spoofed_measurements : Bool → Receivers → List TsMeasurement
  unfolding measurements
  spoofed_measurements check [] = []
  spoofed_measurements check ((recv, spoofers) ∷ issue) =
      measurements (some recv) check (s.visit_probes spoofers) ++ spoofed_measurements check issue

  -- `fn` for each ping.
  unfoldable pub heed_all :
      (String → String → TsPing → Stamping C → Stamping C)
      → Bool
      → List TsPing
      → Stamping C
      → Stamping C
  unfolding text_of
  heed_all fn is_spoofed [] t = t
  heed_all fn is_spoofed (p ∷ ps) t = heed_all fn is_spoofed ps (
      fn (text_of w p.ts_src) (if is_spoofed then text_of w p.ts_spoofed_from else non_spoofed) p t)

  abbrev pub asked : Stamping C → Stamping C
  asked t = record t { ts_pings_asked = suc t.ts_pings_asked }

  -- `issueTimestamps` and `issueSpoofedTimestamps`.
  unfoldable pub issue_timestamps :
      Bool → Probes → (String → String → TsPing → Stamping C → Stamping C) → Stamping C → Stamping C
  unfolding heed_all measurements
  issue_timestamps check issue fn t =
      heed_all fn false
        (s.ts_ping t.ts_pings_asked (measurements none check (s.visit_probes issue))) (asked t)

  unfoldable pub issue_spoofed_timestamps :
      Bool
      → Receivers
      → (String → String → TsPing → Stamping C → Stamping C)
      → Stamping C
      → Stamping C
  unfolding heed_all spoofed_measurements
  issue_spoofed_timestamps check issue fn t =
      heed_all fn true
        (s.ts_ping t.ts_pings_asked (spoofed_measurements check (s.visit_receivers issue)))
        (asked t)
