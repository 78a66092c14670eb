-- ===== src/Examples/Runs.antt =====
-- The theorems on whole runs at concrete inputs.
use reverse_traceroute_publi.Base.{
  ◌≡◌, ◌⊎◌, runs_on, gives, if◌then◌else◌, refl, true, false, List, [], ◌∷◌, map, String, some,
  none, ◌==◌, pos, Dict, arith,
}
use reverse_traceroute_publi.Runner.Issue.{text_of}
use reverse_traceroute_publi.Runner.Traceroutes.{TraceHop, TraceServices, trace_texts}
use reverse_traceroute_publi.Runner.Traceroutes.Stars.{has_wrapping_ttl, trace_texts-map}
use reverse_traceroute_publi.Runner.Run.Endings.{Ended, NeverDone, RunsOn}
use reverse_traceroute_publi.Runner.Whole.{Whole, Setting, take_step, finish, whole_run}
use reverse_traceroute_publi.Revtr.{new_reverse_traceroute}
use reverse_traceroute_publi.Runner.Symmetric.{tr_to_source_step}
use reverse_traceroute_publi.Runner.Whole.Outcomes.{Settled}
use reverse_traceroute_publi.Runner.Whole.Settled.{whole_run-Settled}
use reverse_traceroute_publi.Examples.Sample.{own_order-VisitsAll, as_it_is-Rearranges}
use reverse_traceroute_publi.Examples.Rounds.{sample_world, ts_services, stamping, no_options}

-- A traceroute in which the hops 2 and 3 did not answer.
abbrev gaps : List TraceHop
gaps =
    record { hop_addr = 1; probe_ttl = 1 }
    ∷ record { hop_addr = 4; probe_ttl = 4 }
    ∷ record { hop_addr = 2; probe_ttl = 5 }
    ∷ []

abbrev trace_services : TraceServices
trace_services = record {
  traceroute = λ src dst check. some (
      record {
        has_error = false;
        trace_dst = 2;
        hops_of_trace = gaps;
        trace_id = pos 8;
        is_from_cache = false;
      }
      ∷ []);
  rtt_ping = λ src dsts. [];
}

trace_texts-map_example : trace_texts sample_world trace_services 100 gaps ≡ (
    if has_wrapping_ttl gaps
    then runs_on
    else gives (map (λ (hop : TraceHop). text_of sample_world hop.hop_addr) gaps))
trace_texts-map_example =
    trace_texts-map sample_world trace_services 100 gaps
      (omega arith, (omega arith, (omega arith, tt)))

abbrev sample_setting : Setting (Dict String)
sample_setting = record {
  world = sample_world;
  ts_services = ts_services;
  trace_services = trace_services;
  options = no_options;
  asn = λ s. pos 64500;
  hear = λ src dst. none;
  is_allow_interdomain = true;
  check_rounds = 3;
  rr_rounds = 5;
  ts_rounds = 5;
  star_rounds = 100;
  is_run_forward = true;
  is_run_rtt_pings = true;
}

abbrev begun : Whole (Dict String)
begun = record { stamping = stamping; forward_traceroute_id = pos 0; rtt_by_hop = [] }

-- The run reaches the source: a record of the route leads to 7.7.7.7, and one from there to the source.
whole_run-Settled_example :
    Ended
      (RunsOn (finish sample_setting) (take_step sample_setting) tr_to_source_step begun
        ⊎ NeverDone (λ i. i == 20) 0 21)
      Settled
      (whole_run sample_setting (λ i. i == 20) 21 begun)
unfolding new_reverse_traceroute
whole_run-Settled_example =
    whole_run-Settled sample_setting own_order-VisitsAll as_it_is-Rearranges (λ i. i == 20) 21 begun
      refl
