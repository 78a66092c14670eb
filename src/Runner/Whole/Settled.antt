-- ===== src/Runner/Whole/Settled.antt =====
-- What `run` of revtr/runner/revtr_runner.go returns: the traceroute says why it has ended.
use reverse_traceroute_publi.Base.{
  ℕ, ◌≡◌, sym, inl, panics, runs_on, gives, Result, Holds, >>>-Holds, of_option, of_option-Holds,
  any-Holds, ◌⊎◌, Holds-map, Bool, false, not, ◌&&◌, Option, none, some, Sat, >>=-Sat, >>=-Sat_any,
  if-holds, subst, if◌then◌else◌,
}
use reverse_traceroute_publi.StringUtil.Sets.{VisitsAll}
use reverse_traceroute_publi.Revtr.{Revtr, trivial, revtr_reaches}
use reverse_traceroute_publi.Revtr.Add.Stack.{Rearranges}
use reverse_traceroute_publi.Runner.Symmetric.{
  Step, backoff_endhost_step, tr_to_source_step, record_route_step, timestamp_step,
  background_trs_step, assume_symmetric_step, initial_step, Outcome, backoff_endhost,
}
use reverse_traceroute_publi.Runner.Symmetric.Stops.{assume_symmetric-Stops}
use reverse_traceroute_publi.Runner.Engine.{Engine}
use reverse_traceroute_publi.Runner.TrToSource.{tr_to_source}
use reverse_traceroute_publi.Runner.RecordRoute.{record_route}
use reverse_traceroute_publi.Runner.RecordRoute.Adds.{Reached, revtr_reaches-Reached}
use reverse_traceroute_publi.Runner.RecordRoute.Progress.{is_failed-failed}
use reverse_traceroute_publi.Runner.Timestamp.{Progress, panicked, unfinished, done, timestamp}
use reverse_traceroute_publi.Runner.Traceroutes.{forward_traceroute, rtt_pings}
use reverse_traceroute_publi.Runner.Run.{run, is_failed}
use reverse_traceroute_publi.Runner.Run.Endings.{Ended, NeverDone, RunsOn, Finishes, run_loop-Ended}
use reverse_traceroute_publi.Runner.Whole.{
  Whole, Setting, rt_of, assume, back_off, of_outcome, of_stepped, of_progress, take_step, cancel,
  run_forward, run_rtt_pings, finish, whole_run,
}
use reverse_traceroute_publi.Runner.Whole.Outcomes.{
  Settled, StepSettled, OutcomeSettled, ProgressSettled, Stops-OutcomeSettled,
  backed_off-OutcomeSettled, tr_to_source-StepSettled, record_route_loop-StepSettled,
  timestamp-ProgressSettled,
}

module _ {C : Type 0} (c : Setting C) (all : VisitsAll c.world.visit)
    (arranged : Rearranges c.world.sorted) where
  -- A step that has nothing next leaves a state that `finish` may return.
  abbrev Over : Whole C × Option Step → Type 0
  Over (s, none) = Settled s
  Over (s, some next) = Unit

  outcome-Over :
      (s : Whole C) (o : Outcome) → Sat OutcomeSettled o → Holds Unit Over (of_outcome s o)
  outcome-Over s none settled = tt
  outcome-Over s (some (rt, none)) settled = inl settled
  outcome-Over s (some (rt, some next)) settled = tt

  stepped-Over :
      (s : Whole C) (r : Result (Engine C × Option Step))
      → Holds Unit StepSettled r
      → Holds Unit Over (of_stepped s r)
  stepped-Over s panics settled = tt
  stepped-Over s runs_on settled = tt
  stepped-Over s (gives (e, none)) settled = settled
  stepped-Over s (gives (e, some next)) settled = tt

  progress-Over :
      (s : Whole C) (p : Progress C) → ProgressSettled p → Holds Unit Over (of_progress s p)
  progress-Over s panicked settled = tt
  progress-Over s unfinished settled = tt
  progress-Over s (done t none) settled = inl settled
  progress-Over s (done t (some next)) settled = tt

  assume-OutcomeSettled : (rt : Revtr) → Sat OutcomeSettled (assume c rt)
  assume-OutcomeSettled rt = Stops-OutcomeSettled (assume c rt) (
      assume_symmetric-Stops c.world.net c.world.visit c.world.cm c.world.sorted c.asn c.hear
        c.is_allow_interdomain c.world.now rt)

  back_off-OutcomeSettled : (rt : Revtr) → Sat OutcomeSettled (back_off c rt)
  unfolding backoff_endhost
  back_off-OutcomeSettled rt =
      >>=-Sat OutcomeSettled OutcomeSettled (assume c rt) _ (assume-OutcomeSettled rt)
        (λ next settled.
          >>=-Sat (Reached c.world.now next.0) OutcomeSettled
            (revtr_reaches c.world.cm c.world.now next.0) _
            (revtr_reaches-Reached c.world.cm c.world.now next.0)
            (λ r is_reached.
              subst
                (λ (r : Revtr × Bool). OutcomeSettled (
                  if r.1 then record r.0 { stop_reason = trivial; end_time = c.world.now } else r.0,
                  next.1,
                ))
                (sym is_reached.1)
                (backed_off-OutcomeSettled c.world.now next.0 next.1 is_reached.0 settled)))

  take_step-Over :
      (step : Step) (s : Whole C)
      → c.options.check_tunnel ≡ false
      → Holds Unit Over (take_step c step s)
  unfolding take_step record_route
  take_step-Over backoff_endhost_step s off =
      outcome-Over s (back_off c (rt_of s)) (back_off-OutcomeSettled (rt_of s))
  take_step-Over tr_to_source_step s off =
      stepped-Over s (of_option (tr_to_source c.world c.options s.stamping.e)) (
        of_option-Holds Unit StepSettled (tr_to_source c.world c.options s.stamping.e)
          (tr_to_source-StepSettled c.world c.options s.stamping.e))
  take_step-Over record_route_step s off =
      stepped-Over s (record_route c.world c.options c.check_rounds c.rr_rounds s.stamping.e) (
        (record_route_loop-StepSettled c.world c.options all arranged c.check_rounds c.rr_rounds off
          _))
  take_step-Over timestamp_step s off =
      progress-Over s (timestamp c.world c.ts_services c.options c.ts_rounds s.stamping) (
        timestamp-ProgressSettled c.world c.options all arranged c.ts_services c.ts_rounds
          s.stamping)
  take_step-Over background_trs_step s off = tt
  take_step-Over assume_symmetric_step s off =
      outcome-Over s (assume c (rt_of s)) (assume-OutcomeSettled (rt_of s))

  -- What runs behind the loop keeps the reason.
  finish-Settled : (s : Whole C) → Settled s → Holds Unit Settled (finish c s)
  unfolding finish run_forward run_rtt_pings
  finish-Settled s settled =
      >>>-Holds Unit Settled Settled (run_forward c s) (λ s'. of_option (run_rtt_pings c s'))
        (if-holds (Holds Unit Settled) c.is_run_forward {b = gives s}
          (>>>-Holds Unit (λ id. Unit) Settled
            (forward_traceroute c.world c.trace_services c.star_rounds (rt_of s)
              s.forward_traceroute_id)
            _ (any-Holds Unit _ (λ stays. tt)) (λ id u. settled))
          settled)
        (λ s' settled'. of_option-Holds Unit Settled (run_rtt_pings c s') (
          if-holds (Sat Settled) (c.is_run_rtt_pings && not (is_failed (rt_of s').stop_reason))
            {b = some s'}
            (>>=-Sat_any Settled (rtt_pings c.world c.trace_services (rt_of s') s'.rtt_by_hop) _
              (λ by_hop. settled'))
            settled'))

  Over-Finishes : (r : Whole C × Option Step) → Over r → Finishes (finish c) Settled r
  Over-Finishes (s, none) over = finish-Settled s over
  Over-Finishes (s, some next) over = tt

  -- After any number of rounds, whatever the services answer, a run in which tunnels are not checked
  -- has panicked; or it has returned a traceroute that says why it has ended: its stop reason is set,
  -- or its fail reason is that a traceroute of the atlas could not be added; or it is still running,
  -- and then its steps have led to one that runs on, a loop of it having taken as many rounds as it
  -- was given, or to such a loop behind the steps, or the context was not done in any of the rounds.
  -- The order of each map is one that visits every entry, and sorting makes up no segment.
  pub whole_run-Settled :
      (is_done : ℕ → Bool) (rounds : ℕ) (s : Whole C)
      → c.options.check_tunnel ≡ false
      → Ended
          (RunsOn (finish c) (take_step c) (initial_step (rt_of s)) s ⊎ NeverDone is_done 0 rounds)
          Settled
          (whole_run c is_done rounds s)
  unfolding whole_run run
  whole_run-Settled is_done rounds s off =
      run_loop-Ended rt_of (cancel c) (finish c) (take_step c) is_done Settled (λ s'. inl (λ e. cc))
        (λ s' failed_before.
          finish-Settled s'
            (inl (λ e. cc (is_failed-failed (rt_of s').stop_reason failed_before, e))))
        (λ step s'.
          Holds-map Unit Over (Finishes (finish c) Settled) (take_step c step s') Over-Finishes
            (take_step-Over step s' off))
        rounds 0 (initial_step (rt_of s)) s
