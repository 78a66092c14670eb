-- ===== src/Runner/Whole.antt =====
-- The steps of revtr/runner/revtr_runner.go put together: the state of a run, each step on it, what
-- `run` does behind its loop, and the run itself.
pub mod Outcomes
pub mod Settled
use reverse_traceroute_publi.Base.{
  ℕ, ◌+◌, Bool, true, false, not, ◌&&◌, Option, none, some, ◌>>=◌, ◌>>>◌, Result, panics, runs_on,
  gives, of_option, String, if◌then◌else◌, ℤ, NatDict,
}
use reverse_traceroute_publi.Revtr.{Revtr, canceled}
use reverse_traceroute_publi.Revtr.Storable.{RttMeasurement}
use reverse_traceroute_publi.Runner.Symmetric.{
  Step, backoff_endhost_step, tr_to_source_step, record_route_step, timestamp_step,
  background_trs_step, assume_symmetric_step, Outcome, TracerouteHops, background_trs,
  assume_symmetric, backoff_endhost,
}
use reverse_traceroute_publi.Runner.Engine.{Options, World, Engine}
use reverse_traceroute_publi.Runner.TrToSource.{tr_to_source}
use reverse_traceroute_publi.Runner.RecordRoute.{record_route}
use reverse_traceroute_publi.Runner.Slots.{TsServices, Stamping}
use reverse_traceroute_publi.Runner.Timestamp.{Progress, panicked, unfinished, done, timestamp}
use reverse_traceroute_publi.Runner.Traceroutes.{TraceServices, forward_traceroute, rtt_pings}
use reverse_traceroute_publi.Runner.Run as Run

-- The state of a run: `ForwardTracerouteID` and `RTTByHop` are written behind the loop.
pub record Whole (C : Type 0) : Type 0 where
  pub stamping : Stamping C
  pub forward_traceroute_id : ℤ
  pub rtt_by_hop : NatDict RttMeasurement

-- `hear` is what `assumeSymmetric` hears of `issueTraceroute`, `asn` the tree of autonomous systems.
-- The rounds are those that the loops of the steps, and that for the stars, are given.
pub record Setting (C : Type 0) : Type 0 where
  pub world : World C
  pub ts_services : TsServices
  pub trace_services : TraceServices
  pub options : Options
  pub asn : String → ℤ
  pub hear : String → String → Option TracerouteHops
  pub is_allow_interdomain : Bool
  pub check_rounds : ℕ
  pub rr_rounds : ℕ
  pub ts_rounds : ℕ
  pub star_rounds : ℕ
  pub is_run_forward : Bool
  pub is_run_rtt_pings : Bool

abbrev pub rt_of : {C : Type 0} → Whole C → Revtr
rt_of s = s.stamping.e.rt

abbrev pub with_engine : {C : Type 0} → Whole C → Engine C → Whole C
with_engine s e = record s { stamping = record s.stamping { e = e } }

abbrev pub with_revtr : {C : Type 0} → Whole C → Revtr → Whole C
with_revtr s rt = with_engine s (record s.stamping.e { rt = rt })

-- A step on the traceroute, on the engine, and the step for timestamps.
abbrev pub of_outcome : {C : Type 0} → Whole C → Outcome → Result (Whole C × Option Step)
of_outcome s o = of_option o >>> λ r. gives (with_revtr s r.0, r.1)

abbrev pub of_stepped :
    {C : Type 0} → Whole C → Result (Engine C × Option Step) → Result (Whole C × Option Step)
of_stepped s o = o >>> λ r. gives (with_engine s r.0, r.1)

abbrev pub of_progress : {C : Type 0} → Whole C → Progress C → Result (Whole C × Option Step)
of_progress s panicked = panics
of_progress s unfinished = runs_on
of_progress s (done t next) = gives (record s { stamping = t }, next)

module _ {C : Type 0} (c : Setting C) where
  -- The two steps that assume symmetry.
  abbrev pub assume : Revtr → Outcome
  assume rt =
      assume_symmetric c.world.net c.world.visit c.world.cm c.world.sorted c.asn c.hear
        c.is_allow_interdomain c.world.now rt

  abbrev pub back_off : Revtr → Outcome
  back_off rt =
      backoff_endhost c.world.net c.world.visit c.world.cm c.world.sorted c.asn c.hear
        c.is_allow_interdomain c.world.now rt

  -- A step, which panics, gives a state and the next step, or runs on: a loop of it takes more rounds
  -- than it is given.
  unfoldable pub take_step : Step → Whole C → Result (Whole C × Option Step)
  unfolding assume_symmetric backoff_endhost tr_to_source record_route timestamp
  take_step backoff_endhost_step s = of_outcome s (back_off (rt_of s))
  take_step tr_to_source_step s =
      of_stepped s (of_option (tr_to_source c.world c.options s.stamping.e))
  take_step record_route_step s =
      of_stepped s (record_route c.world c.options c.check_rounds c.rr_rounds s.stamping.e)
  take_step timestamp_step s =
      of_progress s (timestamp c.world c.ts_services c.options c.ts_rounds s.stamping)
  take_step background_trs_step s = gives (s, background_trs (rt_of s))
  take_step assume_symmetric_step s = of_outcome s (assume (rt_of s))

  -- `StopReason = Canceled`.
  abbrev pub cancel : Whole C → Whole C
  cancel s = with_revtr s (record (rt_of s) { stop_reason = canceled })

  -- Behind the loop: the forward traceroute, and the pings unless the traceroute has failed.
  unfoldable pub run_forward : Whole C → Result (Whole C)
  unfolding forward_traceroute
  run_forward s =
      if c.is_run_forward
      then (forward_traceroute c.world c.trace_services c.star_rounds (rt_of s)
            s.forward_traceroute_id
          >>> λ id. gives (record s { forward_traceroute_id = id }))
      else gives s

  unfoldable pub run_rtt_pings : Whole C → Option (Whole C)
  unfolding rtt_pings
  run_rtt_pings s =
      if c.is_run_rtt_pings && not (Run.is_failed (rt_of s).stop_reason)
      then (rtt_pings c.world c.trace_services (rt_of s) s.rtt_by_hop >>= λ by_hop.
          some (record s { rtt_by_hop = by_hop }))
      else some s

  unfoldable pub finish : Whole C → Result (Whole C)
  unfolding run_forward run_rtt_pings
  finish s = run_forward s >>> λ s'. of_option (run_rtt_pings s')

  -- The whole run, in at most `rounds` rounds.
  unfoldable pub whole_run : (ℕ → Bool) → ℕ → Whole C → Run.Progress (Whole C)
  unfolding take_step finish Run.run
  whole_run is_done rounds s = Run.run rt_of cancel finish take_step is_done rounds s
