-- ===== src/Runner/Whole/Outcomes.antt =====
-- How each step of revtr/runner/revtr_runner.go that ends a run says why.
use reverse_traceroute_publi.Base.{
  ℕ, zero, suc, ◌+◌, ◌≡◌, ◌≢◌, refl, ◌⊎◌, inl, inr, Bool, true, false, not, List, [], ◌∷◌, String,
  Option, none, some, Sat, Holds, >>>-Holds, Holds-never, gives, >>=-Sat, >>=-Sat_any, if-holds,
  length, ◌==◌, if◌then◌else◌,
}
use reverse_traceroute_publi.StringUtil.Sets.{VisitsAll}
use reverse_traceroute_publi.Segment.{hops}
use reverse_traceroute_publi.Segment.Create.{new_tr_to_src_rev_segment}
use reverse_traceroute_publi.ReversePath.{ReversePath, last_seg}
use reverse_traceroute_publi.Revtr.{
  Revtr, StopReason, unset, reached, failed, trivial, curr_path, revtr_last_hop, revtr_reaches,
  reach, ts_is_responsive,
}
use reverse_traceroute_publi.Revtr.Add.Stack.{Rearranges}
use reverse_traceroute_publi.Revtr.Background.{add_background_tr_segment}
use reverse_traceroute_publi.Runner.Symmetric.{
  Step, record_route_step, background_trs_step, Outcome,
}
use reverse_traceroute_publi.Runner.Symmetric.Stops.{Stops, reach-reached}
use reverse_traceroute_publi.Runner.Engine.{Options, World, Engine}
use reverse_traceroute_publi.Runner.TrToSource.{
  IntersectingTr, Intersection, failed_to_look, only_tokens, intersects, intersecting_answer,
  public_addresses, follow_traceroute, after_looking, tr_to_source,
}
use reverse_traceroute_publi.Runner.RecordRoute.{
  Round, again, ends, record_route_round, record_route_loop,
}
use reverse_traceroute_publi.Runner.RecordRoute.Adds.{Reached, revtr_reaches-Reached}
use reverse_traceroute_publi.Runner.RecordRoute.Progress.{HandsOver, record_route_round-HandsOver}
use reverse_traceroute_publi.Runner.Slots.{TsServices, Stamping}
use reverse_traceroute_publi.Runner.Timestamp.{
  Progress, panicked, unfinished, done, timestamp_round, timestamp_loop, timestamp,
}
use reverse_traceroute_publi.Runner.Timestamp.HandsOver.{Told, timestamp_round-Told}
use reverse_traceroute_publi.Runner.Whole.{Whole}

-- The traceroute says why it ended: by its stop reason, or by the text for a traceroute of the atlas
-- that could not be added.
abbrev pub EngineSettled : {C : Type 0} → Engine C → Type 0
EngineSettled e = (e.rt.stop_reason ≢ unset) ⊎ (e.fail_reason ≡ "Failed to add a TR segment")

abbrev pub Settled : {C : Type 0} → Whole C → Type 0
Settled s = EngineSettled s.stamping.e

-- The same where a step ends the run.
abbrev pub StepSettled : {C : Type 0} → Engine C × Option Step → Type 0
StepSettled (e, none) = EngineSettled e
StepSettled (e, some next) = Unit

abbrev pub OutcomeSettled : Revtr × Option Step → Type 0
OutcomeSettled (rt, none) = rt.stop_reason ≢ unset
OutcomeSettled (rt, some next) = Unit

abbrev pub ProgressSettled : {C : Type 0} → Progress C → Type 0
ProgressSettled panicked = Unit
ProgressSettled unfinished = Unit
ProgressSettled (done t none) = t.e.rt.stop_reason ≢ unset
ProgressSettled (done t (some next)) = Unit

is_set : (why : StopReason) → (why ≡ reached) ⊎ (why ≡ failed) → why ≢ unset
is_set why (inl e) = λ u. cc (e, u)
is_set why (inr e) = λ u. cc (e, u)

pub Stops-OutcomeSettled : (o : Outcome) → Stops o → Sat OutcomeSettled o
Stops-OutcomeSettled none stops = tt
Stops-OutcomeSettled (some (rt, none)) stops = is_set rt.stop_reason stops
Stops-OutcomeSettled (some (rt, some next)) stops = tt

-- Backing off.
pub backed_off-OutcomeSettled :
    (now : ℕ) (rt : Revtr) (next : Option Step) (b : Bool)
    → OutcomeSettled (rt, next)
    → OutcomeSettled (
      if b
          then record (if b then reach now rt else rt) { stop_reason = trivial; end_time = now }
          else (if b then reach now rt else rt),
      next,
    )
backed_off-OutcomeSettled now rt (some next) b settled = tt
backed_off-OutcomeSettled now rt none true settled = λ e. cc
backed_off-OutcomeSettled now rt none false settled = settled

module _ {C : Type 0} (w : World C) (o : Options) where
  -- `trToSource`.
  followed-StepSettled :
      (e : Engine C) (rt : Revtr) (b : Bool)
      → Sat StepSettled
          (if b then some (record e { rt = if b then reach w.now rt else rt }, none) else none)
  followed-StepSettled e rt true =
      inl (is_set (reach w.now rt).stop_reason (inl (reach-reached w.now rt)))
  followed-StepSettled e rt false = tt

  follow_traceroute-StepSettled :
      (tr : IntersectingTr) (e : Engine C) → Sat StepSettled (follow_traceroute w tr e)
  unfolding follow_traceroute
  follow_traceroute-StepSettled tr e =
      let segment =
        new_tr_to_src_rev_segment w.net tr.tr_hops tr.hop_types e.rt.src tr.addr tr.tr_id in
      >>=-Sat_any StepSettled (add_background_tr_segment w.visit w.cm w.sorted segment e.rt) _
        (λ added.
          if-holds (Sat StepSettled) (not added.1)
            {a = some (
              record e {
                traceroute_id = tr.tr_id;
                rt = added.0;
                fail_reason = "Failed to add a TR segment";
              },
              none,
            )}
            (inr refl)
            (>>=-Sat (Reached w.now added.0) StepSettled (revtr_reaches w.cm w.now added.0) _
              (revtr_reaches-Reached w.cm w.now added.0)
              (λ r is_reached. rw (is_reached.1) (
                followed-StepSettled (record e { traceroute_id = tr.tr_id }) added.0
                  is_reached.0))))

  after_looking-StepSettled :
      (e : Engine C) (found : Intersection) → Sat StepSettled (after_looking w e found)
  unfolding after_looking
  after_looking-StepSettled e failed_to_look = tt
  after_looking-StepSettled e (only_tokens []) = tt
  after_looking-StepSettled e (only_tokens (t ∷ ts)) = tt
  after_looking-StepSettled e (intersects tr) =
      if-holds (Sat StepSettled) (length tr.tr_hops == 0)
        {a = some (record e { tokens = [] }, some record_route_step)} tt
        (follow_traceroute-StepSettled tr e)

  pub tr_to_source-StepSettled : (e : Engine C) → Sat StepSettled (tr_to_source w o e)
  unfolding tr_to_source
  tr_to_source-StepSettled e =
      if-holds (Sat StepSettled) o.use_atlas {b = some (e, some record_route_step)}
        (>>=-Sat_any StepSettled (curr_path e.rt) _ (λ current.
          >>=-Sat_any StepSettled (last_seg current) _ (λ s.
            after_looking-StepSettled
              (record e { tr_to_src_round_count = e.tr_to_src_round_count + 1 })
              (intersecting_answer w (w.intersecting_path (public_addresses w (hops s)))))))
        tt

  module _ (all : VisitsAll w.visit) (arranged : Rearranges w.sorted) where
    -- `recordRoute`.
    ended-StepSettled :
        (old : List ReversePath) (checks rounds : ℕ) (r : Engine C × Round)
        → HandsOver o old r
        → ((e : Engine C) → Holds Unit StepSettled (record_route_loop w o checks rounds e))
        → Holds Unit StepSettled (elim r.1 [
          | again ↦ record_route_loop w o checks rounds r.0
          | ends next ↦ gives (r.0, next)
        ])
    ended-StepSettled old checks rounds (e, again) hands goes = goes e
    ended-StepSettled old checks rounds (e, ends none) hands goes =
        inl (is_set e.rt.stop_reason hands)
    ended-StepSettled old checks rounds (e, ends (some next)) hands goes = tt

    pub record_route_loop-StepSettled :
        (checks rounds : ℕ)
        → o.check_tunnel ≡ false
        → (e : Engine C) → Holds Unit StepSettled (record_route_loop w o checks rounds e)
    unfolding record_route_loop
    record_route_loop-StepSettled checks zero off e = tt
    record_route_loop-StepSettled checks (suc rounds) off e =
        >>>-Holds Unit (HandsOver o e.rt.paths) StepSettled (record_route_round w o checks e) _
          (Holds-never (HandsOver o e.rt.paths) (record_route_round w o checks e)
            (record_route_round-HandsOver w o all arranged checks e off))
          (λ r hands.
            ended-StepSettled e.rt.paths checks rounds r hands
              (record_route_loop-StepSettled checks rounds off))

    -- `timestamp`.
    module _ (s : TsServices) where
      Told-ProgressSettled :
          (old : List ReversePath) (target : String) (rounds : ℕ) (r : Option (Stamping C × Round))
          → Sat (Told old) r
          → ((t : Stamping C) → ProgressSettled (timestamp_loop w s o target rounds t))
          → ProgressSettled (elim r [
            | none ↦ panicked
            | some (t', again) ↦ timestamp_loop w s o target rounds t'
            | some (t', ends next) ↦ done t' next
          ])
      Told-ProgressSettled old target rounds none told goes = tt
      Told-ProgressSettled old target rounds (some (t, again)) told goes = goes t
      Told-ProgressSettled old target rounds (some (t, ends none)) told goes =
          is_set t.e.rt.stop_reason (inl told)
      Told-ProgressSettled old target rounds (some (t, ends (some next))) told goes = tt

      timestamp_loop-ProgressSettled :
          (target : String) (rounds : ℕ) (t : Stamping C)
          → ProgressSettled (timestamp_loop w s o target rounds t)
      unfolding timestamp_loop
      timestamp_loop-ProgressSettled target zero t = tt
      timestamp_loop-ProgressSettled target (suc rounds) t =
          Told-ProgressSettled t.e.rt.paths target rounds (timestamp_round w s o target t)
            (timestamp_round-Told w s o all arranged target t)
            (timestamp_loop-ProgressSettled target rounds)

      begun-ProgressSettled :
          (rounds : ℕ) (rt : Revtr) (t : Stamping C) (last : Option String)
          → ProgressSettled (elim last [
            | none ↦ panicked
            | some target ↦
                if not (ts_is_responsive rt target)
                then done t (some background_trs_step)
                else timestamp_loop w s o target rounds t
          ])
      begun-ProgressSettled rounds rt t none = tt
      begun-ProgressSettled rounds rt t (some target) =
          if-holds ProgressSettled (not (ts_is_responsive rt target))
            {a = done t (some background_trs_step)} tt
            (timestamp_loop-ProgressSettled target rounds t)

      pub timestamp-ProgressSettled :
          (rounds : ℕ) (t : Stamping C) → ProgressSettled (timestamp w s o rounds t)
      unfolding timestamp
      timestamp-ProgressSettled rounds t =
          begun-ProgressSettled rounds t.e.rt _ (revtr_last_hop t.e.rt)
