-- ===== src/Runner/Symmetric.antt =====
-- `initialStep`, `backoffEndhost`, `assumeSymmetric`, `isInterdomainSymmetryAssumption`,
-- `checkbgTRs` and `backgroundTRS` of revtr/runner/revtr_runner.go.
--
-- A step answers the next one, `none` for nil. `issue_traceroute` is what `issueTraceroute` hears
-- from the controller for a source and a destination, `none` for an error, and `asn` is `Get` of the
-- prefix tree of autonomous systems.
pub mod Stops
use reverse_traceroute_publi.Base.{
  ℕ, zero, suc, ◌+◌, ◌-◌, Bool, true, false, not, ◌&&◌, ◌||◌, List, [], ◌∷◌, ◌++◌, String, Option,
  none, some, ◌>>=◌, length, get_elem?, ltb, if◌then◌else◌, ℤ, pos, negsuc, eqb_ℤ,
}
use reverse_traceroute_publi.StringUtil.{StringMap}
use reverse_traceroute_publi.Segment.{
  Net, RevSegment, Segment, dst_sym_rev, base, hops, clone, is_dst_sym,
}
use reverse_traceroute_publi.Segment.Create.{add_hop, new_dst_sym_rev_segment}
use reverse_traceroute_publi.ReversePath.{ReversePath, last_seg, but_last}
use reverse_traceroute_publi.Revtr.{
  Revtr, StopReason, trivial, curr_path, deadends, revtr_hops, revtr_last_hop, revtr_reaches,
  revtr_failed, fail,
}
use reverse_traceroute_publi.Revtr.Add.{add_segments, add_and_replace_segment}
use reverse_traceroute_publi.Revtr.Fail.{fail_curr_path}

-- The steps, which the source passes as methods.
pub data Step : Type 0 where
  backoff_endhost_step tr_to_source_step record_route_step timestamp_step background_trs_step : Step
  assume_symmetric_step : Step

-- The state after a step, and the next step.
abbrev pub Outcome : Type 0
Outcome = Option (Revtr × Option Step)

-- The answer of `issueTraceroute`.
pub record TracerouteHops : Type 0 where
  pub trace_hops : List String
  pub measurement_id : ℤ
  pub from_cache : Bool

-- `initialStep`.
abbrev pub initial_step : Revtr → Step
initial_step rt = if rt.backoff_endhost then backoff_endhost_step else tr_to_source_step

-- `isInterdomainSymmetryAssumption`.
unfoldable pub is_interdomain_symmetry_assumption : (String → ℤ) → String → String → Bool
is_interdomain_symmetry_assumption asn near far =
    not (eqb_ℤ (asn near) (asn far)) || eqb_ℤ (asn near) (negsuc 0) || eqb_ℤ (asn far) (negsuc 0)

-- `s[len(s)-k]`.
abbrev pub from_end : ℕ → List String → Option String
from_end k s = if ltb (length s) k then none else get_elem? s (length s - k)

-- The hops of all segments but the last.
unfoldable pub front_hops : List Segment → List String
front_hops [] = []
front_hops (s ∷ []) = []
front_hops (s ∷ t ∷ path) = hops s ++ front_hops (t ∷ path)

-- `backgroundTRS`, which returns at once, and `checkbgTRs`.
abbrev pub background_trs : Revtr → Option Step
background_trs rt = some assume_symmetric_step

unfoldable pub check_bg_trs : Revtr → Step → Option Step
check_bg_trs rt next = elim (background_trs rt) [ none ↦ none | some _ ↦ some next ]

module _ (net : Net) (visit : StringMap → StringMap) (cm : String → String)
    (sorted : List Segment → List Segment) (asn : String → ℤ)
    (issue_traceroute : String → String → Option TracerouteHops) (is_allow_interdomain : Bool)
    (now : ℕ) where
  -- What follows a segment that was added.
  unfoldable pub after_adding : Revtr → Outcome
  after_adding rt = do
    reached ← revtr_reaches cm now rt
    some (reached.0, if reached.1 then none else some tr_to_source_step)

  -- `FailCurrPath`, and the test for a failure behind it.
  unfoldable pub give_up_path : Revtr → Outcome
  give_up_path rt = do
    left ← fail_curr_path now rt
    let over = revtr_failed now left
    some (over.0, if over.1 then none else some tr_to_source_step)

  -- An interdomain link fails the traceroute; the fields that are set are those of `fail`.
  unfoldable pub unless_interdomain : Option String → Option String → Revtr → Outcome → Outcome
  unless_interdomain near far rt go_on =
      if is_allow_interdomain
      then go_on
      else near >>= λ n. far >>= λ f.
          if is_interdomain_symmetry_assumption asn n f then some (fail now rt, none) else go_on

  -- The segment with one more hop takes the place of the symmetric one.
  unfoldable pub replace_symmetric : Segment → Revtr → Outcome
  unfolding after_adding
  replace_symmetric new_seg rt = add_and_replace_segment new_seg rt >>= λ replaced.
      if replaced.1 then after_adding replaced.0 else none

  -- The last segment, a copy of which is `clone`, is symmetric already.
  unfoldable pub extend_symmetric : ReversePath → Segment → Revtr → Outcome
  unfolding unless_interdomain replace_symmetric front_hops
  extend_symmetric current (dst_sym_rev rv tr num_hops) rt =
      add_hop rv tr num_hops (front_hops current.path ++ deadends rt) >>= λ new_seg.
      unless_interdomain (from_end 1 (hops new_seg)) (from_end 2 (hops new_seg)) rt
        (replace_symmetric new_seg rt)
  extend_symmetric current _ rt = none

  -- The segment that assumes the last hop of the traceroute to be symmetric.
  unfoldable pub add_symmetric : Segment → Revtr → Outcome
  unfolding after_adding give_up_path
  add_symmetric new_seg rt = add_segments visit cm sorted (new_seg ∷ []) rt >>= λ added.
      if added.1 then after_adding added.0 else give_up_path added.0

  unfoldable pub assume_last_hop : String → TracerouteHops → Revtr → Outcome
  unfolding unless_interdomain add_symmetric
  assume_last_hop last_hop trace rt =
      new_dst_sym_rev_segment net rt.src last_hop trace.trace_hops 1 (revtr_hops rt ++ deadends rt)
        trace.measurement_id trace.from_cache
      >>= λ new_seg.
          unless_interdomain (from_end 2 trace.trace_hops) (some last_hop) rt
            (add_symmetric new_seg rt)

  -- The two cases of `assumeSymmetric`, on the current path and its last segment and hop.
  unfoldable pub assume_from : ReversePath → Segment → String → Revtr → Outcome
  unfolding extend_symmetric assume_last_hop give_up_path
  assume_from current s last_hop rt =
      if is_dst_sym s
      then extend_symmetric current (clone s) rt
      else elim (issue_traceroute rt.src last_hop) [
        | none ↦ give_up_path rt
        | some trace ↦ assume_last_hop last_hop trace rt
      ]

  -- `assumeSymmetric`.
  unfoldable pub assume_symmetric : Revtr → Outcome
  unfolding assume_from
  assume_symmetric rt = do
    current ← curr_path rt
    s ← last_seg current
    last_hop ← revtr_last_hop rt
    assume_from current s last_hop rt

  -- `backoffEndhost`.
  unfoldable pub backoff_endhost : Revtr → Outcome
  unfolding assume_symmetric
  backoff_endhost rt = do
    next ← assume_symmetric rt
    reached ← revtr_reaches cm now next.0
    some (
      if reached.1 then record reached.0 { stop_reason = trivial; end_time = now } else reached.0,
      next.1,
    )
