-- ===== src/Runner/Symmetric/Stops.antt =====
-- When `assumeSymmetric` and `backoffEndhost` of revtr/runner/revtr_runner.go end a traceroute.
use reverse_traceroute_publi.Base.{
  ℕ, ◌≡◌, refl, ◌⊎◌, inl, inr, Bool, true, false, not, ◌&&◌, List, [], ◌∷◌, String, Option, none,
  some, ◌>>=◌, if◌then◌else◌, ℤ,
}
use reverse_traceroute_publi.StringUtil.{StringMap}
use reverse_traceroute_publi.Segment.{Net, Segment, clone, dst_sym_rev, is_dst_sym}
use reverse_traceroute_publi.ReversePath.{ReversePath, last_seg, path_reaches}
use reverse_traceroute_publi.Revtr.{
  Revtr, StopReason, reached, failed, curr_path, revtr_last_hop, revtr_reaches, revtr_failed, reach,
  fail, has_failed,
}
use reverse_traceroute_publi.Revtr.Add.{add_segments, add_and_replace_segment}
use reverse_traceroute_publi.Revtr.Fail.{fail_curr_path}
use reverse_traceroute_publi.Runner.Symmetric.{
  tr_to_source_step, Outcome, TracerouteHops, after_adding, give_up_path, unless_interdomain,
  is_interdomain_symmetry_assumption, replace_symmetric, extend_symmetric, add_symmetric,
  assume_last_hop, assume_from, assume_symmetric,
}

-- A step that ends the traceroute has said why, and else the search for a traceroute to the source
-- is next.
abbrev pub Stops : Outcome → Type 0
Stops none = Unit
Stops (some (rt, none)) = (rt.stop_reason ≡ reached) ⊎ (rt.stop_reason ≡ failed)
Stops (some (rt, some step)) = step ≡ tr_to_source_step

-- A field that both branches set alike.
same_reason :
    (c : Bool) (a b : Revtr) (why : StopReason)
    → a.stop_reason ≡ why
    → b.stop_reason ≡ why
    → (if c then a else b).stop_reason ≡ why
same_reason true a b why ea eb = ea
same_reason false a b why ea eb = eb

pub reach-reached : (now : ℕ) (rt : Revtr) → (reach now rt).stop_reason ≡ reached
unfolding reach
reach-reached now rt = same_reason (rt.has_on_reach && not rt.on_reach_done) _ _ reached refl refl

fail-failed : (now : ℕ) (rt : Revtr) → (fail now rt).stop_reason ≡ failed
unfolding fail
fail-failed now rt = same_reason (rt.has_on_fail && not rt.on_fail_done) _ _ failed refl refl

>>=-Stops :
    {A : Type 0} (o : Option A) (f : A → Outcome) → ((a : A) → Stops (f a)) → Stops (o >>= f)
>>=-Stops none f h = tt
>>=-Stops (some a) f h = h a

if-Stops : (c : Bool) (o p : Outcome) → Stops o → Stops p → Stops (if c then o else p)
if-Stops true o p ho hp = ho
if-Stops false o p ho hp = hp

-- What `Reaches` answers, and how the steps go on with it.
goes_on : Revtr × Bool → Outcome
goes_on r = some (r.0, if r.1 then none else some tr_to_source_step)

reaches_of : (now : ℕ) (rt : Revtr) → Bool → Revtr × Bool
reaches_of now rt does_reach = (if does_reach then reach now rt else rt, does_reach)

reaches_of-Stops :
    (now : ℕ) (rt : Revtr) (does_reach : Bool) → Stops (goes_on (reaches_of now rt does_reach))
unfolding goes_on reaches_of
reaches_of-Stops now rt true = inl (reach-reached now rt)
reaches_of-Stops now rt false = refl

paths-Stops :
    (cm : String → String) (now : ℕ) (rt : Revtr) (paths : List ReversePath)
    → Stops (
        elim paths [
          | [] ↦ some (rt, false)
          | p ∷ paths ↦ path_reaches cm p >>= λ does_reach. some (reaches_of now rt does_reach)
        ]
        >>= goes_on)
unfolding goes_on
paths-Stops cm now rt [] = refl
paths-Stops cm now rt (p ∷ paths) = go (path_reaches cm p)
  where
    go :
        (o : Option Bool)
        → Stops ((o >>= λ does_reach. some (reaches_of now rt does_reach)) >>= goes_on)
    go none = tt
    go (some does_reach) = reaches_of-Stops now rt does_reach

failed_answer-Stops :
    (now : ℕ) (left : Revtr) (over : Bool)
    → Stops
        (some (if over then fail now left else left, if over then none else some tr_to_source_step))
failed_answer-Stops now left true = inr (fail-failed now left)
failed_answer-Stops now left false = refl

module _ (net : Net) (visit : StringMap → StringMap) (cm : String → String)
    (sorted : List Segment → List Segment) (asn : String → ℤ)
    (issue_traceroute : String → String → Option TracerouteHops) (is_allow_interdomain : Bool)
    (now : ℕ) where
  reaches-Stops : (rt : Revtr) → Stops (revtr_reaches cm now rt >>= goes_on)
  unfolding goes_on revtr_reaches reaches_of
  reaches-Stops rt = paths-Stops cm now rt rt.paths

  after_adding-Stops :
      (rt : Revtr)
      → Stops (after_adding net visit cm sorted asn issue_traceroute is_allow_interdomain now rt)
  unfolding after_adding goes_on
  after_adding-Stops rt = reaches-Stops rt

  give_up_path-Stops :
      (rt : Revtr)
      → Stops (give_up_path net visit cm sorted asn issue_traceroute is_allow_interdomain now rt)
  unfolding give_up_path revtr_failed
  give_up_path-Stops rt =
      >>=-Stops (fail_curr_path now rt) _
        (λ left. failed_answer-Stops now left (has_failed left.backoff_endhost left.paths))

  unless_interdomain-Stops :
      (near far : Option String) (rt : Revtr) (go_on : Outcome)
      → Stops go_on
      → Stops (
          unless_interdomain net visit cm sorted asn issue_traceroute is_allow_interdomain now near
            far rt go_on)
  unfolding unless_interdomain
  unless_interdomain-Stops near far rt go_on h = if-Stops is_allow_interdomain _ _ h (
      >>=-Stops near _ (λ n. >>=-Stops far _ (λ f.
        if-Stops (is_interdomain_symmetry_assumption asn n f) _ _ (inr (fail-failed now rt)) h)))

  replace_symmetric-Stops :
      (new_seg : Segment) (rt : Revtr)
      → Stops (
          replace_symmetric net visit cm sorted asn issue_traceroute is_allow_interdomain now
            new_seg rt)
  unfolding replace_symmetric
  replace_symmetric-Stops new_seg rt =
      >>=-Stops (add_and_replace_segment new_seg rt) _
        (λ replaced. if-Stops replaced.1 _ _ (after_adding-Stops replaced.0) tt)

  extend_symmetric-Stops :
      (current : ReversePath) (s : Segment) (rt : Revtr)
      → Stops (
          extend_symmetric net visit cm sorted asn issue_traceroute is_allow_interdomain now current
            s rt)
  unfolding extend_symmetric
  extend_symmetric-Stops current (dst_sym_rev rv tr num_hops) rt =
      >>=-Stops _ _
        (λ new_seg. unless_interdomain-Stops _ _ rt _ (replace_symmetric-Stops new_seg rt))
  extend_symmetric-Stops current _ rt = tt

  add_symmetric-Stops :
      (new_seg : Segment) (rt : Revtr)
      → Stops (
          add_symmetric net visit cm sorted asn issue_traceroute is_allow_interdomain now new_seg
            rt)
  unfolding add_symmetric
  add_symmetric-Stops new_seg rt =
      >>=-Stops (add_segments visit cm sorted (new_seg ∷ []) rt) _
        (λ added. if-Stops added.1 _ _ (after_adding-Stops added.0) (give_up_path-Stops added.0))

  assume_last_hop-Stops :
      (last_hop : String) (trace : TracerouteHops) (rt : Revtr)
      → Stops (
          assume_last_hop net visit cm sorted asn issue_traceroute is_allow_interdomain now last_hop
            trace rt)
  unfolding assume_last_hop
  assume_last_hop-Stops last_hop trace rt =
      >>=-Stops _ _ (λ new_seg.
        unless_interdomain-Stops _ (some last_hop) rt _ (add_symmetric-Stops new_seg rt))

  answered-Stops :
      (rt : Revtr) (last_hop : String) (answer : Option TracerouteHops)
      → Stops (elim answer [
        | none ↦ give_up_path net visit cm sorted asn issue_traceroute is_allow_interdomain now rt
        | some trace ↦
            assume_last_hop net visit cm sorted asn issue_traceroute is_allow_interdomain now
              last_hop trace rt
      ])
  answered-Stops rt last_hop none = give_up_path-Stops rt
  answered-Stops rt last_hop (some trace) = assume_last_hop-Stops last_hop trace rt

  assume_from-Stops :
      (current : ReversePath) (s : Segment) (last_hop : String) (rt : Revtr)
      → Stops (
          assume_from net visit cm sorted asn issue_traceroute is_allow_interdomain now current s
            last_hop rt)
  unfolding assume_from
  assume_from-Stops current s last_hop rt =
      if-Stops (is_dst_sym s) _ _ (extend_symmetric-Stops current (clone s) rt)
        (answered-Stops rt last_hop (issue_traceroute rt.src last_hop))

  -- A call of `assumeSymmetric` that ends the traceroute has noted that the source is reached or
  -- that the traceroute has failed; every other call goes on with the search for a traceroute to the
  -- source. This holds with and without links between domains, whatever the controller answers.
  pub assume_symmetric-Stops :
      (rt : Revtr)
      → Stops
          (assume_symmetric net visit cm sorted asn issue_traceroute is_allow_interdomain now rt)
  unfolding assume_symmetric
  assume_symmetric-Stops rt = >>=-Stops (curr_path rt) _ (λ current.
      >>=-Stops (last_seg current) _ (λ s.
        >>=-Stops (revtr_last_hop rt)
          (λ hop.
            assume_from net visit cm sorted asn issue_traceroute is_allow_interdomain now current s
              hop rt)
          (λ hop. assume_from-Stops current s hop rt)))
