-- ===== src/Runner/RecordRoute/Adds.antt =====
-- What a round of revtr/runner/revtr_runner.go comes to that adds the segments which it has found.
use reverse_traceroute_publi.Base.{
  ℕ, ◌≡◌, refl, ap, ◌∙◌, inl, inr, Bool, true, false, not, List, [], ◌∷◌, ◌++◌, String, none, some,
  ◌>>=◌, Sat, >>=-Sat, >>=-Sat_any, if◌then◌else◌, subst,
}
use reverse_traceroute_publi.Runner.Symmetric.Stops.{reach-reached}
use reverse_traceroute_publi.StringUtil.Sets.{VisitsAll}
use reverse_traceroute_publi.Segment.{Segment}
use reverse_traceroute_publi.ReversePath.{ReversePath, path_reaches}
use reverse_traceroute_publi.Revtr.{Revtr, top, reached, curr_path, revtr_reaches, reach}
use reverse_traceroute_publi.Revtr.Add.Stack.{add_segments-Growth, Rearranges, Tells}
use reverse_traceroute_publi.Runner.Symmetric.{Step, check_bg_trs}
use reverse_traceroute_publi.Runner.Engine.{Options, World, Engine}
use reverse_traceroute_publi.Runner.RecordRoute.{Round, again, ends, add_found}
use reverse_traceroute_publi.Runner.RecordRoute.Hops.{AllHops}

-- The stack has a new path on top of `old`.
abbrev pub Grown : List ReversePath → List ReversePath → Type 0
Grown old new = (p : ReversePath) × (ps : List ReversePath) × (new ≡ p ∷ ps ++ old)

-- What a round comes to that has found segments, with `on` as the next step.
abbrev pub Adds : {C : Type 0} → Step → List ReversePath → Engine C × Round → Type 0
Adds on old (e, again) = Unit
Adds on old (e, ends none) = e.rt.stop_reason ≡ reached
Adds on old (e, ends (some step)) = (step ≡ on) × Grown old e.rt.paths

-- What `Reaches` answers.
abbrev pub Reached : ℕ → Revtr → Revtr × Bool → Type 0
Reached now rt r = (b : Bool) × (r ≡ (if b then reach now rt else rt, b))

paths-Reached :
    (cm : String → String) (now : ℕ) (rt : Revtr) (paths : List ReversePath)
    → Sat (Reached now rt) (elim paths [
      | [] ↦ some (rt, false)
      | p ∷ paths ↦ path_reaches cm p >>= λ b. some (if b then reach now rt else rt, b)
    ])
paths-Reached cm now rt [] = (false, refl)
paths-Reached cm now rt (p ∷ paths) =
    >>=-Sat_any (Reached now rt) (path_reaches cm p) _ (λ b. (b, refl))

pub revtr_reaches-Reached :
    (cm : String → String) (now : ℕ) (rt : Revtr) → Sat (Reached now rt) (revtr_reaches cm now rt)
unfolding revtr_reaches
revtr_reaches-Reached cm now rt = paths-Reached cm now rt rt.paths

module _ {C : Type 0} (w : World C) (o : Options) (all : VisitsAll w.visit)
    (arranged : Rearranges w.sorted) where
  -- `Reaches` leaves the stack, and says why it ends the traceroute.
  reached-Adds :
      (old : List ReversePath) (e : Engine C) (on : Step) (does_reach : Bool) (rt : Revtr)
      → Grown old rt.paths
      → Adds on old (
        record e { rt = if does_reach then reach w.now rt else rt },
        ends (if does_reach then none else some on),
      )
  unfolding reach
  reached-Adds old e on true rt grown = reach-reached w.now rt
  reached-Adds old e on false rt grown = (refl, grown)

  added-Adds :
      (on : Step) (e : Engine C) (rt' : Revtr) (added : Bool) (old : List ReversePath)
      → Tells old rt'.paths added
      → Sat (Adds on old) (
          if not added
          then some (record e { rt = rt' }, again)
          else revtr_reaches w.cm w.now rt' >>= λ r.
              some (record e { rt = r.0 }, ends (if r.1 then none else some on)))
  added-Adds on e rt' false old tells = tt
  added-Adds on e rt' true old (inl no_way) = absurd (cc no_way)
  added-Adds on e rt' true old (inr grown) =
      >>=-Sat (Reached w.now rt') (Adds on old) _ _ (revtr_reaches-Reached w.cm w.now rt')
        (λ r is_reached. rw (is_reached.1) (reached-Adds old e on is_reached.0 rt' grown))

  pub add_found-Adds :
      (on : Step) (segs : List Segment) (e : Engine C) (old : List ReversePath)
      (current : ReversePath)
      → AllHops segs
      → e.rt.paths ≡ old
      → top old ≡ some current
      → Sat (Adds on old) (add_found w o on segs e)
  unfolding add_found check_bg_trs curr_path
  add_found-Adds on segs e old current has_hops same on_top =
      let (rt', added, eq, growth, tells) =
        add_segments-Growth w.visit w.cm w.sorted segs e.rt current all arranged has_hops
          (ap top same ∙ on_top) in
      rw (eq)
        (added-Adds on e rt' added old (subst (λ paths. Tells paths rt'.paths added) same tells))
