-- ===== src/Runner/Run/Endings.antt =====
-- How the loop over the steps of `run` of revtr/runner/revtr_runner.go ends, and where it may not.
use reverse_traceroute_publi.Base.{
  ℕ, zero, suc, ◌≡◌, refl, ◌⊎◌, inl, inr, Bool, true, false, Option, none, some, Result, panics,
  runs_on, gives, Holds, Holds-where, if-cases,
}
use reverse_traceroute_publi.Revtr.{Revtr}
use reverse_traceroute_publi.Runner.Symmetric.{Step}
use reverse_traceroute_publi.Runner.Run.{
  Progress, returned, panicked, still_running, is_failed, returned_of, after_step, run_loop,
}

-- What holds of a state that is returned, and of a loop that is still running.
abbrev pub Ended : {S : Type 0} → Type 0 → (S → Type 0) → Progress S → Type 0
Ended R P (returned s) = P s
Ended R P panicked = Unit
Ended R P still_running = R

-- The context is not done in any of the rounds from `i` on.
abbrev pub NeverDone : (ℕ → Bool) → ℕ → ℕ → Type 0
NeverDone is_done i zero = Unit
NeverDone is_done i (suc rounds) = (is_done i ≡ false) × NeverDone is_done (suc i) rounds

-- The steps that lead from a state, with its step, to another.
pub data Leads {S : Type 0} (take_step : Step → S → Result (S × Option Step))
    : Step → S → Step → S → Type 0 where
  here : {step : Step} → {s : S} → Leads take_step step s step s
  goes_on :
      {step next last : Step}
      → {s s' t : S} → take_step step s ≡ gives (s', some next)
      → Leads take_step next s' last t
      → Leads take_step step s last t

-- A state that is taken to what is behind the loop: one that the steps lead to, or that the last of
-- them leaves.
abbrev pub ComesOut : {S : Type 0} → (Step → S → Result (S × Option Step)) → Step → S → S → Type 0
ComesOut {S = S} take_step step s t =
    ((last : Step) × Leads take_step step s last t)
    ⊎ ((last : Step) × (u : S) × Leads take_step step s last u
        × (take_step last u ≡ gives (t, none)))

-- The steps lead to one that runs on, or what is behind the loop runs on.
abbrev pub RunsOn :
    {S : Type 0} → (S → Result S) → (Step → S → Result (S × Option Step)) → Step → S → Type 0
RunsOn {S = S} finish take_step step s =
    ((last : Step) × (t : S) × Leads take_step step s last t × (take_step last t ≡ runs_on))
    ⊎ ((t : S) × ComesOut take_step step s t × (finish t ≡ runs_on))

-- What holds of the outcome of a step that ends the loop.
abbrev pub Finishes : {S : Type 0} → (S → Result S) → (S → Type 0) → S × Option Step → Type 0
Finishes finish P (s, none) = Holds Unit P (finish s)
Finishes finish P (s, some next) = Unit

returned_of-Ended :
    {S : Type 0} (R : Type 0) (P : S → Type 0) (r : Result S)
    → Holds R P r
    → Ended R P (returned_of r)
returned_of-Ended R P panics h = tt
returned_of-Ended R P runs_on h = h
returned_of-Ended R P (gives s) h = h

Ended-map :
    {S : Type 0} (R R' : Type 0) (P : S → Type 0) (p : Progress S)
    → (R → R')
    → Ended R P p
    → Ended R' P p
Ended-map R R' P (returned s) f h = h
Ended-map R R' P panicked f h = tt
Ended-map R R' P still_running f h = f h

module _ {S : Type 0} (finish : S → Result S)
    (take_step : Step → S → Result (S × Option Step)) where
  -- A step before those that run on.
  RunsOn-goes_on :
      (step next : Step) (s s' : S)
      → take_step step s ≡ gives (s', some next)
      → RunsOn finish take_step next s'
      → RunsOn finish take_step step s
  RunsOn-goes_on step next s s' eq (inl (last, t, leads, stays)) =
      inl (last, t, goes_on eq leads, stays)
  RunsOn-goes_on step next s s' eq (inr (t, inl (last, leads), stays)) =
      inr (t, inl (last, goes_on eq leads), stays)
  RunsOn-goes_on step next s s' eq (inr (t, inr (last, u, leads, out), stays)) =
      inr (t, inr (last, u, goes_on eq leads, out), stays)

  after_step-Ended :
      (N : Type 0) (P : S → Type 0) (go_on : Step → S → Progress S) (step : Step) (s : S)
      (r : Result (S × Option Step))
      → take_step step s ≡ r
      → Holds Unit (Finishes finish P) r
      → ((next : Step) (s' : S) → Ended (RunsOn finish take_step next s' ⊎ N) P (go_on next s'))
      → Ended (RunsOn finish take_step step s ⊎ N) P (after_step finish go_on r)
  after_step-Ended N P go_on step s panics eq ends h = tt
  after_step-Ended N P go_on step s runs_on eq ends h = inl (inl (step, s, here, eq))
  after_step-Ended N P go_on step s (gives (t, none)) eq ends h =
      returned_of-Ended (RunsOn finish take_step step s ⊎ N) P (finish t) (
        Holds-where (RunsOn finish take_step step s ⊎ N) P (finish t) ends
          (λ stays. inl (inr (t, inr (step, s, here, eq), stays))))
  after_step-Ended N P go_on step s (gives (t, some next)) eq ends h =
      Ended-map (RunsOn finish take_step next t ⊎ N) (RunsOn finish take_step step s ⊎ N) P
        (go_on next t)
        (λ why. elim why [ inl q ↦ inl (RunsOn-goes_on step next s t eq q) | inr n ↦ inr n ])
        (h next t)

module _ {S : Type 0} (rt_of : S → Revtr) (cancel : S → S) (finish : S → Result S)
    (take_step : Step → S → Result (S × Option Step)) (is_done : ℕ → Bool) where
  -- What holds of every state that the loop may end with holds of what it returns; and where it is
  -- still running, the steps lead to one that runs on, or the context was never done.
  pub run_loop-Ended :
      (P : S → Type 0)
      → ((s : S) → P (cancel s))
      → ((s : S) → is_failed (rt_of s).stop_reason ≡ true → Holds Unit P (finish s))
      → ((step : Step) (s : S) → Holds Unit (Finishes finish P) (take_step step s))
      → (rounds i : ℕ) (curr_step : Step) (s : S)
      → Ended
          (RunsOn finish take_step curr_step s ⊎ NeverDone is_done i rounds)
          P
          (run_loop rt_of cancel finish take_step is_done rounds i curr_step s)
  unfolding run_loop
  run_loop-Ended P canceled_P failed_P steps_P zero i curr_step s = inr tt
  run_loop-Ended P canceled_P failed_P steps_P (suc rounds) i curr_step s =
      if-cases (Ended Why P) (is_done i) (λ now. canceled_P s)
        (λ not_yet.
          if-cases (Ended Why P) (is_failed (rt_of s).stop_reason)
            (λ over. returned_of-Ended Why P (finish s) (
              Holds-where Why P (finish s) (failed_P s over)
                (λ stays. inl (inr (s, inl (curr_step, here), stays)))))
            (λ alive.
              after_step-Ended finish take_step (NeverDone is_done i (suc rounds)) P _ curr_step s
                (take_step curr_step s) refl (steps_P curr_step s)
                (λ next s'.
                  Ended-map (RunsOn finish take_step next s' ⊎ NeverDone is_done (suc i) rounds)
                    (RunsOn finish take_step next s' ⊎ NeverDone is_done i (suc rounds)) P _
                    (λ why. elim why [ inl q ↦ inl q | inr never ↦ inr (not_yet, never) ])
                    (run_loop-Ended P canceled_P failed_P steps_P rounds (suc i) next s'))))
    where
      Why : Type 0
      Why = RunsOn finish take_step curr_step s ⊎ NeverDone is_done i (suc rounds)
