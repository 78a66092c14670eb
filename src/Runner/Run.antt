-- ===== src/Runner/Run.antt =====
-- `run` of revtr/runner/revtr_runner.go: the loop over the steps.
--
-- `take_step` runs a step on the state, of which `rt_of` is the traceroute; `is_done` tells in each
-- round whether the context is done, `cancel` notes it, and `finish` is what comes behind the loop. A
-- step that runs on never returns to the loop, which is then still running. The channel of the result
-- is left out.
pub mod Endings
use reverse_traceroute_publi.Base.{
  ℕ, zero, suc, ◌≡◌, ◌⊎◌, inl, inr, Bool, true, false, Option, none, some, Result, panics, runs_on,
  gives, Holds, if-cases, if◌then◌else◌,
}
use reverse_traceroute_publi.Revtr.{Revtr, StopReason, unset, failed, canceled, trivial, reached}
use reverse_traceroute_publi.Runner.Symmetric.{Step, initial_step}

-- How the loop stands after some rounds.
pub data Progress (S : Type 0) : Type 0 where
  returned : S → Progress S
  panicked still_running : Progress S

abbrev pub is_failed : StopReason → Bool
is_failed failed = true
is_failed unset = false
is_failed trivial = false
is_failed canceled = false
is_failed reached = false

-- What the loop returns.
abbrev pub returned_of : {S : Type 0} → Result S → Progress S
returned_of panics = panicked
returned_of runs_on = still_running
returned_of (gives s) = returned s

-- What a round does with the outcome of its step: on nil the loop returns.
abbrev pub after_step :
    {S : Type 0} → (S → Result S) → (Step → S → Progress S) → Result (S × Option Step) → Progress S
after_step finish go_on panics = panicked
after_step finish go_on runs_on = still_running
after_step finish go_on (gives (s, none)) = returned_of (finish s)
after_step finish go_on (gives (s, some next)) = go_on next s

module _ {S : Type 0} (rt_of : S → Revtr) (cancel : S → S) (finish : S → Result S)
    (take_step : Step → S → Result (S × Option Step)) (is_done : ℕ → Bool) where
  -- `rounds` rounds from the round `i` on.
  unfoldable pub run_loop : ℕ → ℕ → Step → S → Progress S
  run_loop zero i curr_step s = still_running
  run_loop (suc rounds) i curr_step s =
      if is_done i
      then returned (cancel s)
      else if is_failed (rt_of s).stop_reason
      then returned_of (finish s)
      else after_step finish (run_loop rounds (suc i)) (take_step curr_step s)

  unfoldable pub run : ℕ → S → Progress S
  unfolding run_loop
  run rounds s = run_loop rounds 0 (initial_step (rt_of s)) s
