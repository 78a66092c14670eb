-- ===== src/Runner/Tunnel/Stuck.antt =====
-- A loop of `nextHopLastHop` of revtr/runner/revtr_runner.go that does not end.
use reverse_traceroute_publi.Base.{
  ℕ, zero, suc, ◌≡◌, refl, ap, ◌>>=◌, reverse, Dict, Bool, true, false, List, [], ◌∷◌, String,
  Option, none, some, runs_on, of_option, ◌>>>◌, fetch, store, if◌then◌else◌, eq_refl,
}
use mathlib.Core.Bool.{and-false}
use reverse_traceroute_publi.Segment.{Segment, hops, is_dst_sym}
use reverse_traceroute_publi.ReversePath.{ReversePath, path_last_hop, last_seg}
use reverse_traceroute_publi.Revtr.{
  Revtr, Call, on_add, top, curr_path, revtr_last_hop, has_failed, revtr_failed, call_on_add,
}
use reverse_traceroute_publi.Revtr.Fail.{fail_curr_path, fail_loop}
use reverse_traceroute_publi.Runner.Engine.{RoutingViolation, World, Engine}
use reverse_traceroute_publi.Runner.Tunnel.{helpful_hops, try_hops, next_hop_loop}

-- The traceroute stands at a hop that was assumed to be symmetric, alone in its segment, and no
-- segment beyond it is known.
pub record IsStuck (rt : Revtr) : Type 0 where
  pub current : ReversePath
  pub below : List ReversePath
  pub s : Segment
  pub test : String
  pub on_top : rt.paths ≡ current ∷ below
  pub last : last_seg current ≡ some s
  pub stands_at : path_last_hop current ≡ some test
  pub alone : hops s ≡ test ∷ []
  pub symmetric : is_dst_sym s ≡ true
  pub unknown : fetch rt.next_hop_segments_by_hop test ≡ none
  pub lives : has_failed rt.backoff_endhost rt.paths ≡ false

-- The loop of `FailCurrPath` leaves the path where it is.
fail_loop-stays :
    (now : ℕ) (rt : Revtr) (p : ReversePath) (paths : List ReversePath) (s : Segment)
    → has_failed rt.backoff_endhost (p ∷ paths) ≡ false
    → last_seg p ≡ some s
    → is_dst_sym s ≡ true
    → fail_loop now (p ∷ paths) rt ≡ some (record rt { paths = p ∷ paths })
unfolding fail_loop revtr_failed
fail_loop-stays now rt p paths s lives last symmetric = rw (lives, last, symmetric, and-false) refl

marked-IsStuck :
    (rt : Revtr) (st : IsStuck rt)
    → IsStuck
        (record rt { dead_end = store rt.dead_end st.test true; paths = st.current ∷ st.below })
marked-IsStuck rt st = record {
  current = st.current;
  below = st.below;
  s = st.s;
  test = st.test;
  on_top = refl;
  last = st.last;
  stands_at = st.stands_at;
  alone = st.alone;
  symmetric = st.symmetric;
  unknown = st.unknown;
  lives = rw (st.on_top) at st.lives;
}

with_calls-IsStuck :
    (rt : Revtr) (calls : List Call) → IsStuck rt → IsStuck (record rt { calls = calls })
with_calls-IsStuck rt calls st = record {
  current = st.current;
  below = st.below;
  s = st.s;
  test = st.test;
  on_top = st.on_top;
  last = st.last;
  stands_at = st.stands_at;
  alone = st.alone;
  symmetric = st.symmetric;
  unknown = st.unknown;
  lives = st.lives;
}

if-IsStuck : (c : Bool) (a b : Revtr) → IsStuck a → IsStuck b → IsStuck (if c then a else b)
if-IsStuck true a b sa sb = sa
if-IsStuck false a b sa sb = sb

call_on_add-IsStuck : (rt : Revtr) → IsStuck rt → IsStuck (call_on_add rt)
unfolding call_on_add
call_on_add-IsStuck rt st =
    if-IsStuck rt.has_on_add _ rt (with_calls-IsStuck rt (on_add ∷ rt.calls) st) st

-- Failing the current path changes none of this.
fail_curr_path-IsStuck :
    (now : ℕ) (rt : Revtr)
    → IsStuck rt
    → (rt' : Revtr) × (fail_curr_path now rt ≡ some rt') × IsStuck rt'
unfolding fail_curr_path revtr_last_hop curr_path
fail_curr_path-IsStuck now rt st = (
  call_on_add
      (record rt { dead_end = store rt.dead_end st.test true; paths = st.current ∷ st.below }),
  rw (st.on_top, st.stands_at, top)
      (ap (λ (o : Option Revtr). o >>= λ left. some (call_on_add left))
        (fail_loop-stays now
          (record rt { dead_end = store rt.dead_end st.test true; paths = st.current ∷ st.below })
          st.current st.below st.s (rw (st.on_top) at st.lives) st.last st.symmetric)),
  call_on_add-IsStuck _ (marked-IsStuck rt st),
)

helpful_alone :
    (routing : Dict RoutingViolation) (test : String)
    → reverse (helpful_hops routing test (test ∷ [])) ≡ []
unfolding helpful_hops
helpful_alone routing test = rw (eq_refl test) refl

module _ {C : Type 0} (w : World C) where
  -- The loop of `nextHopLastHop` does not end where the traceroute stands at a hop that was assumed to
  -- be symmetric and is alone in its segment, no segment beyond it is known, and the traceroute has not
  -- failed: however many rounds it is given, it is still running.
  pub next_hop_loop-IsStuck :
      (rounds : ℕ) (e : Engine C) → IsStuck e.rt → next_hop_loop w rounds e ≡ runs_on
  unfolding next_hop_loop curr_path try_hops
  next_hop_loop-IsStuck zero e st = refl
  next_hop_loop-IsStuck (suc rounds) e st =
      let failed = fail_curr_path-IsStuck w.now e.rt st in
      rw
        (
          st.on_top,
          st.stands_at,
          of_option,
          ◌>>>◌,
          st.unknown,
          st.last,
          of_option,
          ◌>>>◌,
          st.alone,
          helpful_alone e.routing st.test,
          try_hops,
          failed.1,
        )
        (next_hop_loop-IsStuck rounds (record e { rt = failed.0 }) failed.2)
