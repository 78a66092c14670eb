-- ===== src/Revtr/Fail.antt =====
-- `FailCurrPath` of revtr/reverse_traceroute/revese_traceroute.go: the current path's last hop
-- becomes a dead end, and paths are popped until one is worth going on with.
use reverse_traceroute_publi.Base.{
  ℕ, ◌≡◌, refl, sym, ap, ap₂, ◌∙◌, ◌⊎◌, inl, inr, Bool, true, false, not, ◌&&◌, List, [], ◌∷◌, ◌++◌,
  String, Option, some, ◌>>=◌, if◌then◌else◌, fetch, store, or_zero, Bool-cases, arith, Dict,
}
use reverse_traceroute_publi.Segment.{Segment, base, last_hop, is_dst_sym}
use reverse_traceroute_publi.ReversePath.{ReversePath, last_seg}
use reverse_traceroute_publi.Revtr.{
  Revtr, StopReason, top, revtr_last_hop, is_dead_end, revtr_failed, has_failed, call_on_add,
}

-- The loop, which runs down the stack.
unfoldable pub fail_loop : ℕ → List ReversePath → Revtr → Option Revtr
fail_loop now [] rt = some (revtr_failed now (record rt { paths = [] })).0
fail_loop now (p ∷ paths) rt =
    let here = revtr_failed now (record rt { paths = p ∷ paths }) in
    let popped = fail_loop now paths here.0 in
    let go_on : Option Revtr = last_seg p >>= λ s.
    if is_dead_end here.0 (last_hop (base s)) && not (is_dst_sym s) then popped else some here.0 in
    if here.1 then some here.0 else go_on

unfoldable pub fail_curr_path : ℕ → Revtr → Option Revtr
fail_curr_path now rt = do
  hop ← revtr_last_hop rt
  left ← fail_loop now rt.paths (record rt { dead_end = store rt.dead_end hop true })
  some (call_on_add left)

-- A path that ends in a dead end, and not in a symmetric segment.
abbrev pub IsSpent : Dict Bool → ReversePath → Type 0
IsSpent dead p =
    (s : Segment) × (last_seg p ≡ some s)
    × (or_zero false (fetch dead (last_hop (base s))) ≡ true)
    × (is_dst_sym s ≡ false)

abbrev pub AllSpent : Dict Bool → List ReversePath → Type 0
AllSpent dead [] = Unit {0}
AllSpent dead (p ∷ paths) = IsSpent dead p × AllSpent dead paths

-- The traceroute has failed, or the path on top goes on.
abbrev pub HasStopped : Revtr → Type 0
HasStopped rt =
    (has_failed rt.backoff_endhost rt.paths ≡ true) × (rt.stop_reason ≡ StopReason.failed)
    ⊎ ((p : ReversePath) × (s : Segment) × (top rt.paths ≡ some p)
        × (last_seg p ≡ some s)
        × ((is_dead_end rt (last_hop (base s)) ≡ false) ⊎ (is_dst_sym s ≡ true)))

-- What the loop makes of `paths`.
pub record Popped (dead : Dict Bool) (paths : List ReversePath) (rt : Revtr) : Type 0 where
  pub dropped : List ReversePath
  pub split : paths ≡ dropped ++ rt.paths
  pub spent : AllSpent dead dropped
  pub marked : rt.dead_end ≡ dead
  pub stopped : HasStopped rt

revtr_failed_keeps :
    (now : ℕ) (rt : Revtr)
    → ((revtr_failed now rt).0.paths ≡ rt.paths)
      × ((revtr_failed now rt).0.dead_end ≡ rt.dead_end)
      × ((revtr_failed now rt).0.backoff_endhost ≡ rt.backoff_endhost)
unfolding revtr_failed
revtr_failed_keeps now rt = ground arith

revtr_failed_stops :
    (now : ℕ) (rt : Revtr)
    → (revtr_failed now rt).1 ≡ true
    → (has_failed rt.backoff_endhost rt.paths ≡ true)
      × ((revtr_failed now rt).0.stop_reason ≡ StopReason.failed)
unfolding revtr_failed
revtr_failed_stops now rt h = ground arith

-- Every path of the stack has a segment.
abbrev pub HasSegments : List ReversePath → Type 0
HasSegments [] = Unit {0}
HasSegments (p ∷ paths) = ((s : Segment) × (last_seg p ≡ some s)) × HasSegments paths

abbrev at_paths : ℕ → Revtr → List ReversePath → Revtr × Bool
at_paths now rt paths = revtr_failed now (record rt { paths = paths })

stop_here :
    (now : ℕ) (rt : Revtr) (paths : List ReversePath)
    → HasStopped (at_paths now rt paths).0
    → Popped rt.dead_end paths (at_paths now rt paths).0
stop_here now rt paths stop =
    let keeps = revtr_failed_keeps now (record rt { paths = paths }) in
    record { dropped = []; split = sym keeps.0; spent = tt; marked = keeps.1; stopped = stop }

failed_here :
    (now : ℕ) (rt : Revtr) (paths : List ReversePath)
    → (at_paths now rt paths).1 ≡ true
    → HasStopped (at_paths now rt paths).0
failed_here now rt paths e =
    let keeps = revtr_failed_keeps now (record rt { paths = paths }) in
    let stops = revtr_failed_stops now (record rt { paths = paths }) e in
    inl (ap₂ has_failed keeps.2 keeps.0 ∙ stops.0, stops.1)

goes_on_here :
    (now : ℕ) (rt : Revtr) (p : ReversePath) (paths : List ReversePath) (s : Segment)
    → last_seg p ≡ some s
    → (is_dead_end (at_paths now rt (p ∷ paths)).0 (last_hop (base s)) && not (is_dst_sym s))
      ≡ false
    → HasStopped (at_paths now rt (p ∷ paths)).0
goes_on_here now rt p paths s last e =
    let keeps = revtr_failed_keeps now (record rt { paths = p ∷ paths }) in
    inr (p, s, ap top keeps.0, last, ground arith)

AllSpent-eq :
    (d e : Dict Bool) (paths : List ReversePath) → d ≡ e → AllSpent d paths → AllSpent e paths
AllSpent-eq d e paths same spent = rw same at spent

pop_one :
    (now : ℕ) (rt : Revtr) (p : ReversePath) (paths : List ReversePath) (s : Segment)
    → last_seg p ≡ some s
    → (is_dead_end (at_paths now rt (p ∷ paths)).0 (last_hop (base s)) && not (is_dst_sym s)) ≡ true
    → {rt' : Revtr} → Popped (at_paths now rt (p ∷ paths)).0.dead_end paths rt'
    → Popped rt.dead_end (p ∷ paths) rt'
pop_one now rt p paths s last dead popped = record {
  dropped = p ∷ popped.dropped;
  split = ap (◌∷◌ p) popped.split;
  spent = (
    (s, last, ap (λ d. or_zero false (fetch d (last_hop (base s)))) (sym same) ∙ both.0, both.1),
    AllSpent-eq _ rt.dead_end popped.dropped same popped.spent,
  );
  marked = popped.marked ∙ same;
  stopped = popped.stopped;
}
  where
    same : (at_paths now rt (p ∷ paths)).0.dead_end ≡ rt.dead_end
    same = (revtr_failed_keeps now (record rt { paths = p ∷ paths })).1

    both :
        (is_dead_end (at_paths now rt (p ∷ paths)).0 (last_hop (base s)) ≡ true)
        × (is_dst_sym s ≡ false)
    both = ground arith

fail_loop-Popped :
    (now : ℕ) (paths : List ReversePath) (rt : Revtr)
    → HasSegments paths
    → (rt' : Revtr) × (fail_loop now paths rt ≡ some rt') × Popped rt.dead_end paths rt'
unfolding fail_loop
fail_loop-Popped now [] rt h =
    (_, refl, stop_here now rt [] (failed_here now rt [] (unfold revtr_failed has_failed in refl)))
fail_loop-Popped now (p ∷ paths) rt ((s, last), h) =
    elim (Bool-cases (at_paths now rt (p ∷ paths)).1) [
      | inl over ↦
          rw over (_, refl, stop_here now rt (p ∷ paths) (failed_here now rt (p ∷ paths) over))
      | inr going ↦
          elim (Bool-cases (
            is_dead_end (at_paths now rt (p ∷ paths)).0 (last_hop (base s))
            && not (is_dst_sym s))) [
              | inr live ↦
                  rw (going, last, live)
                    (
                      _,
                      refl,
                      stop_here now rt (p ∷ paths) (goes_on_here now rt p paths s last live),
                    )
              | inl dead ↦
                  let (rt', e, popped) =
                    fail_loop-Popped now paths (at_paths now rt (p ∷ paths)).0 h in
                  rw (going, last, dead) (rt', e, pop_one now rt p paths s last dead popped)
            ]
    ]

pub call_on_add_keeps :
    (rt : Revtr) → ((call_on_add rt).paths ≡ rt.paths) × ((call_on_add rt).dead_end ≡ rt.dead_end)
unfolding call_on_add
call_on_add_keeps rt = ground arith

call_on_add-HasStopped : (rt : Revtr) → HasStopped rt → HasStopped (call_on_add rt)
unfolding call_on_add
call_on_add-HasStopped rt h = elim (Bool-cases rt.has_on_add) [ inl e ↦ rw e h | inr e ↦ rw e h ]

-- `FailCurrPath` ends, and without a panic, on every stack of paths that have segments. The last
-- hop is a dead end from then on; the paths popped are the top of the stack, each of which ended in
-- a dead end and in no symmetric segment; and the traceroute has failed, or the path now on top
-- ends in a live hop or in a symmetric segment.
pub fail_curr_path-Popped :
    (now : ℕ) (rt : Revtr) (hop : String)
    → HasSegments rt.paths
    → revtr_last_hop rt ≡ some hop
    → (rt' : Revtr) × (fail_curr_path now rt ≡ some rt')
      × Popped (store rt.dead_end hop true) rt.paths rt'
unfolding fail_curr_path
fail_curr_path-Popped now rt hop h e =
    let (left, e', popped) =
      fail_loop-Popped now rt.paths (record rt { dead_end = store rt.dead_end hop true }) h in
    rw (e, e') (call_on_add left, refl, after_call popped)
  where
    after_call :
        {left : Revtr}
        → Popped (store rt.dead_end hop true) rt.paths left
        → Popped (store rt.dead_end hop true) rt.paths (call_on_add left)
    after_call {left} v = record {
      dropped = v.dropped;
      split = v.split ∙ ap (◌++◌ v.dropped) (sym keeps.0);
      spent = v.spent;
      marked = keeps.1 ∙ v.marked;
      stopped = call_on_add-HasStopped left v.stopped;
    }
      where
        keeps :
            ((call_on_add left).paths ≡ left.paths) × ((call_on_add left).dead_end ≡ left.dead_end)
        keeps = call_on_add_keeps left
