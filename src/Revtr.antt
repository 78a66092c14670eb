-- ===== src/Revtr.antt =====
-- revtr/reverse_traceroute/revese_traceroute.go: the state of one reverse traceroute and its stack
-- of paths. `Paths` is listed from the top of the stack, so the head is Go's last element.
--
-- A callback field holds whether it is set, and `calls` records the calls, newest first; each
-- `sync.Once` is a flag. The clock's reading is the argument `now`. `none` is a panic. A method
-- that changes its receiver returns the new state.
pub mod Add
pub mod Fail
pub mod Probes
pub mod Background
pub mod Storable
pub mod Spoofers
use reverse_traceroute_publi.Base.{
  ℕ, zero, suc, ◌+◌, ◌≤◌, Bool, true, false, not, ◌&&◌, ◌||◌, List, [], ◌∷◌, ◌++◌, map, String,
  str_eq, Option, none, some, ◌>>=◌, length, ltb, ◌==◌, if◌then◌else◌, ℤ, pos, negsuc, eqb_ℤ, ◌+ℤ◌,
  Dict, fetch, store, or_zero,
}
use reverse_traceroute_publi.Segment.{Net, Segment, base, last_hop, is_dst_sym, dst_rev}
use reverse_traceroute_publi.ReversePath.{
  ReversePath, new_reverse_path, path_hops, path_last_hop, path_reaches, last_seg,
  path_symmetric_assumptions,
}

-- `rspb.Source`, as far as the engine reads it.
pub record Source : Type 0 where
  pub ip : String
  pub ingress : String

-- The values of `StopReason`, and the empty string.
pub data StopReason : Type 0 where
  unset failed trivial canceled reached : StopReason

pub data Call : Type 0 where
  on_add on_reach on_fail : Call

pub record Revtr : Type 0 where
  pub src : String
  pub dst : String
  pub paths : List ReversePath
  pub dead_end : Dict Bool
  pub rr_hop_rate_limit : Dict ℕ
  pub rr_hop_vps_left : Dict (List Source)
  pub ts_hop_rate_limit : Dict ℕ
  pub ts_hop_adjs_left : Dict (List String)
  pub stop_reason : StopReason
  pub end_time : ℕ
  pub backoff_endhost : Bool
  pub ts_hop_responsive : Dict ℕ
  pub rr_spoof_rr_responsive : Dict ℤ
  pub has_on_add : Bool
  pub has_on_reach : Bool
  pub has_on_fail : Bool
  pub on_reach_done : Bool
  pub on_fail_done : Bool
  pub calls : List Call
  pub rr_hop_vps_ingress : Dict (Dict String)
  pub failed_ingress : Dict (Dict ℕ)
  pub max_spoofers : ℕ
  pub next_hop_segments_by_hop : Dict Segment

-- `NewReverseTraceroute`: one path, the destination alone, and empty maps. The callbacks and
-- `BackoffEndhost` are those that `CreateReverseTraceroute` sets.
unfoldable pub new_reverse_traceroute :
    Net → String → String → ℕ → Bool → Bool → Bool → Bool → Revtr
new_reverse_traceroute net src dst max_spoofers backoff add reach fail = record {
  src = src;
  dst = dst;
  paths = new_reverse_path net src dst [] ∷ [];
  dead_end = [];
  rr_hop_rate_limit = [];
  rr_hop_vps_left = [];
  ts_hop_rate_limit = [];
  ts_hop_adjs_left = [];
  stop_reason = unset;
  end_time = 0;
  backoff_endhost = backoff;
  ts_hop_responsive = [];
  rr_spoof_rr_responsive = [];
  has_on_add = add;
  has_on_reach = reach;
  has_on_fail = fail;
  on_reach_done = false;
  on_fail_done = false;
  calls = [];
  rr_hop_vps_ingress = [];
  failed_ingress = [];
  max_spoofers = max_spoofers;
  next_hop_segments_by_hop = [];
}

-- `TSSetUnresponsive`, `TSIsResponsive`.
unfoldable pub ts_set_unresponsive : Revtr → String → Revtr
ts_set_unresponsive rt dst = record rt { ts_hop_responsive = store rt.ts_hop_responsive dst 1 }

unfoldable pub ts_is_responsive : Revtr → String → Bool
ts_is_responsive rt dst = or_zero 0 (fetch rt.ts_hop_responsive dst) == 0

-- `AddUnresponsiveRRSpoofer`, `MarkResponsiveRRSpoofer`.
abbrev pub add_unresponsive : Option ℤ → ℤ → ℤ
add_unresponsive none cnt = cnt
add_unresponsive (some v) cnt = if eqb_ℤ v (negsuc 0) then v else v +ℤ cnt

unfoldable pub add_unresponsive_rr_spoofer : Revtr → String → ℤ → Revtr
add_unresponsive_rr_spoofer rt dst cnt = record rt {
  rr_spoof_rr_responsive =
      store rt.rr_spoof_rr_responsive dst
        (add_unresponsive (fetch rt.rr_spoof_rr_responsive dst) cnt);
}

unfoldable pub mark_responsive_rr_spoofer : Revtr → String → Revtr
mark_responsive_rr_spoofer rt dst = record rt {
  rr_spoof_rr_responsive = store rt.rr_spoof_rr_responsive dst (negsuc 0);
}

-- `Deadends`, in some order.
unfoldable pub deadends : Revtr → List String
deadends rt = map (λ e. e.0) rt.dead_end

abbrev pub is_dead_end : Revtr → String → Bool
is_dead_end rt hop = or_zero false (fetch rt.dead_end hop)

unfoldable pub rr_vps_initialized_for_hop : Revtr → String → Bool
rr_vps_initialized_for_hop rt hop = elim (fetch rt.rr_hop_vps_left hop) [
  | none ↦ false
  | some _ ↦ true
]

unfoldable pub set_rr_vps_for_hop : Revtr → String → List Source → Revtr
set_rr_vps_for_hop rt hop vps = record rt { rr_hop_vps_left = store rt.rr_hop_vps_left hop vps }

-- `CurrPath`.
abbrev pub top : List ReversePath → Option ReversePath
top [] = none
top (p ∷ paths) = some p

unfoldable pub curr_path : Revtr → Option ReversePath
curr_path rt = top rt.paths

unfoldable pub symmetric_assumptions_of : Revtr → Option ℕ
unfolding curr_path
symmetric_assumptions_of rt = do p ← curr_path rt; some (path_symmetric_assumptions p)

-- `Hops` is empty with no path.
abbrev hops_of : Option ReversePath → List String
hops_of none = []
hops_of (some p) = path_hops p

unfoldable pub revtr_hops : Revtr → List String
unfolding curr_path
revtr_hops rt = hops_of (curr_path rt)

unfoldable pub revtr_last_hop : Revtr → Option String
unfolding curr_path
revtr_last_hop rt = do p ← curr_path rt; path_last_hop p

-- `Reaches`.
unfoldable pub reach : ℕ → Revtr → Revtr
reach now rt =
    let stopped = record rt { end_time = now; stop_reason = reached } in
    if rt.has_on_reach && not rt.on_reach_done
    then record stopped { on_reach_done = true; calls = on_reach ∷ rt.calls }
    else stopped

unfoldable pub revtr_reaches : (String → String) → ℕ → Revtr → Option (Revtr × Bool)
unfolding reach
revtr_reaches cm now rt = elim rt.paths [
  | [] ↦ some (rt, false)
  | p ∷ paths ↦ path_reaches cm p >>= λ yes_it_does.
      some (if yes_it_does then reach now rt else rt, yes_it_does)
]

-- `Failed`: no path is left, or a backing off traceroute is back at the destination alone.
abbrev is_dst_only : List Segment → Bool
is_dst_only (dst_rev rv ∷ []) = true
is_dst_only _ = false

unfoldable pub has_failed : Bool → List ReversePath → Bool
has_failed backoff [] = true
has_failed backoff (p ∷ []) = backoff && is_dst_only p.path
has_failed backoff (p ∷ q ∷ paths) = false

unfoldable pub fail : ℕ → Revtr → Revtr
fail now rt =
    let stopped = record rt { end_time = now; stop_reason = failed } in
    if rt.has_on_fail && not rt.on_fail_done
    then record stopped { on_fail_done = true; calls = on_fail ∷ rt.calls }
    else stopped

unfoldable pub revtr_failed : ℕ → Revtr → Revtr × Bool
unfolding has_failed fail
revtr_failed now rt =
    let over = has_failed rt.backoff_endhost rt.paths in (if over then fail now rt else rt, over)

-- `if rt.OnAdd != nil { rt.OnAdd(rt) }`.
unfoldable pub call_on_add : Revtr → Revtr
call_on_add rt = if rt.has_on_add then record rt { calls = on_add ∷ rt.calls } else rt
