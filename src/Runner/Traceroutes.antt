-- ===== src/Runner/Traceroutes.antt =====
-- `issueTraceroute`, `forwardTraceroute` and `RTTPings` of revtr/runner/revtr_runner.go, and `Min` of
-- util/util.go.
--
-- `traceroute src dst check` is what the controller answers, up to an error of `Recv`; `none` is an
-- error of the call. `rtt_ping` is likewise what it answers to pings, where an error leaves nothing. The loop
-- for the stars has no bound, and is given a number of rounds.
pub mod Stars
use reverse_traceroute_publi.Base.{
  ℕ, suc, ◌+◌, ◌^◌, ◌%◌, Bool, true, false, not, List, [], ◌∷◌, ◌++◌, String, str_eq, Option, none,
  some, ◌>>=◌, ◌>>>◌, ◌-◌, zero, Result, runs_on, gives, length, ltb, ◌==◌, if◌then◌else◌, ℤ, pos,
  NatDict, store_at,
}
use reverse_traceroute_publi.StringUtil.{StringMap, map_has, map_set}
use reverse_traceroute_publi.Segment.{Segment, hops}
use reverse_traceroute_publi.Revtr.{Revtr, curr_path}
use reverse_traceroute_publi.Revtr.Storable.{RttMeasurement}
use reverse_traceroute_publi.Runner.Symmetric.{TracerouteHops}
use reverse_traceroute_publi.Runner.Engine.{World}
use reverse_traceroute_publi.Runner.Issue.{number_of, text_of, is_private_text}

pub record TraceHop : Type 0 where
  pub hop_addr : ℕ
  pub probe_ttl : ℕ

-- `datamodel.Traceroute`: whether its `Error` is set, and what else is read of it.
pub record Trace : Type 0 where
  pub has_error : Bool
  pub trace_dst : ℕ
  pub hops_of_trace : List TraceHop
  pub trace_id : ℤ
  pub is_from_cache : Bool

-- What `issueTraceroute` returns: an error, a `tracerouteError` with the traceroute, or the hops.
pub data Traced : Type 0 where
  not_issued : Traced
  not_traced : ℤ → Traced
  traced : TracerouteHops → Traced

-- A ping with the times of its responses.
pub record RttPing : Type 0 where
  pub rtt_dst : ℕ
  pub rtts : List ℕ
  pub ping_id : ℤ

pub record TraceServices : Type 0 where
  pub traceroute : ℕ → ℕ → Bool → Option (List Trace)
  pub rtt_ping : ℕ → List ℕ → List RttPing

-- `util.Min`, which panics on no values.
unfoldable pub least : ℕ → List ℕ → ℕ
least m [] = m
least m (v ∷ vs) = least (if ltb v m then v else m) vs

unfoldable pub min_of : List ℕ → Option ℕ
unfolding least
min_of [] = none
min_of (v ∷ vs) = some (least v (v ∷ vs))

unfoldable pub last_of_hops : List String → Option String
last_of_hops [] = none
last_of_hops (h ∷ []) = some h
last_of_hops (h ∷ k ∷ hs) = last_of_hops (k ∷ hs)

module _ {C : Type 0} (w : World C) (s : TraceServices) where
  -- The loop that appends a star while `j` is below the TTL; it does not change `j`. It runs on where
  -- it takes more than `rounds` rounds.
  unfoldable pub add_stars : ℕ → ℕ → ℕ → List String → Result (List String)
  add_stars zero j ttl hopst = if ltb j ttl then runs_on else gives hopst
  add_stars (suc rounds) j ttl hopst =
      if ltb j ttl then add_stars rounds j ttl (hopst ++ ("*" ∷ [])) else gives hopst

  -- The loop over the hops of the traceroute, which makes texts of them: `n` hops in all, from the
  -- one at `i` on, with stars before each but the last. The sum is one of 32 bits.
  unfoldable pub hop_texts : ℕ → ℕ → ℕ → List TraceHop → List String → Result (List String)
  unfolding add_stars text_of
  hop_texts rounds n i [] hopst = gives hopst
  hop_texts rounds n i (hop ∷ trace) hopst =
      (if not (i == n - 1)
        then add_stars rounds ((hop.probe_ttl + 2) % 2 ^ 32) hop.probe_ttl hopst
        else gives hopst)
      >>> λ starred. hop_texts rounds n (suc i) trace (starred ++ (text_of w hop.hop_addr ∷ []))

  unfoldable pub trace_texts : ℕ → List TraceHop → Result (List String)
  unfolding hop_texts
  trace_texts rounds trace = hop_texts rounds (length trace) 0 trace []

  -- The traceroute is one to `dst` where its last hop is in the cluster of its destination.
  abbrev pub judge_trace : Trace → List String → Option String → Traced
  judge_trace t texts none = not_traced t.trace_id
  judge_trace t texts (some last) =
      if not (str_eq (w.cm last) (w.cm (text_of w t.trace_dst)))
      then not_traced t.trace_id
      else traced
          (record { trace_hops = texts; measurement_id = t.trace_id; from_cache = t.is_from_cache })

  -- The first answer decides.
  unfoldable pub first_trace : ℕ → Option (List Trace) → Result Traced
  unfolding trace_texts last_of_hops text_of
  first_trace rounds none = gives not_issued
  first_trace rounds (some []) = gives not_issued
  first_trace rounds (some (t ∷ ts)) =
      if t.has_error
      then gives (not_traced t.trace_id)
      else trace_texts rounds t.hops_of_trace >>> λ texts.
          gives (judge_trace t texts (last_of_hops texts))

  -- `issueTraceroute`.
  unfoldable pub issue_traceroute : ℕ → String → String → Bool → Result Traced
  unfolding first_trace is_private_text number_of
  issue_traceroute rounds src dst check =
      if is_private_text w dst
      then gives not_issued
      else first_trace rounds (s.traceroute (number_of w src) (number_of w dst) check)

  -- `forwardTraceroute`: the new `ForwardTracerouteID`.
  abbrev pub forward_id : ℤ → Traced → ℤ
  forward_id old not_issued = old
  forward_id old (not_traced id) = id
  forward_id old (traced trace) = trace.measurement_id

  unfoldable pub forward_traceroute : ℕ → Revtr → ℤ → Result ℤ
  unfolding issue_traceroute
  forward_traceroute rounds rt old =
      issue_traceroute rounds rt.src rt.dst true >>> λ trace. gives (forward_id old trace)

  -- The hops of the path, each one once.
  unfoldable pub unseen_hops : List String → StringMap → List ℕ → StringMap × List ℕ
  unfolding number_of
  unseen_hops [] seen dsts = (seen, dsts)
  unseen_hops (hi ∷ seg) seen dsts =
      let skipped = unseen_hops seg seen dsts in
      let added = unseen_hops seg (map_set hi true seen) (dsts ++ (number_of w hi ∷ [])) in
      if map_has hi seen then skipped else added

  unfoldable pub unseen_of_path : List Segment → StringMap → List ℕ → List ℕ
  unfolding unseen_hops
  unseen_of_path [] seen dsts = dsts
  unseen_of_path (s ∷ segs) seen dsts =
      let next = unseen_hops (hops s) seen dsts in unseen_of_path segs next.0 next.1

  -- The least time of each answer; no time is 0.
  unfoldable pub note_rtts : List RttPing → NatDict RttMeasurement → NatDict RttMeasurement
  unfolding min_of
  note_rtts [] by_hop = by_hop
  note_rtts (pr ∷ prs) by_hop = note_rtts prs (
      store_at by_hop pr.rtt_dst
        (record { rtt = elim (min_of pr.rtts) [ none ↦ 0 | some m ↦ m ]; rtt_id = pr.ping_id }))

  -- `RTTPings`.
  unfoldable pub rtt_pings : Revtr → NatDict RttMeasurement → Option (NatDict RttMeasurement)
  unfolding note_rtts unseen_of_path
  rtt_pings rt by_hop = curr_path rt >>= λ p.
      some (note_rtts (s.rtt_ping (number_of w rt.src) (unseen_of_path p.path [] [])) by_hop)
