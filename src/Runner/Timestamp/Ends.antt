-- ===== src/Runner/Timestamp/Ends.antt =====
-- That the loop of `timestamp` of revtr/runner/revtr_runner.go ends: each round that goes on has taken
-- some of the neighbours that are left.
use reverse_traceroute_publi.Base.{
  ℕ, zero, suc, ◌<◌, ◌≡◌, ◌≢◌, refl, sym, ap, ◌∙◌, Bool, Bool-cases, inl, inr, true, false, List,
  [], ◌∷◌, String, Option, none, some, ◌>>=◌, Sat, >>=-Sat, >>=-Sat_any, Sat-map, if-cases, length,
  drop, length-append, ◌==◌, if◌then◌else◌, not, Dict, fetch, fetch-store, eq_refl, arith, or_zero,
  ltb, subst,
}
use reverse_traceroute_publi.Segment.{Segment}
use reverse_traceroute_publi.ReversePath.{ReversePath}
use reverse_traceroute_publi.Revtr.{Revtr, revtr_last_hop, ts_is_responsive, revtr_reaches}
use reverse_traceroute_publi.Revtr.Add.{add_segments}
use reverse_traceroute_publi.Revtr.Add.Neighbours.{
  neighbours_of, AddLeaves, add_segments-neighbours,
}
use reverse_traceroute_publi.Revtr.Probes.{with_adjacents, next_adjacents, get_ts_adjacents}
use reverse_traceroute_publi.Revtr.Probes.Adjacents.{adjs_left, rate_of, next_adjacents-take}
use reverse_traceroute_publi.Runner.Symmetric.{tr_to_source_step}
use reverse_traceroute_publi.Runner.Engine.{World, Engine, Options}
use reverse_traceroute_publi.Runner.RecordRoute.{Round, again, ends, add_found}
use reverse_traceroute_publi.Runner.Slots.{Probe, TsServices, Stamping, fetch_keyed}
use reverse_traceroute_publi.Runner.Stamps.Steady.{Steady}
use reverse_traceroute_publi.Runner.Timestamp.Probing.{open_round-Steady, probing-Steady}
use reverse_traceroute_publi.Runner.Timestamp.{
  Opening, gives_up, issues, Progress, panicked, unfinished, done, timestamp_round, timestamp_loop,
  timestamp, open_round, after_opening, probe_stamps, add_shown, fresh_round, issue_probes,
  issue_spoofed, check_linux, check_zeros, verify_zeros,
}

-- The neighbours that are left of a hop, once they are looked up.
abbrev pub left_of : (String → String → Option (List String)) → String → Revtr → ℕ
left_of adjacencies target rt = length (adjs_left (with_adjacents adjacencies target rt) target)

-- Once neighbours were handed out, what is left is known, and fewer.
next_adjacents-known :
    (target : String) (rt : Revtr)
    → (length (next_adjacents target rt).1 == 0) ≡ false
    → (adjs : List String) × (fetch (next_adjacents target rt).0.ts_hop_adjs_left target
        ≡ some adjs)
unfolding next_adjacents
next_adjacents-known target rt some_out =
    let left = adjs_left rt target in
    let rate = rate_of rt target in
    let n = if ltb (length left) rate then length left else rate in
    elim (Bool-cases (length left == 0)) [
      | inl empty ↦ absurd (cc (rw (empty) at some_out))
      | inr more ↦ rw (more) (
        drop n left,
        fetch-store rt.ts_hop_adjs_left target target (drop n left) ∙ rw (eq_refl target) refl,
      )
    ]

with_adjacents-known :
    (adjacencies : String → String → Option (List String)) (target : String) (rt : Revtr)
    (adjs : List String)
    → fetch rt.ts_hop_adjs_left target ≡ some adjs
    → with_adjacents adjacencies target rt ≡ rt
unfolding with_adjacents
with_adjacents-known adjacencies target rt adjs known = rw (with_adjacents, known) refl

-- A state that is left with the neighbours of `known` has fewer than `n` to hand out, where that has.
left_of-fewer :
    (adjacencies : String → String → Option (List String)) (target : String) (rt known : Revtr)
    (adjs : List String) (n : ℕ)
    → fetch known.ts_hop_adjs_left target ≡ some adjs
    → neighbours_of rt ≡ neighbours_of known
    → length (adjs_left known target) < n
    → left_of adjacencies target rt < n
left_of-fewer adjacencies target rt known adjs n is_known same fewer =
    let same_left = ap (λ m. fetch m target) (ap (λ (m : Dict (List String) × Dict ℕ). m.0) same) in
    subst (λ k. k < n)
      (sym (
        ap (λ r. length (adjs_left r target))
          (with_adjacents-known adjacencies target rt adjs (same_left ∙ is_known))
        ∙ ap (λ found. length (or_zero [] found)) same_left))
      fewer

next_adjacents-fewer :
    (target : String) (rt : Revtr)
    → (length (next_adjacents target rt).1 == 0) ≡ false
    → length (adjs_left (next_adjacents target rt).0 target) < length (adjs_left rt target)
next_adjacents-fewer target rt some_out =
    let next = next_adjacents target rt in
    let split = (next_adjacents-take target target rt).0 in
    ground (arith, ap length split, length-append next.1 (adjs_left next.0 target), some_out)

-- A round that goes on leaves the neighbours as they were once some were handed out.
abbrev Leaves : {C : Type 0} → Revtr → Stamping C × Round → Type 0
Leaves rt (t, again) = neighbours_of t.e.rt ≡ neighbours_of rt
Leaves rt (t, ends next) = Unit

module _ {C : Type 0} (w : World C) (s : TsServices) (o : Options) where
  abbrev FoundLeaves : Revtr → Engine C × Round → Type 0
  FoundLeaves rt (e, again) = neighbours_of e.rt ≡ neighbours_of rt
  FoundLeaves rt (e, ends next) = Unit

  added-FoundLeaves :
      (e : Engine C) (rt : Revtr) (added : Revtr × Bool)
      → AddLeaves rt added
      → Sat (FoundLeaves rt) (
          if not added.1
          then some (record e { rt = added.0 }, again)
          else revtr_reaches w.cm w.now added.0 >>= λ r.
              some (record e { rt = r.0 }, ends (if r.1 then none else some tr_to_source_step)))
  added-FoundLeaves e rt (rt', false) leaves = leaves
  added-FoundLeaves e rt (rt', true) leaves =
      >>=-Sat_any (FoundLeaves rt) (revtr_reaches w.cm w.now rt') _ (λ r. tt)

  add_found-FoundLeaves :
      (segs : List Segment) (e : Engine C)
      → Sat (FoundLeaves e.rt) (add_found w o tr_to_source_step segs e)
  unfolding add_found
  add_found-FoundLeaves segs e =
      >>=-Sat (AddLeaves e.rt) (FoundLeaves e.rt) (add_segments w.visit w.cm w.sorted segs e.rt) _
        (add_segments-neighbours w.visit w.cm w.sorted segs e.rt)
        (λ added leaves. added-FoundLeaves e e.rt added leaves)

  found-Leaves :
      (t : Stamping C) (r : Engine C × Round)
      → FoundLeaves t.e.rt r
      → Leaves t.e.rt (record t { e = r.0 }, r.1)
  found-Leaves t (e, again) leaves = leaves
  found-Leaves t (e, ends next) leaves = tt

  shown-Leaves :
      (t : Stamping C) (shown : Option (List Segment))
      → Sat (Leaves t.e.rt) (elim shown [
        | none ↦ some (t, again)
        | some segs ↦ add_found w o tr_to_source_step segs t.e >>= λ added.
            some (record t { e = added.0 }, added.1)
      ])
  shown-Leaves t none = refl
  shown-Leaves t (some segs) =
      >>=-Sat (FoundLeaves t.e.rt) (Leaves t.e.rt) (add_found w o tr_to_source_step segs t.e) _
        (add_found-FoundLeaves segs t.e) (found-Leaves t)

  moved-Leaves :
      (rt : Revtr) (t : Stamping C) (r : Stamping C × Round)
      → neighbours_of t.e.rt ≡ neighbours_of rt
      → Leaves t.e.rt r
      → Leaves rt r
  moved-Leaves rt t (t', again) same leaves = leaves ∙ same
  moved-Leaves rt t (t', ends next) same leaves = tt

  add_shown-Leaves : (t : Stamping C) → Sat (Leaves t.e.rt) (add_shown w s o t)
  unfolding add_shown
  add_shown-Leaves t =
      >>=-Sat_any (Leaves t.e.rt) (revtr_last_hop t.e.rt) _
        (λ last. shown-Leaves t (fetch_keyed t.rev_hops (t.e.rt.src ∷ last ∷ [])))

  same_neighbours : (t t' : Stamping C) → Steady t t' → neighbours_of t'.e.rt ≡ neighbours_of t.e.rt
  same_neighbours t t' steady =
      ap (λ (k : Dict (List String) × Dict ℕ × List ReversePath). (k.0, k.1)) steady.same

  probe_stamps-Leaves :
      (probes : List Probe) (t : Stamping C) → Sat (Leaves t.e.rt) (probe_stamps w s o probes t)
  unfolding probe_stamps
  probe_stamps-Leaves probes t =
      let n = if length probes == 0 then 0 else 1 in
      let probed = verify_zeros w s o (
        check_zeros w s o
          (check_linux w s o n (issue_spoofed w s o (issue_probes w s o probes t)))) in
      Sat-map (Leaves probed.e.rt) (Leaves t.e.rt) (add_shown w s o probed)
        (λ r.
          moved-Leaves t.e.rt probed r (same_neighbours t probed (probing-Steady w s o n probes t)))
        (add_shown-Leaves probed)

  after_opening-Leaves :
      (rt : Revtr) (opened : Stamping C × Opening)
      → neighbours_of opened.0.e.rt ≡ neighbours_of rt
      → Sat (Leaves rt) (after_opening w s o opened)
  after_opening-Leaves rt (t, gives_up) same = tt
  after_opening-Leaves rt (t, issues probes) same =
      Sat-map (Leaves t.e.rt) (Leaves rt) (probe_stamps w s o probes (fresh_round w s o t))
        (λ r. moved-Leaves rt t r same) (probe_stamps-Leaves probes (fresh_round w s o t))

  -- Fewer neighbours than `n` are left after a round that goes on.
  abbrev Fewer : String → ℕ → Stamping C × Round → Type 0
  Fewer target n (t, again) = left_of s.adjacencies target t.e.rt < n
  Fewer target n (t, ends next) = Unit

  Leaves-Fewer :
      (target : String) (known : Revtr) (adjs : List String) (n : ℕ) (r : Stamping C × Round)
      → fetch known.ts_hop_adjs_left target ≡ some adjs
      → length (adjs_left known target) < n
      → Leaves known r
      → Fewer target n r
  Leaves-Fewer target known adjs n (t, again) is_known fewer leaves =
      left_of-fewer s.adjacencies target t.e.rt known adjs n is_known leaves fewer
  Leaves-Fewer target known adjs n (t, ends next) is_known fewer leaves = tt

  timestamp_round-Fewer :
      (target : String) (t : Stamping C)
      → Sat (Fewer target (left_of s.adjacencies target t.e.rt)) (timestamp_round w s o target t)
  unfolding timestamp_round get_ts_adjacents
  timestamp_round-Fewer target t =
      let n = left_of s.adjacencies target t.e.rt in
      let rt = with_adjacents s.adjacencies target t.e.rt in
      let got = next_adjacents target rt in
      let ready : Stamping C = record t { e = record t.e { rt = got.0 } } in
      if-cases (Sat (Fewer target n)) (length got.1 == 0) (λ empty. tt)
        (λ some_out.
          let known = next_adjacents-known target rt some_out in
          >>=-Sat_any (Fewer target n) (revtr_last_hop got.0) _ (λ last.
            let opened = open_round w s o target last got.1 ready in
            Sat-map (Leaves got.0) (Fewer target n) (after_opening w s o opened)
              (λ r.
                Leaves-Fewer target got.0 known.0 n r known.1
                  (next_adjacents-fewer target rt some_out))
              (after_opening-Leaves got.0 opened (
                same_neighbours ready opened.0 (open_round-Steady w s o target last got.1 ready)))))

  after-ends :
      (target : String) (rounds n : ℕ) (r : Option (Stamping C × Round))
      → n < suc rounds
      → Sat (Fewer target n) r
      → ((t : Stamping C)
          → left_of s.adjacencies target t.e.rt < rounds
          → timestamp_loop w s o target rounds t ≢ unfinished)
      → (elim r [
        | none ↦ panicked
        | some (t', again) ↦ timestamp_loop w s o target rounds t'
        | some (t', ends next) ↦ done t' next
      ])
        ≢ unfinished
  after-ends target rounds n none enough fewer goes = λ e. cc
  after-ends target rounds n (some (t, again)) enough fewer goes =
      goes t (omega (arith, enough, fewer))
  after-ends target rounds n (some (t, ends next)) enough fewer goes = λ e. cc

  timestamp_loop-ends :
      (target : String) (rounds : ℕ) (t : Stamping C)
      → left_of s.adjacencies target t.e.rt < rounds
      → timestamp_loop w s o target rounds t ≢ unfinished
  unfolding timestamp_loop
  timestamp_loop-ends target zero t enough = absurd (omega (arith, enough))
  timestamp_loop-ends target (suc rounds) t enough =
      after-ends target rounds (left_of s.adjacencies target t.e.rt)
        (timestamp_round w s o target t) enough (timestamp_round-Fewer target t)
        (λ t'. timestamp_loop-ends target rounds t')

  if-ends :
      (c : Bool) (a b : Progress C)
      → a ≢ unfinished
      → b ≢ unfinished
      → (if c then a else b) ≢ unfinished
  if-ends true a b ha hb = ha
  if-ends false a b ha hb = hb

  -- The loop of `timestamp` ends: with more rounds than there are neighbours left of the last hop it
  -- is never found unfinished, whatever the services answer.
  pub timestamp-ends :
      (target : String) (rounds : ℕ) (t : Stamping C)
      → revtr_last_hop t.e.rt ≡ some target
      → left_of s.adjacencies target t.e.rt < rounds
      → timestamp w s o rounds t ≢ unfinished
  unfolding timestamp
  timestamp-ends target rounds t stands_at enough =
      rw (timestamp, stands_at)
        (if-ends (not (ts_is_responsive t.e.rt target)) _ _ (λ e. cc)
          (timestamp_loop-ends target rounds _ enough))
