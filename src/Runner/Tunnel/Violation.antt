-- ===== src/Runner/Tunnel/Violation.antt =====
-- When `violatesTunnelDestinationBasedRouting` of revtr/runner/revtr_runner.go answers true.
use reverse_traceroute_publi.Base.{
  suc, ◌≤◌, ◌≡◌, ◌≢◌, ◌↔◌, refl, sym, ◌∙◌, inl, inr, Bool, true, false, Bool-cases, List, [], ◌∷◌,
  String, str_eq, str_cases, length, ltb, if◌then◌else◌, Dict, store, arith, eq_refl, str_ne,
  ltb→lt, not_ltb→le,
}
use reverse_traceroute_publi.Runner.Engine.{RoutingViolation}
use reverse_traceroute_publi.Runner.Tunnel.{next_hops, set_of, judge_hops, violates_tunnel}

abbrev pub AllAre : String → List String → Type 0
AllAre hop [] = Unit
AllAre hop (h ∷ hops) = (h ≡ hop) × AllAre hop hops

-- Storing the only key again keeps the set, storing another makes it longer.
set_of-AllAre :
    (hop : String) (hops : List String)
    → AllAre hop hops
    → set_of ((hop, true) ∷ []) hops ≡ (hop, true) ∷ []
unfolding set_of store
set_of-AllAre hop [] all = refl
set_of-AllAre hop (h ∷ hops) (e, all) = rw (e, eq_refl hop) (set_of-AllAre hop hops all)

length-store : (set : Dict Bool) (key : String) (b : Bool) → length set ≤ length (store set key b)
unfolding store
length-store [] key b = omega arith
length-store ((k, v) ∷ set) key b = elim (Bool-cases (str_eq k key)) [
  | inl same ↦ rw (same) (omega arith)
  | inr other ↦ rw (other) (omega (arith, length-store set key b))
]

length-set_of : (set : Dict Bool) (hops : List String) → length set ≤ length (set_of set hops)
unfolding set_of
length-set_of set [] = omega arith
length-set_of set (h ∷ hops) =
    omega (arith, length-store set h true, length-set_of (store set h true) hops)

-- A set that is left with one element has had no other.
set_of-one :
    (hop : String) (hops : List String)
    → length (set_of ((hop, true) ∷ []) hops) ≤ 1
    → AllAre hop hops
unfolding set_of store
set_of-one hop [] le = tt
set_of-one hop (h ∷ hops) le = elim (str_cases hop h) [
  | inl e ↦ (sym e, set_of-one hop hops (rw (sym e, eq_refl hop) at le))
  | inr ne ↦
      absurd (omega (arith, rw (ne) at le, length-set_of ((hop, true) ∷ (h, true) ∷ []) hops))
]

all_same : (h only : String) (hops : List String) → h ≡ only → AllAre only hops → AllAre h hops
all_same h only [] e all = tt
all_same h only (x ∷ hops) e (ex, all) = (ex ∙ sym e, all_same h only hops e all)

judge_hops-short :
    (hop next_hop : String) (set : Dict Bool) (routing : Dict RoutingViolation)
    → (judge_hops hop next_hop set routing).1 ≡ true
    → length set ≤ 1
judge_hops-short hop next_hop [] routing h = omega arith
judge_hops-short hop next_hop (a ∷ []) routing h = omega arith
judge_hops-short hop next_hop (a ∷ b ∷ set) routing h = cc

no_tunnel :
    (hop next_hop only : String) (routing : Dict RoutingViolation)
    → only ≡ next_hop
    → (judge_hops hop next_hop ((only, true) ∷ []) routing).1 ≢ true
no_tunnel hop next_hop only routing e h = cc (rw (e, eq_refl next_hop) at h)

judge_hops-only :
    (hop next_hop only : String) (routing : Dict RoutingViolation)
    → ((judge_hops hop next_hop ((only, true) ∷ []) routing).1 ≡ true) ↔ (only ≢ next_hop)
judge_hops-only hop next_hop only routing = elim (str_cases only next_hop) [
  | inl e ↦ (λ h. absurd (no_tunnel hop next_hop only routing e h), λ ne. absurd (ne e))
  | inr other ↦ (λ h. str_ne only next_hop other, λ ne. rw (other) refl)
]

-- The same on the next hops.
judged_iff :
    (hop next_hop : String) (nexts : List String) (routing : Dict RoutingViolation)
    → ((if ltb (length nexts) 3
          then (routing, false)
          else judge_hops hop next_hop (set_of [] nexts) routing).1
        ≡ true)
      ↔ ((only : String) × AllAre only nexts × (3 ≤ length nexts) × (only ≢ next_hop))
unfolding set_of store
judged_iff hop next_hop [] routing = (λ h. cc, λ r. absurd (omega (arith, r.2)))
judged_iff hop next_hop (h ∷ hops) routing = elim (Bool-cases (ltb (suc (length hops)) 3)) [
  | inl few ↦
      (λ t. cc (rw (few) at t), λ r. absurd (omega (arith, r.2, ltb→lt (suc (length hops)) 3 few)))
  | inr many ↦ (
    λ t.
        let t' = rw (many) at t in
        let all = set_of-one h hops (judge_hops-short hop next_hop _ routing t') in
        (
          h,
          (refl, all),
          not_ltb→le (suc (length hops)) 3 many,
          (judge_hops-only hop next_hop h routing).0 (rw (set_of-AllAre h hops all) at t'),
        ),
    λ r.
        let all = all_same h r.0 hops (r.1.0) r.1.1 in
        rw (many, set_of-AllAre h hops all)
          ((judge_hops-only hop next_hop h routing).1 (λ e. r.3 (sym r.1.0 ∙ e))),
  )
]

-- The routing at a hop is held to go through a tunnel exactly where there are at least three next
-- hops, all of them are the same, and this one is not the next hop known before.
pub violates_tunnel_iff :
    (hop next_hop : String) (segs : List (List String)) (routing : Dict RoutingViolation)
    → ((violates_tunnel hop next_hop segs routing).1 ≡ true) ↔ (
        (only : String) × AllAre only (next_hops segs)
        × (3 ≤ length (next_hops segs))
        × (only ≢ next_hop))
unfolding violates_tunnel
violates_tunnel_iff hop next_hop segs routing = judged_iff hop next_hop (next_hops segs) routing
