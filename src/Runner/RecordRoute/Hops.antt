-- ===== src/Runner/RecordRoute/Hops.antt =====
-- That the segments which `recordRoute` of revtr/runner/revtr_runner.go makes have hops.
use reverse_traceroute_publi.Base.{
  ℕ, suc, ◌≢◌, refl, List, [], ◌∷◌, ◌++◌, String, str_eq, if-holds, take, NatDict,
}
use mathlib.Core.List.{Memᴰ}
use reverse_traceroute_publi.Segment.{Segment, hops, base, zero_ip}
use reverse_traceroute_publi.Segment.Create.{new_rev_segment, mask_hops, new_spoof_rr_rev_segment}
use reverse_traceroute_publi.Runner.Engine.{SpoofRrHops, Options, World}
use reverse_traceroute_publi.Runner.RecordRoute.{prefix_segments, spoofed_segments}

abbrev pub AllHops : List Segment → Type 0
AllHops segs = (s : Segment) → Memᴰ s segs → hops s ≢ []

-- A segment made of some hops has hops.
abbrev Makes : (List String → Segment) → Type 0
Makes make = (h : String) (seg : List String) → hops (make (h ∷ seg)) ≢ []

AllHops-cons : (s : Segment) (segs : List Segment) → hops s ≢ [] → AllHops segs → AllHops (s ∷ segs)
AllHops-cons s segs ne all t (Memᴰ.head e) = λ empty. ne (rw (e) at empty)
AllHops-cons s segs ne all t (Memᴰ.tail m) = all t m

AllHops-append : (xs ys : List Segment) → AllHops xs → AllHops ys → AllHops (xs ++ ys)
AllHops-append [] ys hx hy = hy
AllHops-append (x ∷ xs) ys hx hy =
    AllHops-cons x (xs ++ ys) (hx x (Memᴰ.head refl))
      (AllHops-append xs ys (λ t m. hx t (Memᴰ.tail m)) hy)

prefix_segments-AllHops :
    (make : List String → Segment)
    → Makes make
    → (h : String) (seg : List String) (i : ℕ) (rest : List String)
    → AllHops (prefix_segments make (h ∷ seg) i rest)
unfolding prefix_segments
prefix_segments-AllHops make makes h seg i [] = λ s m. elim m [ ]
prefix_segments-AllHops make makes h seg i (hop ∷ rest) =
    if-holds AllHops (str_eq hop zero_ip) (prefix_segments-AllHops make makes h seg (suc i) rest) (
      AllHops-cons _ _ (makes h (take i seg))
        (prefix_segments-AllHops make makes h seg (suc i) rest))

-- The segments of a whole answer.
pub answer-AllHops :
    (make : List String → Segment)
    → Makes make
    → (hs : List String) → AllHops (prefix_segments make hs 0 hs)
unfolding prefix_segments
answer-AllHops make makes [] = λ s m. elim m [ ]
answer-AllHops make makes (h ∷ hs) = prefix_segments-AllHops make makes h hs 0 (h ∷ hs)

pub cons_ne : (h : String) (seg : List String) → h ∷ seg ≢ []
cons_ne h seg e = cc e

module _ {C : Type 0} (w : World C) (o : Options) where
  pub spoofed_segments-AllHops :
      (src target : String) (rrs : NatDict SpoofRrHops)
      → AllHops (spoofed_segments w o src target rrs)
  unfolding spoofed_segments new_spoof_rr_rev_segment new_rev_segment mask_hops base
  spoofed_segments-AllHops src target [] = λ s m. elim m [ ]
  spoofed_segments-AllHops src target ((from, rr) ∷ rrs) =
      AllHops-append _ _
        (answer-AllHops
          (λ seg.
            new_spoof_rr_rev_segment w.net seg src target rr.vp rr.rr.rr_measurement_id
              rr.rr.rr_from_cache)
          (λ h seg e. cons_ne _ _ e) rr.rr.rr_hops)
        (spoofed_segments-AllHops src target rrs)
