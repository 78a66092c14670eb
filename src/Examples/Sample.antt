-- ===== src/Examples/Sample.antt =====
-- Sample data for the examples: a map is visited in its own order, each address is its own cluster,
-- and a slice counts as sorted.
use reverse_traceroute_publi.Base.{
  ◌≢◌, sym, ap, length, arith, subst, inr, refl, true, false, List, [], ◌∷◌, String, some, pos,
}
use mathlib.Core.List.{Memᴰ}
use reverse_traceroute_publi.StringUtil.{StringMap, in_array}
use reverse_traceroute_publi.StringUtil.Sets.{VisitsAll}
use reverse_traceroute_publi.Segment.{
  Net, RevSegment, Segment, base, hops, type_of, rr_rev, dst_rev,
}
use reverse_traceroute_publi.ReversePath.{ReversePath}
use reverse_traceroute_publi.Revtr.{Revtr, Source, new_reverse_traceroute}
use reverse_traceroute_publi.Revtr.Add.Stack.{Rearranges}
use reverse_traceroute_publi.Revtr.Add.LoopFree.{NoLoop}

abbrev pub own_order : StringMap → StringMap
own_order mm = mm

pub own_order-VisitsAll : VisitsAll own_order
own_order-VisitsAll mm c v = refl

abbrev pub own_cluster : String → String
own_cluster s = s

abbrev pub as_it_is : List Segment → List Segment
as_it_is segs = segs

pub as_it_is-Rearranges : Rearranges as_it_is
as_it_is-Rearranges segs s m = m

-- Every address but the empty one is a global unicast address, with no bytes.
abbrev pub sample_net : Net
sample_net = record { parse_ip = λ s. some []; is_global_unicast = λ ip. true }

abbrev pub hops_b_c : RevSegment
hops_b_c = record {
  segment = "10.0.0.1" ∷ "4.4.4.4" ∷ "5.5.5.5" ∷ [];
  src = "1.1.1.1";
  hop = "2.2.2.2";
  measurement_id = pos 7;
  is_from_cache = false;
}

abbrev pub dst_hop : RevSegment
dst_hop = record {
  segment = "2.2.2.2" ∷ [];
  src = "1.1.1.1";
  hop = "2.2.2.2";
  measurement_id = pos 0;
  is_from_cache = false;
}

-- A path of two segments.
abbrev pub path_b : ReversePath
path_b = record { src = "1.1.1.1"; dst = "2.2.2.2"; path = dst_rev dst_hop ∷ rr_rev hops_b_c ∷ [] }

-- A traceroute that has just begun.
abbrev pub fresh : Revtr
fresh = new_reverse_traceroute sample_net "1.1.1.1" "2.2.2.2" 10 false true true true

-- It has found one segment.
abbrev pub two_segs : Revtr
two_segs = record fresh { paths = path_b ∷ [] }

-- Two more segments: the first goes back through 4.4.4.4.
abbrev pub seg_new : Segment
seg_new = rr_rev (record hops_b_c { segment = "4.4.4.4" ∷ "6.6.6.6" ∷ [] })

abbrev pub seg_far : Segment
seg_far = rr_rev (record hops_b_c { segment = "8.8.8.8" ∷ [] })

abbrev pub new_segs : List Segment
new_segs = seg_new ∷ seg_far ∷ []

-- A segment that is fit to be added.
abbrev Fine : Segment → Type 0
Fine s = (hops s ≢ []) × NoLoop (hops s) × (type_of s ≢ 3)

seg_new-Fine : Fine seg_new
unfolding base in_array type_of
seg_new-Fine =
    (λ x. ground (arith, ap length x), (inr refl, (inr refl, tt)), λ x. absurd (omega (arith, x)))

seg_far-Fine : Fine seg_far
unfolding base in_array type_of
seg_far-Fine = (λ x. ground (arith, ap length x), (inr refl, tt), λ x. absurd (omega (arith, x)))

pub new_segs-Fine :
    (s : Segment) → Memᴰ s new_segs → (hops s ≢ []) × NoLoop (hops s) × (type_of s ≢ 3)
new_segs-Fine s (Memᴰ.head e) = subst Fine (sym e) seg_new-Fine
new_segs-Fine s (Memᴰ.tail (Memᴰ.head e)) = subst Fine (sym e) seg_far-Fine
new_segs-Fine s (Memᴰ.tail (Memᴰ.tail m)) = elim m [ ]

abbrev pub vp_1 : Source
vp_1 = record { ip = "10.1.1.1"; ingress = "i1" }

abbrev pub vp_2 : Source
vp_2 = record { ip = "10.1.1.2"; ingress = "i2" }

-- Two vantage points are left for 5.5.5.5, at a rate limit of five.
abbrev pub with_vps : Revtr
with_vps = record two_segs {
  rr_hop_vps_left = ("5.5.5.5", vp_1 ∷ vp_2 ∷ []) ∷ [];
  rr_hop_rate_limit = ("5.5.5.5", 5) ∷ [];
}
