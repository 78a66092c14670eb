-- ===== src/Examples/Segments.antt =====
-- The theorems on segments and paths at concrete inputs.
use reverse_traceroute_publi.Base.{
  ℕ, drop, not, str_eq, ◌⊎◌, ◌≡◌, refl, ◌&&◌, false, List, [], ◌∷◌, String, pos, some, str_ne,
}
use reverse_traceroute_publi.StringUtil.{in_array, map_has, map_set, union, string_array_equals}
use reverse_traceroute_publi.Segment.{
  Segment, base, rr_rev, dst_rev, remove_hops, trim_hops, r_index, order, zero_ip, last_hop,
  is_dst_sym, reaches, length_of,
}
use reverse_traceroute_publi.Segment.Removal.{CommonHop, remove_hops-Trims, remove_hops-error}
use reverse_traceroute_publi.Segment.Ordering.{order_asymm}
use reverse_traceroute_publi.Segment.Create.{new_dst_sym_rev_segment}
use reverse_traceroute_publi.Segment.Create.Select.{new_dst_sym_rev_segment_total}
use reverse_traceroute_publi.ReversePath.{ReversePath}
use reverse_traceroute_publi.Examples.Sample.{
  own_order, own_order-VisitsAll, own_cluster, sample_net, hops_b_c, dst_hop, path_b,
}

abbrev old_hops : List String
old_hops = "4.4.4.4" ∷ "9.9.9.9" ∷ []

remove_hops_run : (remove_hops own_order own_cluster old_hops hops_b_c).0.segment ≡ "5.5.5.5" ∷ []
unfolding remove_hops trim_hops union map_has map_set r_index
remove_hops_run = refl

remove_hops-error_example :
    (remove_hops own_order own_cluster
      (zero_ip ∷ [])
      (record hops_b_c { segment = zero_ip ∷ [] })).1
    ≡ (in_array
          (remove_hops own_order own_cluster
            (zero_ip ∷ [])
            (record hops_b_c { segment = zero_ip ∷ [] })).0.segment
          zero_ip
        && in_array (zero_ip ∷ []) zero_ip)
remove_hops-error_example =
    remove_hops-error own_order own_order-VisitsAll own_cluster (zero_ip ∷ [])
      (record hops_b_c { segment = zero_ip ∷ [] })

order_asymm_example : order own_cluster hops_b_c (dst_rev dst_hop) ≡ pos 1
unfolding base order is_dst_sym string_array_equals last_hop reaches length_of
order_asymm_example = order_asymm own_cluster (dst_rev dst_hop) (rr_rev hops_b_c) refl

new_dst_sym_rev_segment_total_example :
    (s : Segment) × (new_dst_sym_rev_segment sample_net "1.1.1.1" "2.2.2.2"
        (zero_ip ∷ "2.2.2.2" ∷ [])
        2
        []
        (pos 4)
        false
      ≡ some s)
new_dst_sym_rev_segment_total_example =
    new_dst_sym_rev_segment_total sample_net "1.1.1.1" "2.2.2.2" (zero_ip ∷ "2.2.2.2" ∷ []) 2 []
      (pos 4) false (λ e. cc) (str_ne "1.1.1.1" zero_ip refl)

-- A segment begins behind the intersection.
abbrev path_beyond : ReversePath
path_beyond = record path_b {
  path =
      dst_rev dst_hop
      ∷ rr_rev hops_b_c
      ∷ rr_rev (record hops_b_c { segment = "8.8.8.8" ∷ [] })
      ∷ [];
}

-- Of the segment 10.0.0.1, 4.4.4.4, 5.5.5.5 the last hop is left.
remove_hops-Trims_example :
    let seg = (remove_hops own_order own_cluster old_hops hops_b_c).0.segment in
    ((k : ℕ) × (seg ≡ drop k hops_b_c.segment))
    × ((in_array seg "4.4.4.4" && (in_array old_hops "4.4.4.4" && not (str_eq "4.4.4.4" zero_ip)))
        ≡ false)
    × ((seg ≡ hops_b_c.segment) ⊎ CommonHop hops_b_c.segment old_hops)
remove_hops-Trims_example =
    remove_hops-Trims own_order own_order-VisitsAll own_cluster old_hops hops_b_c "4.4.4.4"
