-- ===== src/Segment/Ordering.antt =====
-- `Order` of revtr/reverse_traceroute/segments.go as `magicSort.Less` uses it.
use reverse_traceroute_publi.Base.{
  ◌≡◌, refl, false, String, str_eq_comm, pos, negsuc, flip-compare_text, List, arith,
}
use reverse_traceroute_publi.StringUtil.{string_array_equals}
use reverse_traceroute_publi.StringUtil.Compare.{string_array_equals_iff, order_string_array-flip}
use reverse_traceroute_publi.Segment.{
  Segment, RevSegment, base, hops, rev, is_dst_sym, last_hop, order,
}

receiver_not_dst_sym : (rv : RevSegment) → is_dst_sym (rev rv) ≡ false
unfolding is_dst_sym
receiver_not_dst_sym rv = refl

string_array_equals_comm :
    (left right : List String) → string_array_equals left right ≡ string_array_equals right left
string_array_equals_comm left right =
    ground (arith, string_array_equals_iff left right, string_array_equals_iff right left)

-- `Order` answers -1 in one direction only: where a segment goes before another one, the other
-- does not go before it. (`sort.Sort` asks `Less`, which is `Order(...) < 0`.)
pub order_asymm :
    (cm : String → String) (a b : Segment)
    → order cm (base a) b ≡ negsuc 0
    → order cm (base b) a ≡ pos 1
unfolding order
order_asymm cm a b h = ground (
  arith,
  receiver_not_dst_sym (base a),
  receiver_not_dst_sym (base b),
  string_array_equals_comm (hops a) (hops b),
  str_eq_comm (last_hop (base a)) (last_hop (base b)),
  order_string_array-flip (hops a) (hops b),
  flip-compare_text (last_hop (base a)) (last_hop (base b)),
)
