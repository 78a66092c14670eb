-- ===== src/Segment/Create.antt =====
-- The constructors of revtr/reverse_traceroute/segments.go, and the choice of symmetric hops
-- (`ndsrsSelectNonzeroHops`, `NewDstSymRevSegment`, `AddHop`). Definitions; child modules prove.
pub mod Select
use reverse_traceroute_publi.Base.{
  ℕ, zero, suc, ◌+◌, Bool, true, false, not, ◌&&◌, List, [], ◌∷◌, ◌++◌, String, str_eq, Option,
  some, none, length, get_elem?, take, ltb, ◌==◌, if◌then◌else◌, ℤ, ◌>>=◌,
}
use mathlib.Core.Option
use reverse_traceroute_publi.StringUtil.{in_array, string_slice_reverse}
use reverse_traceroute_publi.Segment.{
  Net, RevSegment, Segment, IntersectHopType, zero_ip, global_unicast, dst_rev, dst_sym_rev,
  tr_to_src_rev, rr_rev, spoof_rr_rev, ts_adj_rev, spoof_ts_adj_rev, spoof_ts_adj_rev_ts_zero,
  spoof_ts_adj_rev_ts_zero_double_stamp,
}

-- The loop of `NewRevSegment`: a hop that is no global unicast address becomes 0.0.0.0.
unfoldable pub mask_hops : Net → List String → List String
mask_hops net [] = []
mask_hops net (h ∷ seg) = (if not (global_unicast net h) then zero_ip else h) ∷ mask_hops net seg

unfoldable pub new_rev_segment : Net → List String → String → String → ℤ → Bool → RevSegment
unfolding mask_hops
new_rev_segment net seg src hop id cached = record {
  segment = mask_hops net seg;
  src = src;
  hop = hop;
  measurement_id = id;
  is_from_cache = cached;
}

-- `tr[:len(tr)-1]`, which panics on an empty slice.
unfoldable pub drop_last : List String → Option (List String)
drop_last [] = none
drop_last (t ∷ tr) = some (take (length tr) (t ∷ tr))

-- The first loop of `ndsrsSelectNonzeroHops`: the index and the number of hops found.
unfoldable pub usable_hop : List String → String → Bool
usable_hop ignored t = not (str_eq t zero_ip) && not (in_array ignored t)

unfoldable pub select_loop : ℕ → List String → ℕ → ℕ → List String → ℕ × ℕ
select_loop wanted ignored i found [] = (i, found)
select_loop wanted ignored i found (t ∷ tr) =
    let next =
      select_loop wanted ignored (suc i) (if usable_hop ignored t then suc found else found) tr in
    if ltb found wanted then next else (i, found)

-- The second loop: `lastValidHop + 1`, from the index below `k`. At index -1 the source panics.
abbrev pub valid_or : Option String → ℕ → Option ℕ → Option ℕ
valid_or none k below = none
valid_or (some h) k below = if str_eq h zero_ip then below else some (suc k)

unfoldable pub last_valid : List String → ℕ → Option ℕ
last_valid tr zero = none
last_valid tr (suc k) = valid_or (get_elem? tr k) k (last_valid tr k)

unfoldable pub select_nonzero_hops : List String → ℕ → List String → Option (List String)
unfolding select_loop last_valid
select_nonzero_hops tr wanted ignored =
    let chosen = select_loop wanted ignored 0 0 tr in
    let fallback = Option.map (λ n. take n tr) (last_valid tr (length tr)) in
    if chosen.1 == wanted then some (take chosen.0 tr) else fallback

-- `NewDstSymRevSegment`.
unfoldable pub new_dst_sym_rev_segment :
    Net → String → String → List String → ℕ → List String → ℤ → Bool → Option Segment
new_dst_sym_rev_segment net src hop tr num_hops ignored id cached = do
  front ← drop_last tr
  seg ← select_nonzero_hops (string_slice_reverse (src ∷ front)) num_hops ignored
  some (dst_sym_rev (new_rev_segment net seg src hop id cached) tr num_hops)

-- `AddHop` of a `DstSymRevSegment` with the fields `rv`, `tr` and `num_hops`.
unfoldable pub add_hop : RevSegment → List String → ℕ → List String → Option Segment
add_hop rv tr num_hops ignored = do
  front ← drop_last tr
  seg ← select_nonzero_hops (string_slice_reverse (rv.src ∷ front)) (num_hops + 1) ignored
  some (dst_sym_rev (record rv { segment = seg }) tr (num_hops + 1))

module _ (net : Net) (seg : List String) (src hop : String) where
  unfoldable pub new_dst_rev_segment : ℤ → Bool → Segment
  new_dst_rev_segment id cached = dst_rev (new_rev_segment net seg src hop id cached)

  unfoldable pub new_rr_rev_segment : ℤ → Bool → Segment
  new_rr_rev_segment id cached = rr_rev (new_rev_segment net seg src hop id cached)

  unfoldable pub new_spoof_rr_rev_segment : String → ℤ → Bool → Segment
  new_spoof_rr_rev_segment spfsrc id cached =
      spoof_rr_rev (new_rev_segment net seg src hop id cached) spfsrc

  unfoldable pub new_ts_adj_rev_segment : Bool → ℤ → Bool → Segment
  new_ts_adj_rev_segment linuxbug id cached =
      ts_adj_rev (new_rev_segment net seg src hop id cached) linuxbug

  unfoldable pub new_spoof_ts_adj_rev_segment : String → Bool → ℤ → Bool → Segment
  new_spoof_ts_adj_rev_segment spfsrc linuxbug id cached =
      spoof_ts_adj_rev (new_rev_segment net seg src hop id cached) linuxbug spfsrc

  unfoldable pub new_spoof_ts_adj_rev_segment_ts_zero : String → Bool → ℤ → Bool → Segment
  new_spoof_ts_adj_rev_segment_ts_zero spfsrc linuxbug id cached =
      spoof_ts_adj_rev_ts_zero (new_rev_segment net seg src hop id cached) linuxbug spfsrc

  unfoldable pub new_spoof_ts_adj_rev_segment_ts_zero_double_stamp :
      String → Bool → ℤ → Bool → Segment
  new_spoof_ts_adj_rev_segment_ts_zero_double_stamp spfsrc linuxbug id cached =
      spoof_ts_adj_rev_ts_zero_double_stamp (new_rev_segment net seg src hop id cached) linuxbug
        spfsrc

-- `NewTrtoSrcRevSegment` is never from the cache.
unfoldable pub new_tr_to_src_rev_segment :
    Net → List String → List IntersectHopType → String → String → ℤ → Segment
new_tr_to_src_rev_segment net seg types src hop id =
    tr_to_src_rev (new_rev_segment net seg src hop id false) types
