-- ===== src/Segment.antt =====
-- revtr/reverse_traceroute/segments.go: the segments of a reverse path, one constructor for each
-- struct that implements `Segment`. A struct that embeds another holds its fields; a method that
-- the embedded `*RevSegment` lends to all of them is a function of the `RevSegment`.
--
-- `cm` is `ClusterMap.Get`, and `visit` the order in which `range` visits a map. The package `net`
-- is the record `Net`. A slice index out of range, where Go panics, is `none`. A method that
-- changes its receiver returns the new one.
pub mod Loops
pub mod Removal
pub mod Ordering
pub mod Create
use reverse_traceroute_publi.Base.{
  ℕ, zero, suc, ◌+◌, ◌-◌, Bool, true, false, not, ◌&&◌, ◌||◌, List, [], ◌∷◌, ◌++◌, map, String,
  compare_text, str_eq, Option, none, some, length, get_elem?, take, drop, ltb, ◌==◌, if◌then◌else◌,
  ℤ, pos, negsuc, ltb_ℤ, eqb_ℤ, next_index,
}
use reverse_traceroute_publi.StringUtil.{
  StringMap, in_array, union, string_slice_reverse, string_array_equals, order_string_array,
  compare_answer, append_each,
}

-- What the source uses of the package `net`: `ParseIP` (nil is `none`) and `IsGlobalUnicast`, an
-- address being a byte slice.
pub record Net : Type 0 where
  pub parse_ip : String → Option (List ℕ)
  pub is_global_unicast : List ℕ → Bool

abbrev pub zero_ip : String
zero_ip = "0.0.0.0"

pub record RevSegment : Type 0 where
  pub segment : List String
  pub src : String
  pub hop : String
  pub measurement_id : ℤ
  pub is_from_cache : Bool

-- `apb.IntersectHopType`: `unknown` stands for the values that are neither of the other two.
pub data IntersectHopType : Type 0 where
  between exact unknown : IntersectHopType

pub data Segment : Type 0 where
  rev : RevSegment → Segment
  dst_rev : RevSegment → Segment
  -- The fields `tr` and `numHops`.
  dst_sym_rev : RevSegment → List String → ℕ → Segment
  tr_to_src_rev : RevSegment → List IntersectHopType → Segment
  rr_rev : RevSegment → Segment
  -- The field `SpoofSource`.
  spoof_rr_rev : RevSegment → String → Segment
  -- The field `LinuxBug`, and `SpoofSource` after it.
  ts_adj_rev : RevSegment → Bool → Segment
  spoof_ts_adj_rev : RevSegment → Bool → String → Segment
  spoof_ts_adj_rev_ts_zero : RevSegment → Bool → String → Segment
  spoof_ts_adj_rev_ts_zero_double_stamp : RevSegment → Bool → String → Segment

-- The embedded `*RevSegment`.
unfoldable pub base : Segment → RevSegment
base (rev rv) = rv
base (dst_rev rv) = rv
base (dst_sym_rev rv tr n) = rv
base (tr_to_src_rev rv ts) = rv
base (rr_rev rv) = rv
base (spoof_rr_rev rv s) = rv
base (ts_adj_rev rv b) = rv
base (spoof_ts_adj_rev rv b s) = rv
base (spoof_ts_adj_rev_ts_zero rv b s) = rv
base (spoof_ts_adj_rev_ts_zero_double_stamp rv b s) = rv

-- A change to what the embedded pointer points to.
unfoldable pub with_base : Segment → RevSegment → Segment
with_base (rev _) rv = rev rv
with_base (dst_rev _) rv = dst_rev rv
with_base (dst_sym_rev _ tr n) rv = dst_sym_rev rv tr n
with_base (tr_to_src_rev _ ts) rv = tr_to_src_rev rv ts
with_base (rr_rev _) rv = rr_rev rv
with_base (spoof_rr_rev _ s) rv = spoof_rr_rev rv s
with_base (ts_adj_rev _ b) rv = ts_adj_rev rv b
with_base (spoof_ts_adj_rev _ b s) rv = spoof_ts_adj_rev rv b s
with_base (spoof_ts_adj_rev_ts_zero _ b s) rv = spoof_ts_adj_rev_ts_zero rv b s
with_base (spoof_ts_adj_rev_ts_zero_double_stamp _ b s) rv =
    spoof_ts_adj_rev_ts_zero_double_stamp rv b s

-- `Type`: the constants of the `iota` block, and 0 for a bare `RevSegment`.
unfoldable pub type_of : Segment → ℕ
type_of (rev rv) = 0
type_of (dst_rev rv) = 1
type_of (dst_sym_rev rv tr n) = 2
type_of (tr_to_src_rev rv ts) = 3
type_of (rr_rev rv) = 5
type_of (spoof_rr_rev rv s) = 6
type_of (ts_adj_rev rv b) = 7
type_of (spoof_ts_adj_rev rv b s) = 8
type_of (spoof_ts_adj_rev_ts_zero rv b s) = 9
type_of (spoof_ts_adj_rev_ts_zero_double_stamp rv b s) = 10

-- `Hops`.
abbrev pub hops : Segment → List String
hops s = (base s).segment

-- `RemoveAt`: `append(rv.Segment[:idx], rv.Segment[idx+1:]...)`. It panics past the last index.
unfoldable pub remove_at : RevSegment → ℕ → Option RevSegment
remove_at rv idx =
    if ltb idx (length rv.segment)
    then some (record rv { segment = take idx rv.segment ++ drop (suc idx) rv.segment })
    else none

-- `clone` and `Clone`: a new slice with the same elements.
unfoldable pub clone_rev : RevSegment → RevSegment
clone_rev rv = record {
  segment = append_each [] rv.segment;
  src = rv.src;
  hop = rv.hop;
  measurement_id = rv.measurement_id;
  is_from_cache = rv.is_from_cache;
}

unfoldable pub clone : Segment → Segment
unfolding clone_rev append_each
clone (rev rv) = rev (clone_rev rv)
clone (dst_rev rv) = dst_rev (clone_rev rv)
clone (dst_sym_rev rv tr n) = dst_sym_rev (clone_rev rv) (append_each [] tr) n
clone (tr_to_src_rev rv ts) = tr_to_src_rev (clone_rev rv) ([] ++ ts)
clone (rr_rev rv) = rr_rev (clone_rev rv)
clone (spoof_rr_rev rv s) = spoof_rr_rev (clone_rev rv) s
clone (ts_adj_rev rv b) = ts_adj_rev (clone_rev rv) b
clone (spoof_ts_adj_rev rv b s) = spoof_ts_adj_rev (clone_rev rv) b s
clone (spoof_ts_adj_rev_ts_zero rv b s) = spoof_ts_adj_rev_ts_zero (clone_rev rv) b s
clone (spoof_ts_adj_rev_ts_zero_double_stamp rv b s) =
    spoof_ts_adj_rev_ts_zero_double_stamp (clone_rev rv) b s

unfoldable pub set_hop : RevSegment → String → RevSegment
set_hop rv h = record rv { hop = h }

-- `rIndex`: the last index whose hop is in the cluster of `s`.
unfoldable pub r_index_loop : (String → String) → String → ℕ → ℤ → List String → ℤ
r_index_loop cm s i index [] = index
r_index_loop cm s i index (st ∷ ss) =
    r_index_loop cm s (suc i) (if str_eq (cm s) (cm st) then pos i else index) ss

unfoldable pub r_index : (String → String) → List String → String → ℤ
unfolding r_index_loop
r_index cm ss s = r_index_loop cm s 0 (negsuc 0) ss

-- The three loops of `RemoveHops`.
unfoldable pub no_zeros : List String → List String
no_zeros [] = []
no_zeros (ip ∷ to_del) = if str_eq ip zero_ip then no_zeros to_del else ip ∷ no_zeros to_del

unfoldable pub max_index_loop : (String → String) → List String → ℤ → List String → ℤ
max_index_loop cm seg max_index [] = max_index
max_index_loop cm seg max_index (h ∷ common) =
    max_index_loop cm seg
      (if ltb_ℤ max_index (r_index cm seg h) then r_index cm seg h else max_index) common

abbrev pub cut_after : ℤ → List String → List String
cut_after max_index seg =
    if eqb_ℤ max_index (pos (length seg)) then [] else drop (next_index max_index) seg

unfoldable pub trim_hops :
    (StringMap → StringMap) → (String → String) → List String → List String → List String
unfolding max_index_loop no_zeros
trim_hops visit cm to_del seg =
    let common = union visit seg (no_zeros to_del) in
    if ltb 0 (length common) then cut_after (max_index_loop cm seg (negsuc 0) common) seg else seg

-- `RemoveHops`. The answer is whether it returns the error "Still a loop".
unfoldable pub remove_hops :
    (StringMap → StringMap) → (String → String) → List String → RevSegment → RevSegment × Bool
remove_hops visit cm to_del rv =
    let trimmed = trim_hops visit cm to_del rv.segment in
    (record rv { segment = trimmed }, ltb 0 (length (union visit trimmed to_del)))

-- `net.ParseIP(h)` is not nil and a global unicast address. (The method answers false on nil.)
unfoldable pub global_unicast : Net → String → Bool
global_unicast net h = elim (net.parse_ip h) [ none ↦ false | some ip ↦ net.is_global_unicast ip ]

-- `RemoveLocalHops`.
unfoldable pub global_hops : Net → List String → List String
global_hops net [] = []
global_hops net (h ∷ seg) =
    if global_unicast net h then h ∷ global_hops net seg else global_hops net seg

unfoldable pub remove_local_hops : Net → RevSegment → RevSegment
remove_local_hops net rv = record rv { segment = global_hops net rv.segment }

-- `SymmetricAssumptions` of `RevSegment`, which no other struct overrides.
unfoldable pub symmetric_assumptions : Segment → ℕ
symmetric_assumptions s = 0

-- `Length`.
unfoldable pub count_nonzero : List String → ℕ
count_nonzero [] = 0
count_nonzero (h ∷ seg) = if str_eq h zero_ip then count_nonzero seg else suc (count_nonzero seg)

unfoldable pub length_of : RevSegment → Bool → ℕ
unfolding count_nonzero
length_of rv exc_null_hops = if exc_null_hops then count_nonzero rv.segment else length rv.segment

-- `LastHop`.
unfoldable pub last_or : String → List String → String
last_or d [] = d
last_or d (h ∷ seg) = last_or h seg

unfoldable pub last_hop : RevSegment → String
unfolding last_or
last_hop rv = last_or "" rv.segment

-- `Reaches`.
unfoldable pub reaches : (String → String) → RevSegment → Bool
reaches cm rv = str_eq (last_hop rv) rv.src || str_eq (cm (last_hop rv)) (cm rv.src)

-- `reflect.TypeOf(s) == reflect.TypeOf(&DstSymRevSegment{})`.
unfoldable pub is_dst_sym : Segment → Bool
is_dst_sym (dst_sym_rev rv tr n) = true
is_dst_sym s = false

-- `Order`. It is a method of `*RevSegment`, so the receiver's own type is never
-- `*DstSymRevSegment`: `rev rv` is the receiver as `reflect.TypeOf(rv)` sees it.
unfoldable pub order_by_length : ℕ → ℕ → ℤ → ℤ
order_by_length ll rl same = if ltb ll rl then negsuc 0 else if ltb rl ll then pos 1 else same

unfoldable pub order : (String → String) → RevSegment → Segment → ℤ
unfolding order_by_length
order cm rv b =
    let ll = length_of rv true in
    let rl = length_of (base b) true in
    if is_dst_sym (rev rv) && not (is_dst_sym b)
    then negsuc 0
    else if is_dst_sym b && not (is_dst_sym (rev rv))
    then pos 1
    else if string_array_equals rv.segment (hops b)
    then pos 0
    else if str_eq (last_hop rv) (last_hop (base b))
    then order_by_length ll rl (order_string_array rv.segment (hops b))
    else if reaches cm rv
    then pos 1
    else if reaches cm (base b)
    then negsuc 0
    else order_by_length ll rl (compare_answer (compare_text (last_hop rv) (last_hop (base b))))
