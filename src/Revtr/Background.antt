-- ===== src/Revtr/Background.antt =====
-- `stringSliceIndexWithClusters` and `AddBackgroundTRSegment` of
-- revtr/reverse_traceroute/revese_traceroute.go: a traceroute that meets a path somewhere.
pub mod Crossed
pub mod Trim
pub mod Meets
use reverse_traceroute_publi.Base.{
  ℕ, zero, suc, ◌+◌, ◌-◌, ◌*◌, Bool, true, false, List, [], ◌∷◌, ◌++◌, String, str_eq, Option, none,
  some, ◌>>=◌, length, get_elem?, take, drop, ltb, if◌then◌else◌, ℤ, pos, negsuc,
}
use reverse_traceroute_publi.StringUtil.{StringMap, string_slice_index}
use reverse_traceroute_publi.Segment.{RevSegment, Segment, base, with_base, hops, remove_at}
use reverse_traceroute_publi.ReversePath.{ReversePath, clone_path, path_hops}
use reverse_traceroute_publi.Revtr.{Revtr}
use reverse_traceroute_publi.Revtr.Add.{add_segments, push}

-- `stringSliceIndexWithClusters`.
unfoldable pub last_in_cluster : (String → String) → String → ℕ → ℤ → List String → ℤ
last_in_cluster cm seg i max_index [] = max_index
last_in_cluster cm seg i max_index (s ∷ ss) =
    last_in_cluster cm seg (suc i) (if str_eq (cm s) (cm seg) then pos i else max_index) ss

unfoldable pub string_slice_index_with_clusters : List String → String → (String → String) → ℤ
unfolding last_in_cluster
string_slice_index_with_clusters ss seg cm = last_in_cluster cm seg 0 (negsuc 0) ss

-- The first of the paths that meets the hop, and the index where it does.
unfoldable pub find_chunk : (String → String) → String → List ReversePath → Option (ReversePath × ℕ)
unfolding string_slice_index_with_clusters path_hops
find_chunk cm first [] = none
find_chunk cm first (chunk ∷ chunks) =
    elim (string_slice_index_with_clusters (path_hops chunk) first cm) [
      | pos index ↦ some (chunk, index)
      | negsuc _ ↦ find_chunk cm first chunks
    ]

-- `StringSliceIndex(seg.Hops(), hop) + 1`.
abbrev pub behind_hop : List String → String → ℕ
behind_hop seg hop = elim (string_slice_index seg hop) [ pos p ↦ suc p | negsuc _ ↦ 0 ]

-- `for k+len(seg.Hops())-1 > index { seg.RemoveAt(l) }`, on fuel.
unfoldable pub cut_hops : ℕ → ℕ → ℕ → ℕ → RevSegment → Option RevSegment
unfolding remove_at
cut_hops zero index k l rv = none
cut_hops (suc fuel) index k l rv =
    let rest = remove_at rv l >>= cut_hops fuel index k l in
    if ltb (suc index) (k + length rv.segment) then rest else some rv

-- The segment of the intersection, with `k` hops before it.
unfoldable pub cut_segment : ℕ → String → ℕ → Segment → Option Segment
unfolding cut_hops string_slice_index
cut_segment index first k s =
    cut_hops (suc (length (hops s))) index k (behind_hop (hops s) first) (base s) >>= λ rv.
    some (with_base s rv)

-- What a round of the loop finds: no more hops behind the index, or a segment behind it, across it
-- or in front of it.
pub data CutStep : Type 0 where
  done past across in_front : CutStep

unfoldable pub cut_step : ℕ → ℕ → ℕ → ℕ → CutStep
cut_step index k len len_chunk =
    if ltb (suc index) len_chunk
    then (if ltb index k then past else if ltb (suc index) (k + len) then across else in_front)
    else done

-- The loop that cuts the path behind the index: `before` are the segments before the `j`-th, with
-- `k` hops, and `rest` those from the `j`-th on. It is on fuel. A segment that is deleted leaves nil at
-- its index of the array that the path shares: behind the end of the path, if the segment was the last
-- one, and else in the path, of which `Hops` then panics.
unfoldable pub cut_path :
    ℕ → ReversePath → ℕ → String → ℕ → List Segment → List Segment → Option ReversePath
unfolding path_hops cut_segment cut_step
cut_path zero chunk index first k before rest = none
cut_path (suc fuel) chunk index first k before [] =
    let here : ReversePath = record chunk { path = before ++ [] } in
    if ltb (suc index) (length (path_hops here)) then none else some here
cut_path (suc fuel) chunk index first k before (s ∷ ss) =
    let here : ReversePath = record chunk { path = before ++ (s ∷ ss) } in
    elim (cut_step index k (length (hops s)) (length (path_hops here))) [
      | done ↦ some here
      | past ↦ elim ss [ [] ↦ cut_path fuel chunk index first k before [] | _ ∷ _ ↦ none ]
      | across ↦
          cut_segment index first k s >>= λ t. cut_path fuel chunk index first k before (t ∷ ss)
      | in_front ↦ cut_path fuel chunk index first (k + length (hops s)) (before ++ (s ∷ [])) ss
    ]

-- The fuel is enough for two rounds for each segment.
unfoldable pub cut_chunk : ReversePath → ℕ → String → Option ReversePath
unfolding cut_path
cut_chunk chunk index first =
    cut_path (suc (2 * length chunk.path)) chunk index first 0 [] chunk.path

-- `*rt.Paths` without the path that stands on `n` others.
abbrev pub without_path : ℕ → Revtr → Revtr
without_path n rt =
    let i = length rt.paths - suc n in
    record rt { paths = take i rt.paths ++ drop (suc i) rt.paths }

-- The paths from the bottom of the stack.
unfoldable pub from_bottom : List ReversePath → List ReversePath
from_bottom [] = []
from_bottom (p ∷ paths) = from_bottom paths ++ (p ∷ [])

module _ (visit : StringMap → StringMap) (cm : String → String)
    (sorted : List Segment → List Segment) where
  -- What is done with the path that meets the traceroute.
  unfoldable pub add_at : ReversePath → ℕ → String → Segment → Revtr → Option (Revtr × Bool)
  unfolding cut_chunk
  add_at chunk index first tr_seg rt = do
    found ← cut_chunk (clone_path chunk) index first
    added ← add_segments visit cm sorted (tr_seg ∷ []) (push rt found)
    some (if added.1 then added else (without_path (length rt.paths) added.0, false))

  -- `AddBackgroundTRSegment`. Without paths the first hop is not read.
  unfoldable pub add_background_tr_segment : Segment → Revtr → Option (Revtr × Bool)
  unfolding find_chunk from_bottom add_at
  add_background_tr_segment tr_seg rt = elim rt.paths [
    | [] ↦ some (rt, false)
    | _ ∷ _ ↦ do
      first ← get_elem? (hops tr_seg) 0
      elim (find_chunk cm first (from_bottom rt.paths)) [
        | none ↦ some (rt, false)
        | some (chunk, index) ↦ add_at chunk index first tr_seg rt
      ]
  ]
