-- ===== src/Revtr/Add.antt =====
-- `AddSegments` and `AddAndReplaceSegment` of revtr/reverse_traceroute/revese_traceroute.go.
--
-- `cm` is `ClusterMap.Get`, `visit` the order in which `range` visits a map, and `sorted` what
-- `sort.Sort` with `magicSort` makes of a slice. `NextHopsegmentsbyHop` and the paths hold the
-- same pointer to a segment, so the map is given the segment as it is after `RemoveHops`.
pub mod Rest
pub mod Stack
pub mod Neighbours
pub mod LoopFree
pub mod Replace
use reverse_traceroute_publi.Base.{
  ℕ, Bool, true, false, not, List, [], ◌∷◌, String, Option, none, some, ◌>>=◌, length, ltb, ◌==◌,
  if◌then◌else◌, Dict, fetch, store, ltb_ℤ, pos,
}
use reverse_traceroute_publi.StringUtil.{StringMap}
use reverse_traceroute_publi.Segment.{
  Segment, base, with_base, hops, type_of, last_hop, remove_hops, order,
}
use reverse_traceroute_publi.Segment.Create.{drop_last}
use reverse_traceroute_publi.ReversePath.{ReversePath, clone_path, path_hops, pop, add}
use reverse_traceroute_publi.Revtr.{Revtr, curr_path, is_dead_end, call_on_add}

-- `magicSort.Less`, on the elements.
unfoldable pub less : (String → String) → Segment → Segment → Bool
less cm a b = ltb_ℤ (order cm (base a) b) (pos 0)

-- `NextHopsegmentsbyHop[hop] = s` for the hops that have no entry yet.
unfoldable pub note_hop : Dict Segment → String → Segment → Dict Segment
note_hop next hop s = elim (fetch next hop) [ none ↦ store next hop s | some _ ↦ next ]

unfoldable pub note_hops : Dict Segment → List String → Segment → Dict Segment
note_hops next [] s = next
note_hops next (hop ∷ front) s = note_hops (note_hop next hop s) front s

unfoldable pub push : Revtr → ReversePath → Revtr
push rt p = record rt { paths = p ∷ rt.paths }

-- How the loop of `AddSegments` ends: by `return false` on an error, or with `added`.
pub data LoopEnd : Type 0 where
  returned : LoopEnd
  finished : Bool → LoopEnd

-- A round ends by `continue`, by `return false`, or with a path on the stack.
pub data Round : Type 0 where
  continues returns grows : Revtr → Round

abbrev pub after_round :
    (Revtr → Bool → Option (Revtr × LoopEnd)) → Bool → Round → Option (Revtr × LoopEnd)
after_round loop added (continues rt) = loop rt added
after_round loop added (returns rt) = some (rt, returned)
after_round loop added (grows rt) = loop rt true

-- What `AddSegments` does behind its loop.
abbrev pub after_loop : Revtr × LoopEnd → Revtr × Bool
after_loop (rt, returned) = (rt, false)
after_loop (rt, finished added) = (if added then call_on_add rt else rt, added)

module _ (visit : StringMap → StringMap) (cm : String → String) where
  -- The loop removal, which a traceroute to the source is spared; and whether it fails.
  unfoldable pub without_loops : List String → Segment → Segment × Bool
  without_loops path s =
      let removed = remove_hops visit cm path (base s) in
      if type_of s == 3 then (s, false) else (with_base s removed.0, removed.1)

  -- One round of the loop. `none` is the panic of `s.Hops()[:len(s.Hops())-1]`.
  unfoldable pub add_live : ReversePath → Segment → List String → Revtr → Round
  add_live current s front rt =
      let cut = without_loops (path_hops current) s in
      let noted = record rt {
        next_hop_segments_by_hop = note_hops rt.next_hop_segments_by_hop front cut.0;
      } in
      if cut.1
      then returns noted
      else if length (hops cut.0) == 0
      then continues noted
      else grows (push noted (add (clone_path current) cut.0))

  unfoldable pub round : ReversePath → Segment → Revtr → Option Round
  unfolding add_live
  round current s rt =
      if is_dead_end rt (last_hop (base s))
      then some (continues rt)
      else drop_last (hops s) >>= λ front. some (add_live current s front rt)

  unfoldable pub add_loop : ReversePath → List Segment → Revtr → Bool → Option (Revtr × LoopEnd)
  add_loop current [] rt added = some (rt, finished added)
  add_loop current (s ∷ segs) rt added =
      round current s rt >>= after_round (add_loop current segs) added

  unfoldable pub add_segments :
      (List Segment → List Segment) → List Segment → Revtr → Option (Revtr × Bool)
  unfolding round add_loop
  add_segments sorted segs rt = do
    current ← curr_path rt
    ended ← add_loop (clone_path current) (sorted segs) rt false
    some (after_loop ended)

-- `AddAndReplaceSegment`.
unfoldable pub add_and_replace_segment : Segment → Revtr → Option (Revtr × Bool)
add_and_replace_segment s rt =
    let replaced : Option (Revtr × Bool) = curr_path rt >>= λ current.
    pop (clone_path current) >>= λ popped. some (call_on_add (push rt (add popped.0 s)), true) in
    if is_dead_end rt (last_hop (base s)) then some (rt, false) else replaced
