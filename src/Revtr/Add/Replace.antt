-- ===== src/Revtr/Add/Replace.antt =====
-- `AddAndReplaceSegment` of revtr/reverse_traceroute/revese_traceroute.go.
use reverse_traceroute_publi.Base.{◌≡◌, refl, ◌⊎◌, inl, inr, true, false, ◌∷◌, some, Bool-cases}
use reverse_traceroute_publi.Segment.{Segment, base, last_hop}
use reverse_traceroute_publi.ReversePath.{ReversePath, add}
use reverse_traceroute_publi.ReversePath.Hops.{clone_path_lem, pop-add}
use reverse_traceroute_publi.Revtr.{Revtr, curr_path, is_dead_end, call_on_add}
use reverse_traceroute_publi.Revtr.Fail.{call_on_add_keeps}
use reverse_traceroute_publi.Revtr.Add.{push, add_and_replace_segment}

-- `AddAndReplaceSegment` answers false and changes nothing where the segment's last hop is a dead
-- end. Otherwise it answers true, and there is one more path on the stack: the current one with the
-- segment in place of its last. It does not panic on a path that has a segment.
pub add_and_replace_segment_cases :
    (s old : Segment) (rt : Revtr) (q : ReversePath)
    → curr_path rt ≡ some (add q old)
    → (is_dead_end rt (last_hop (base s)) ≡ true)
        × (add_and_replace_segment s rt ≡ some (rt, false))
      ⊎ (is_dead_end rt (last_hop (base s)) ≡ false)
        × ((rt' : Revtr) × (add_and_replace_segment s rt ≡ some (rt', true))
            × (rt'.paths ≡ add q s ∷ rt.paths)
            × (rt'.dead_end ≡ rt.dead_end))
unfolding add_and_replace_segment push
add_and_replace_segment_cases s old rt q e =
    elim (Bool-cases (is_dead_end rt (last_hop (base s)))) [
      | inl dead ↦ inl (dead, rw dead refl)
      | inr live ↦
          let keeps = call_on_add_keeps (push rt (add q s)) in
          inr (
            live,
            (
              call_on_add (push rt (add q s)),
              rw (live, e, clone_path_lem (add q old), pop-add q old) refl,
              keeps.0,
              keeps.1,
            ),
          )
    ]
