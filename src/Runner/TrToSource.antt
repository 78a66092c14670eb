-- ===== src/Runner/TrToSource.antt =====
-- `intersectingTraceroute` and `trToSource` of revtr/runner/revtr_runner.go: whether a traceroute of
-- the atlas leads to the source from a hop of the current path. `none` is a panic.
pub mod Suffix
use reverse_traceroute_publi.Base.{
  ℕ, suc, ◌+◌, Bool, true, false, not, ◌&&◌, List, [], ◌∷◌, ◌++◌, String, str_eq, Option, none,
  some, ◌>>=◌, length, ◌==◌, if◌then◌else◌, ℤ, pos,
}
use reverse_traceroute_publi.Segment.{IntersectHopType, hops}
use reverse_traceroute_publi.Segment.Create.{new_tr_to_src_rev_segment}
use reverse_traceroute_publi.ReversePath.{last_seg}
use reverse_traceroute_publi.Revtr.{Revtr, curr_path, revtr_reaches}
use reverse_traceroute_publi.Revtr.Background.{add_background_tr_segment}
use reverse_traceroute_publi.Runner.Symmetric.{Step, record_route_step}
use reverse_traceroute_publi.Runner.Engine.{
  IntersectHop, IntersectionResponse, path, none_found, token, IntersectionStream, Options, World,
  Engine, Stepped,
}
use reverse_traceroute_publi.Runner.Issue.{number_of, text_of, is_private_text}

-- `intersectingTR`, as far as the step reads it.
pub record IntersectingTr : Type 0 where
  pub tr_hops : List String
  pub hop_types : List IntersectHopType
  pub addr : String
  pub tr_id : ℤ

-- What `intersectingTraceroute` answers: an error, tokens, or a traceroute; no tokens are nil.
pub data Intersection : Type 0 where
  failed_to_look : Intersection
  only_tokens : List IntersectionResponse → Intersection
  intersects : IntersectingTr → Intersection

-- The loop over the hops of a path: those from the first hop on that is in the cluster of `addr`.
unfoldable pub from_intersection :
    (ℕ → String)
    → (String → String)
    → String
    → Bool
    → List IntersectHop
    → List String × List IntersectHopType
from_intersection text cm addr found [] = ([], [])
from_intersection text cm addr found (h ∷ hs) =
    let hss = text h.hop_ip in
    let skipped = from_intersection text cm addr found hs in
    let rest = from_intersection text cm addr true hs in
    if not found && not (str_eq (cm addr) (cm hss))
    then skipped
    else (hss ∷ rest.0, h.intersect_hop_type ∷ rest.1)

module _ {C : Type 0} (w : World C) where
  -- The loop over the responses.
  unfoldable pub receive_intersections :
      List IntersectionResponse → Bool → List IntersectionResponse → Intersection
  unfolding from_intersection text_of
  receive_intersections tokens is_cut [] = if is_cut then failed_to_look else only_tokens tokens
  receive_intersections tokens is_cut (path address id hs ∷ found) =
      let kept = from_intersection (text_of w) w.cm (text_of w address) false hs in
      intersects
        (record { tr_hops = kept.0; hop_types = kept.1; addr = text_of w address; tr_id = id })
  receive_intersections tokens is_cut (none_found ∷ found) =
      receive_intersections tokens is_cut found
  receive_intersections tokens is_cut (token t ∷ found) =
      receive_intersections (tokens ++ (token t ∷ [])) is_cut found

  unfoldable pub intersecting_answer : Option IntersectionStream → Intersection
  unfolding receive_intersections
  intersecting_answer none = failed_to_look
  intersecting_answer (some st) = receive_intersections [] st.is_cut st.found

  -- The addresses of the last segment that are not private.
  unfoldable pub public_addresses : List String → List ℕ
  unfolding number_of is_private_text
  public_addresses [] = []
  public_addresses (hop ∷ seg) =
      let rest = public_addresses seg in
      if is_private_text w hop then rest else number_of w hop ∷ rest

  -- The end of `trToSource`, with a traceroute. One that does not reach the source panics.
  unfoldable pub follow_traceroute : IntersectingTr → Engine C → Stepped C
  unfolding add_background_tr_segment
  follow_traceroute tr e =
      let noted : Engine C = record e { traceroute_id = tr.tr_id } in
      let segment =
        new_tr_to_src_rev_segment w.net tr.tr_hops tr.hop_types e.rt.src tr.addr tr.tr_id in
      add_background_tr_segment w.visit w.cm w.sorted segment e.rt >>= λ added.
      if not added.1
      then some (record noted { rt = added.0; fail_reason = "Failed to add a TR segment" }, none)
      else revtr_reaches w.cm w.now added.0 >>= λ reached.
          if reached.1 then some (record noted { rt = reached.0 }, none) else none

  -- What `trToSource` does with the answer.
  unfoldable pub after_looking : Engine C → Intersection → Stepped C
  unfolding follow_traceroute
  after_looking e failed_to_look = some (e, some record_route_step)
  after_looking e (only_tokens []) = some (record e { tokens = [] }, some record_route_step)
  after_looking e (only_tokens (t ∷ ts)) =
      some (record e { tokens = t ∷ ts }, some record_route_step)
  after_looking e (intersects tr) =
      if length tr.tr_hops == 0
      then some (record e { tokens = [] }, some record_route_step)
      else follow_traceroute tr e

  -- `trToSource`.
  unfoldable pub tr_to_source : Options → Engine C → Stepped C
  unfolding public_addresses intersecting_answer after_looking
  tr_to_source o e =
      if o.use_atlas
      then (do
        current ← curr_path e.rt
        s ← last_seg current
        after_looking (record e { tr_to_src_round_count = e.tr_to_src_round_count + 1 })
            (intersecting_answer (w.intersecting_path (public_addresses (hops s)))))
      else some (e, some record_route_step)
