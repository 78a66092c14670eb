-- ===== src/Revtr/Add/Neighbours.antt =====
-- What `AddSegments` of revtr/reverse_traceroute/revese_traceroute.go leaves of the choice of the
-- neighbours that `GetTSAdjacents` makes.
use reverse_traceroute_publi.Base.{
  ℕ, ◌≡◌, refl, ◌∙◌, Sat, >>=-Sat, >>=-Sat_any, Sat-map, if-holds, Bool, true, false, List, [], ◌∷◌,
  String, some, Option, length, ◌==◌, Dict,
}
use reverse_traceroute_publi.StringUtil.{StringMap}
use reverse_traceroute_publi.Segment.{Segment, hops, base, last_hop}
use reverse_traceroute_publi.ReversePath.{ReversePath, path_hops, clone_path}
use reverse_traceroute_publi.Revtr.{Revtr, curr_path, call_on_add, is_dead_end}
use reverse_traceroute_publi.Revtr.Add.{
  Round, continues, returns, grows, LoopEnd, returned, finished, after_round, after_loop,
  without_loops, add_live, push, round, drop_last, add_loop, add_segments,
}

abbrev pub neighbours_of : Revtr → Dict (List String) × Dict ℕ
neighbours_of rt = (rt.ts_hop_adjs_left, rt.ts_hop_rate_limit)

abbrev state_of : Round → Revtr
state_of (continues rt) = rt
state_of (returns rt) = rt
state_of (grows rt) = rt

-- A round, or the loop, leaves them.
abbrev RoundLeaves : Revtr → Round → Type 0
RoundLeaves rt r = neighbours_of (state_of r) ≡ neighbours_of rt

abbrev LoopLeaves : Revtr → Revtr × LoopEnd → Type 0
LoopLeaves rt r = neighbours_of r.0 ≡ neighbours_of rt

abbrev pub AddLeaves : Revtr → Revtr × Bool → Type 0
AddLeaves rt r = neighbours_of r.0 ≡ neighbours_of rt

call_on_add-neighbours : (rt : Revtr) → neighbours_of (call_on_add rt) ≡ neighbours_of rt
unfolding call_on_add
call_on_add-neighbours rt =
    if-holds (λ (r : Revtr). neighbours_of r ≡ neighbours_of rt) rt.has_on_add refl refl

after_loop-neighbours :
    (rt : Revtr) (ended : Revtr × LoopEnd) → LoopLeaves rt ended → AddLeaves rt (after_loop ended)
after_loop-neighbours rt (rt', returned) leaves = leaves
after_loop-neighbours rt (rt', finished added) leaves =
    if-holds (λ (r : Revtr). neighbours_of r ≡ neighbours_of rt) added
      (call_on_add-neighbours rt' ∙ leaves) leaves

moved :
    (rt rt' : Revtr) (o : Option (Revtr × LoopEnd))
    → neighbours_of rt' ≡ neighbours_of rt
    → Sat (LoopLeaves rt') o
    → Sat (LoopLeaves rt) o
moved rt rt' o leaves = Sat-map (LoopLeaves rt') (LoopLeaves rt) o (λ r same. same ∙ leaves)

module _ (visit : StringMap → StringMap) (cm : String → String) where
  add_live-neighbours :
      (current : ReversePath) (s : Segment) (front : List String) (rt : Revtr)
      → RoundLeaves rt (add_live visit cm current s front rt)
  unfolding add_live push
  add_live-neighbours current s front rt =
      if-holds (RoundLeaves rt) (without_loops visit cm (path_hops current) s).1 refl (
        if-holds (RoundLeaves rt)
          (length (hops (without_loops visit cm (path_hops current) s).0) == 0) refl refl)

  round-neighbours :
      (current : ReversePath) (s : Segment) (rt : Revtr)
      → Sat (RoundLeaves rt) (round visit cm current s rt)
  unfolding round
  round-neighbours current s rt =
      if-holds (Sat (RoundLeaves rt)) (is_dead_end rt (last_hop (base s))) {a = some (continues rt)}
        refl
        (>>=-Sat_any (RoundLeaves rt) (drop_last (hops s)) _
          (λ front. add_live-neighbours current s front rt))

  after_round-neighbours :
      (rt : Revtr) (loop : Revtr → Bool → Option (Revtr × LoopEnd)) (added : Bool) (r : Round)
      → ((rt' : Revtr) (b : Bool) → Sat (LoopLeaves rt') (loop rt' b))
      → RoundLeaves rt r
      → Sat (LoopLeaves rt) (after_round loop added r)
  after_round-neighbours rt loop added (continues rt') goes leaves =
      moved rt rt' (loop rt' added) leaves (goes rt' added)
  after_round-neighbours rt loop added (returns rt') goes leaves = leaves
  after_round-neighbours rt loop added (grows rt') goes leaves =
      moved rt rt' (loop rt' true) leaves (goes rt' true)

  add_loop-neighbours :
      (current : ReversePath) (segs : List Segment) (rt : Revtr) (added : Bool)
      → Sat (LoopLeaves rt) (add_loop visit cm current segs rt added)
  unfolding add_loop
  add_loop-neighbours current [] rt added = refl
  add_loop-neighbours current (s ∷ segs) rt added =
      >>=-Sat (RoundLeaves rt) (LoopLeaves rt) (round visit cm current s rt) _
        (round-neighbours current s rt)
        (λ r leaves.
          after_round-neighbours rt (add_loop visit cm current segs) added r
            (λ rt' b. add_loop-neighbours current segs rt' b) leaves)

  pub add_segments-neighbours :
      (sorted : List Segment → List Segment) (segs : List Segment) (rt : Revtr)
      → Sat (AddLeaves rt) (add_segments visit cm sorted segs rt)
  unfolding add_segments
  add_segments-neighbours sorted segs rt = >>=-Sat_any (AddLeaves rt) (curr_path rt) _ (λ current.
      >>=-Sat (LoopLeaves rt) (AddLeaves rt)
        (add_loop visit cm (clone_path current) (sorted segs) rt false) _
        (add_loop-neighbours (clone_path current) (sorted segs) rt false)
        (λ ended leaves. after_loop-neighbours rt ended leaves))
