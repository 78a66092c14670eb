-- ===== src/Revtr/Add/Stack.antt =====
-- What `AddSegments` and `AddAndReplaceSegment` of
-- revtr/reverse_traceroute/revese_traceroute.go put on the stack of paths.
use reverse_traceroute_publi.Base.{
  ◌≡◌, ◌≢◌, refl, sym, ap, ◌∙◌, ◌⊎◌, inl, inr, Bool, true, false, List, [], ◌∷◌, ◌++◌, String,
  Option, some, append_assoc, fetch, or_zero, Dict,
}
use mathlib.Core.List.{Memᴰ}
use reverse_traceroute_publi.StringUtil.{StringMap}
use reverse_traceroute_publi.StringUtil.Sets.{VisitsAll}
use reverse_traceroute_publi.Segment.{Segment, base, hops, last_hop}
use reverse_traceroute_publi.ReversePath.{ReversePath, path_hops, add}
use reverse_traceroute_publi.ReversePath.Hops.{clone_path_lem}
use reverse_traceroute_publi.Revtr.{Revtr, curr_path}
use reverse_traceroute_publi.Revtr.Fail.{call_on_add_keeps}
use reverse_traceroute_publi.Revtr.Add.Rest.{IsRest, Unchanged, RoundOf, round-RoundOf, round_total}
use reverse_traceroute_publi.Revtr.Add.{
  LoopEnd, returned, finished, Round, continues, returns, grows, after_round, add_loop, after_loop,
  add_segments,
}

-- A path that `AddSegments` puts on the stack: the current one with the rest of a segment whose
-- last hop is no dead end.
abbrev pub IsGrown : Dict Bool → ReversePath → List Segment → ReversePath → Type 0
IsGrown dead current segs p =
    (s : Segment) × (t : Segment) × Memᴰ s segs
    × (p ≡ add current t)
    × (or_zero false (fetch dead (last_hop (base s))) ≡ false)
    × IsRest (path_hops current) s t

abbrev pub AllGrown : Dict Bool → ReversePath → List Segment → List ReversePath → Type 0
AllGrown dead current segs [] = Unit {0}
AllGrown dead current segs (p ∷ news) =
    IsGrown dead current segs p × AllGrown dead current segs news

-- From `rt` to `rt'` the stack grew by such paths, on top, and nothing was marked.
pub record Growth (current : ReversePath) (segs : List Segment) (rt rt' : Revtr) : Type 0 where
  pub news : List ReversePath
  pub split : rt'.paths ≡ news ++ rt.paths
  pub grown : AllGrown rt.dead_end current segs news
  pub marked : rt'.dead_end ≡ rt.dead_end

-- More segments to choose from.
Growth-cons :
    {current : ReversePath} {segs : List Segment} {rt rt' : Revtr} (s : Segment)
    → Growth current segs rt rt'
    → Growth current (s ∷ segs) rt rt'
Growth-cons {current} {segs} {rt} s v = record {
  news = v.news;
  split = v.split;
  grown = AllGrown-cons v.news v.grown;
  marked = v.marked;
}
  where
    AllGrown-cons :
        (news : List ReversePath)
        → AllGrown rt.dead_end current segs news
        → AllGrown rt.dead_end current (s ∷ segs) news
    AllGrown-cons [] a = tt
    AllGrown-cons (q ∷ news) ((x, t, m, eq, live, rest), a) =
        ((x, t, Memᴰ.tail m, eq, live, rest), AllGrown-cons news a)

push_grown :
    {current : ReversePath} {segs : List Segment} {rt mid rt' : Revtr} (p : ReversePath)
    → IsGrown rt.dead_end current segs p
    → mid.paths ≡ p ∷ rt.paths
    → mid.dead_end ≡ rt.dead_end
    → Growth current segs mid rt'
    → Growth current segs rt rt'
push_grown {current} {segs} {rt} p g paths dead v = record {
  news = v.news ++ (p ∷ []);
  split = v.split ∙ ap (◌++◌ v.news) paths ∙ sym (append_assoc v.news (p ∷ []) rt.paths);
  grown = AllGrown-append v.news (rw dead at v.grown);
  marked = v.marked ∙ dead;
}
  where
    AllGrown-append :
        (news : List ReversePath)
        → AllGrown rt.dead_end current segs news
        → AllGrown rt.dead_end current segs (news ++ (p ∷ []))
    AllGrown-append [] a = (g, tt)
    AllGrown-append (q ∷ news) (h, a) = (h, AllGrown-append news a)

same_stack :
    {current : ReversePath} {segs : List Segment} {rt mid rt' : Revtr}
    → Unchanged rt mid
    → Growth current segs mid rt'
    → Growth current segs rt rt'
same_stack {current} {segs} {rt} {mid} {rt'} (paths, dead) v = record {
  news = v.news;
  split = v.split ∙ ap (◌++◌ v.news) paths;
  grown = rw dead at v.grown;
  marked = v.marked ∙ dead;
}

no_growth :
    {current : ReversePath} {segs : List Segment} {rt rt' : Revtr}
    → Unchanged rt rt'
    → Growth current segs rt rt'
no_growth (paths, dead) = record { news = []; split = paths; grown = tt; marked = dead }

-- Every segment has a hop.
abbrev pub AllHaveHops : List Segment → Type 0
AllHaveHops [] = Unit {0}
AllHaveHops (s ∷ segs) = (hops s ≢ []) × AllHaveHops segs

-- The loop answers `added` truly, unless an error cut it short: with `false` at the start, whether
-- the stack grew from `old` to `new`.
abbrev Answers : List ReversePath → List ReversePath → Bool → LoopEnd → Type 0
Answers old new added returned = Unit {0}
Answers old new added (finished b) =
    (b ≡ added) × (new ≡ old)
    ⊎ (b ≡ true) × ((p : ReversePath) × (ps : List ReversePath) × (new ≡ p ∷ ps ++ old))

abbrev GrowsTo : ReversePath → List Segment → Revtr → Bool → Option (Revtr × LoopEnd) → Type 0
GrowsTo current segs rt added o =
    (rt' : Revtr) × (end : LoopEnd) × (o ≡ some (rt', end))
    × Growth current segs rt rt'
    × Answers rt.paths rt'.paths added end

Answers-same :
    (old mid new : List ReversePath) (added : Bool) (end : LoopEnd)
    → mid ≡ old
    → Answers mid new added end
    → Answers old new added end
Answers-same old mid new added end e a = rw e at a

Answers-grown :
    (old mid new : List ReversePath) (added : Bool) (end : LoopEnd) (q : ReversePath)
    → mid ≡ q ∷ old
    → Answers mid new true end
    → Answers old new added end
Answers-grown old mid new added returned q e a = tt
Answers-grown old mid new added (finished b) q e (inl (same, kept)) = inr (same, (q, [], kept ∙ e))
Answers-grown old mid new added (finished b) q e (inr (grew, (p, ps, more))) = inr (
  grew,
  (
    p,
    ps ++ (q ∷ []),
    more ∙ ap (λ t. p ∷ (ps ++ t)) e ∙ ap (◌∷◌ p) (sym (append_assoc ps (q ∷ []) old)),
  ),
)

after_round-Growth :
    (current : ReversePath) (s : Segment) (segs : List Segment) (rt : Revtr) (added : Bool)
    (loop : Revtr → Bool → Option (Revtr × LoopEnd))
    → ((mid : Revtr) (b : Bool) → GrowsTo current segs mid b (loop mid b))
    → (r : Round) → RoundOf current s rt r
    → GrowsTo current (s ∷ segs) rt added (after_round loop added r)
after_round-Growth current s segs rt added loop ih (continues mid) same =
    let (rt', end, e, growth, answers) = ih mid added in
    (
      rt',
      end,
      e,
      same_stack same (Growth-cons s growth),
      Answers-same rt.paths mid.paths rt'.paths added end same.0 answers,
    )
after_round-Growth current s segs rt added loop ih (returns mid) same =
    (mid, returned, refl, no_growth same, tt)
after_round-Growth current s segs rt added loop ih (grows mid) (t, paths, dead, live, rest) =
    let (rt', end, e, growth, answers) = ih mid true in
    (
      rt',
      end,
      e,
      push_grown (add current t) (s, t, Memᴰ.head refl, refl, live, rest) paths dead
          (Growth-cons s growth),
      Answers-grown rt.paths mid.paths rt'.paths added end (add current t) paths answers,
    )

module _ (visit : StringMap → StringMap) (all : VisitsAll visit) (cm : String → String) where
  add_loop-Growth :
      (current : ReversePath) (segs : List Segment) (rt : Revtr) (added : Bool)
      → AllHaveHops segs
      → GrowsTo current segs rt added (add_loop visit cm current segs rt added)
  unfolding add_loop
  add_loop-Growth current [] rt added h =
      (rt, finished added, refl, no_growth (refl, refl), inl (refl, refl))
  add_loop-Growth current (s ∷ segs) rt added (ne, h) =
      let (r, e) = round_total visit all cm current s rt ne in
      rw e (
        after_round-Growth current s segs rt added (add_loop visit cm current segs)
          (λ mid b. add_loop-Growth current segs mid b h) r
          (round-RoundOf visit all cm current s rt r e))

-- `sort.Sort` makes up no segment.
abbrev pub Rearranges : (List Segment → List Segment) → Type 0
Rearranges sorted = (segs : List Segment) (s : Segment) → Memᴰ s (sorted segs) → Memᴰ s segs

AllHaveHops-of_mem :
    (segs : List Segment) → ((s : Segment) → Memᴰ s segs → hops s ≢ []) → AllHaveHops segs
AllHaveHops-of_mem [] h = tt
AllHaveHops-of_mem (s ∷ segs) h =
    (h s (Memᴰ.head refl), AllHaveHops-of_mem segs (λ t m. h t (Memᴰ.tail m)))

-- `added` tells that the stack grew.
abbrev pub Tells : List ReversePath → List ReversePath → Bool → Type 0
Tells old new added =
    (added ≡ false) ⊎ ((p : ReversePath) × (ps : List ReversePath) × (new ≡ p ∷ ps ++ old))

after_loop-Growth :
    {current : ReversePath} {segs : List Segment} {rt : Revtr} (rt' : Revtr) (end : LoopEnd)
    → Growth current segs rt rt'
    → Answers rt.paths rt'.paths false end
    → Growth current segs rt (after_loop (rt', end)).0
      × Tells rt.paths (after_loop (rt', end)).0.paths (after_loop (rt', end)).1
after_loop-Growth rt' returned v a = (v, inl refl)
after_loop-Growth rt' (finished false) v a = (v, inl refl)
after_loop-Growth rt' (finished true) v (inl (no_way, kept)) = cc
after_loop-Growth {current} {segs} {rt} rt' (finished true) v (inr (e, (p, ps, more))) =
    let keeps = call_on_add_keeps rt' in
    (
      record {
        news = v.news;
        split = keeps.0 ∙ v.split;
        grown = v.grown;
        marked = keeps.1 ∙ v.marked;
      },
      inr (p, ps, keeps.0 ∙ more),
    )

-- `AddSegments` panics on no list of segments that have hops. It leaves the paths that were on the
-- stack and marks no dead end; each path that it puts on top is the current one with what the loop
-- removal leaves of a segment whose last hop is no dead end; and where it answers true there is
-- such a path.
pub add_segments-Growth :
    (visit : StringMap → StringMap) (cm : String → String) (sorted : List Segment → List Segment)
    (segs : List Segment) (rt : Revtr) (current : ReversePath)
    → VisitsAll visit
    → Rearranges sorted
    → ((s : Segment) → Memᴰ s segs → hops s ≢ [])
    → curr_path rt ≡ some current
    → (rt' : Revtr) × (added : Bool) × (add_segments visit cm sorted segs rt ≡ some (rt', added))
      × Growth current (sorted segs) rt rt'
      × Tells rt.paths rt'.paths added
unfolding add_segments
add_segments-Growth visit cm sorted segs rt current all arranged has_hops e =
    let (rt', end, loop, growth, answers) =
      add_loop-Growth visit all cm current (sorted segs) rt false
        (AllHaveHops-of_mem (sorted segs) (λ s m. has_hops s (arranged segs s m))) in
    let (growth', tells) = after_loop-Growth rt' end growth answers in
    rw (e, clone_path_lem current, loop)
      ((after_loop (rt', end)).0, (after_loop (rt', end)).1, refl, growth', tells)
