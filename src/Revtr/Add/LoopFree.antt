-- ===== src/Revtr/Add/LoopFree.antt =====
-- `AddSegments` of revtr/reverse_traceroute/revese_traceroute.go keeps the paths free of loops.
use reverse_traceroute_publi.Base.{
  ℕ, zero, suc, ◌≡◌, ◌≢◌, ◌⊎◌, inl, inr, Bool, false, List, [], ◌∷◌, ◌++◌, String, some, drop,
  arith, Dict, eq_refl, subst,
}
use mathlib.Core.List.{Memᴰ}
use reverse_traceroute_publi.StringUtil.{StringMap, in_array}
use reverse_traceroute_publi.StringUtil.Sets.{VisitsAll, in_array-append}
use reverse_traceroute_publi.Segment.{Segment, hops, type_of, zero_ip}
use reverse_traceroute_publi.ReversePath.{ReversePath, path_hops}
use reverse_traceroute_publi.ReversePath.Hops.{path_hops-add}
use reverse_traceroute_publi.Revtr.{Revtr, curr_path, top}
use reverse_traceroute_publi.Revtr.Add.{add_segments}
use reverse_traceroute_publi.Revtr.Add.Rest.{Disjoint}
use reverse_traceroute_publi.Revtr.Add.Stack.{IsGrown, AllGrown, Rearranges, add_segments-Growth}

-- No responsive hop comes twice.
abbrev pub NoLoop : List String → Type 0
NoLoop [] = Unit {0}
NoLoop (h ∷ seg) = ((h ≡ zero_ip) ⊎ (in_array seg h ≡ false)) × NoLoop seg

abbrev pub AllNoLoop : List ReversePath → Type 0
AllNoLoop [] = Unit {0}
AllNoLoop (p ∷ paths) = NoLoop (path_hops p) × AllNoLoop paths

NoLoop-append : (xs ys : List String) → NoLoop xs → NoLoop ys → Disjoint xs ys → NoLoop (xs ++ ys)
unfolding in_array
NoLoop-append [] ys n m d = m
NoLoop-append (x ∷ xs) ys (first, n) m d =
    (still first, NoLoop-append xs ys n m (λ h i. d h (ground arith)))
  where
    still :
        (x ≡ zero_ip) ⊎ (in_array xs x ≡ false) → (x ≡ zero_ip) ⊎ (in_array (xs ++ ys) x ≡ false)
    still (inl z) = inl z
    still (inr out) = inr (ground (arith, in_array-append xs ys x, d x (ground (arith, eq_refl x))))

NoLoop-drop : (k : ℕ) (xs : List String) → NoLoop xs → NoLoop (drop k xs)
NoLoop-drop zero xs n = n
NoLoop-drop (suc k) [] n = tt
NoLoop-drop (suc k) (x ∷ xs) n = NoLoop-drop k xs n.1

IsGrown-NoLoop :
    (dead : Dict Bool) (current : ReversePath) (segs : List Segment) (p : ReversePath)
    → NoLoop (path_hops current)
    → ((s : Segment) → Memᴰ s segs → NoLoop (hops s) × (type_of s ≢ 3))
    → IsGrown dead current segs p
    → NoLoop (path_hops p)
IsGrown-NoLoop dead current segs p n h
      (s, t, m, e, live, (some_left, (k, cut), last, inl (whole, _))) =
    absurd ((h s m).1 whole)
IsGrown-NoLoop dead current segs p n h (s, t, m, e, live, (some_left, (k, cut), last, inr d)) =
    rw (e, path_hops-add current t)
      (NoLoop-append (path_hops current) (hops t) n (rw cut (NoLoop-drop k (hops s) (h s m).0)) d)

AllGrown-NoLoop :
    (dead : Dict Bool) (current : ReversePath) (segs : List Segment) (news : List ReversePath)
    → NoLoop (path_hops current)
    → ((s : Segment) → Memᴰ s segs → NoLoop (hops s) × (type_of s ≢ 3))
    → AllGrown dead current segs news
    → AllNoLoop news
AllGrown-NoLoop dead current segs [] n h g = tt
AllGrown-NoLoop dead current segs (p ∷ news) n h (g, gs) =
    (IsGrown-NoLoop dead current segs p n h g, AllGrown-NoLoop dead current segs news n h gs)

AllNoLoop-append : (xs ys : List ReversePath) → AllNoLoop xs → AllNoLoop ys → AllNoLoop (xs ++ ys)
AllNoLoop-append [] ys n m = m
AllNoLoop-append (x ∷ xs) ys (first, n) m = (first, AllNoLoop-append xs ys n m)

top-NoLoop :
    (paths : List ReversePath) (current : ReversePath)
    → top paths ≡ some current
    → AllNoLoop paths
    → NoLoop (path_hops current)
top-NoLoop [] current e n = cc
top-NoLoop (p ∷ paths) current e (first, n) =
    let same : p ≡ current = cc in subst (λ q. NoLoop (path_hops q)) same first

-- `AddSegments` keeps every path of the stack free of loops, if the segments are free of loops
-- themselves and none is a traceroute to the source.
pub add_segments-NoLoop :
    (visit : StringMap → StringMap) (cm : String → String) (sorted : List Segment → List Segment)
    (segs : List Segment) (rt rt' : Revtr) (current : ReversePath) (added : Bool)
    → VisitsAll visit
    → Rearranges sorted
    → ((s : Segment) → Memᴰ s segs → (hops s ≢ []) × NoLoop (hops s) × (type_of s ≢ 3))
    → curr_path rt ≡ some current
    → AllNoLoop rt.paths
    → add_segments visit cm sorted segs rt ≡ some (rt', added)
    → AllNoLoop rt'.paths
unfolding curr_path
add_segments-NoLoop visit cm sorted segs rt rt' current added all arranged h e n run =
    let (new, told, result, growth, tells) =
      add_segments-Growth visit cm sorted segs rt current all arranged (λ s m. (h s m).0) e in
    let same : new ≡ rt' = cc (result, run) in
    subst (λ r. AllNoLoop r.paths) same
      (rw growth.split (
        AllNoLoop-append growth.news rt.paths
          (AllGrown-NoLoop rt.dead_end current (sorted segs) growth.news
            (top-NoLoop rt.paths current e n)
            (λ s m. let (_, distinct, other) = h s (arranged segs s m) in (distinct, other))
            growth.grown)
          n))
