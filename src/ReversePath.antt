-- ===== src/ReversePath.antt =====
-- revtr/reverse_traceroute/reverse_path.go: a path is the list of its segments, from the
-- destination on. `none` is a panic: an index of -1 on a path with no segment.
pub mod Hops
use reverse_traceroute_publi.Base.{
  ℕ, ◌+◌, Bool, false, List, [], ◌∷◌, ◌++◌, String, Option, none, some, ◌>>=◌, length, pos,
}
use reverse_traceroute_publi.Segment.{
  Net, Segment, base, hops, clone, last_hop, reaches, symmetric_assumptions, length_of,
}
use reverse_traceroute_publi.Segment.Create.{new_dst_rev_segment}

pub record ReversePath : Type 0 where
  pub src : String
  pub dst : String
  pub path : List Segment

-- `NewReversePath`: with no segments, the destination alone.
unfoldable pub new_reverse_path : Net → String → String → List Segment → ReversePath
new_reverse_path net src dst [] = record {
  src = src;
  dst = dst;
  path = new_dst_rev_segment net (dst ∷ []) src dst (pos 0) false ∷ [];
}
new_reverse_path net src dst (s ∷ path) = record { src = src; dst = dst; path = s ∷ path }

-- `Clone`: each segment's clone is appended to a new slice.
unfoldable pub clone_each : List Segment → List Segment → List Segment
clone_each ret [] = ret
clone_each ret (seg ∷ path) = clone_each (ret ++ (clone seg ∷ [])) path

unfoldable pub clone_path : ReversePath → ReversePath
unfolding clone_each
clone_path rp = record { src = rp.src; dst = rp.dst; path = clone_each [] rp.path }

-- `Hops`: the segments' slices first, then all their elements.
unfoldable pub segs_of : List (List String) → List Segment → List (List String)
segs_of segs [] = segs
segs_of segs (p ∷ path) = segs_of (segs ++ (hops p ∷ [])) path

unfoldable pub append_hops : List String → List String → List String
append_hops acc [] = acc
append_hops acc (h ∷ seg) = append_hops (acc ++ (h ∷ [])) seg

unfoldable pub append_segs : List String → List (List String) → List String
append_segs acc [] = acc
append_segs acc (seg ∷ segs) = append_segs (append_hops acc seg) segs

unfoldable pub path_hops : ReversePath → List String
unfolding segs_of append_hops append_segs
path_hops rp = append_segs [] (segs_of [] rp.path)

-- `Length`.
unfoldable pub add_lengths : ℕ → List Segment → ℕ
add_lengths n [] = n
add_lengths n (seg ∷ path) = add_lengths (n + length_of (base seg) false) path

unfoldable pub path_length : ReversePath → ℕ
unfolding add_lengths
path_length rp = add_lengths 0 rp.path

-- `(*rp.Path)[rp.len()-1]`.
unfoldable pub last_of : List Segment → Option Segment
last_of [] = none
last_of (s ∷ []) = some s
last_of (s ∷ t ∷ path) = last_of (t ∷ path)

unfoldable pub last_seg : ReversePath → Option Segment
unfolding last_of
last_seg rp = last_of rp.path

unfoldable pub path_last_hop : ReversePath → Option String
path_last_hop rp = do s ← last_seg rp; some (last_hop (base s))

-- `Pop`: the path without its last segment, and that segment.
unfoldable pub but_last : List Segment → List Segment
but_last [] = []
but_last (s ∷ []) = []
but_last (s ∷ t ∷ path) = s ∷ but_last (t ∷ path)

unfoldable pub pop : ReversePath → Option (ReversePath × Segment)
unfolding but_last
pop rp = do s ← last_seg rp; some (record rp { path = but_last rp.path }, s)

unfoldable pub path_reaches : (String → String) → ReversePath → Option Bool
path_reaches cm rp = do s ← last_seg rp; some (reaches cm (base s))

unfoldable pub add_assumptions : ℕ → List Segment → ℕ
add_assumptions total [] = total
add_assumptions total (seg ∷ path) = add_assumptions (total + symmetric_assumptions seg) path

unfoldable pub path_symmetric_assumptions : ReversePath → ℕ
unfolding add_assumptions
path_symmetric_assumptions rp = add_assumptions 0 rp.path

-- `Add`.
unfoldable pub add : ReversePath → Segment → ReversePath
add rp s = record rp { path = rp.path ++ (s ∷ []) }
