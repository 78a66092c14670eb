-- ===== src/ReversePath/Hops.antt =====
-- The loops of revtr/reverse_traceroute/reverse_path.go against the concatenation of the segments.
use reverse_traceroute_publi.Base.{
  ℕ, ◌+◌, ◌≡◌, refl, sym, ap, ap₂, ◌∙◌, List, [], ◌∷◌, ◌++◌, String, some, length, append_assoc,
  append-nil, length-append, arith,
}
use reverse_traceroute_publi.StringUtil.Slices.{append_each-append}
use reverse_traceroute_publi.Segment.{
  Segment, RevSegment, hops, clone, clone_rev, length_of, rev, dst_rev, dst_sym_rev, tr_to_src_rev,
  rr_rev, spoof_rr_rev, ts_adj_rev, spoof_ts_adj_rev, spoof_ts_adj_rev_ts_zero,
  spoof_ts_adj_rev_ts_zero_double_stamp,
}
use reverse_traceroute_publi.ReversePath.{
  ReversePath, clone_each, clone_path, segs_of, append_hops, append_segs, path_hops, add_lengths,
  path_length, last_of, last_seg, but_last, pop, add,
}

clone_rev_lem : (rv : RevSegment) → clone_rev rv ≡ rv
unfolding clone_rev
clone_rev_lem rv = cc (append_each-append [] rv.segment)

-- A clone has its segment's fields, all of them.
pub clone_lem : (s : Segment) → clone s ≡ s
unfolding clone
clone_lem (rev rv) = ap rev (clone_rev_lem rv)
clone_lem (dst_rev rv) = ap dst_rev (clone_rev_lem rv)
clone_lem (dst_sym_rev rv tr n) = cc (clone_rev_lem rv, append_each-append [] tr)
clone_lem (tr_to_src_rev rv ts) = ap (λ t. tr_to_src_rev t ts) (clone_rev_lem rv)
clone_lem (rr_rev rv) = ap rr_rev (clone_rev_lem rv)
clone_lem (spoof_rr_rev rv s) = ap (λ t. spoof_rr_rev t s) (clone_rev_lem rv)
clone_lem (ts_adj_rev rv b) = ap (λ t. ts_adj_rev t b) (clone_rev_lem rv)
clone_lem (spoof_ts_adj_rev rv b s) = ap (λ t. spoof_ts_adj_rev t b s) (clone_rev_lem rv)
clone_lem (spoof_ts_adj_rev_ts_zero rv b s) =
    ap (λ t. spoof_ts_adj_rev_ts_zero t b s) (clone_rev_lem rv)
clone_lem (spoof_ts_adj_rev_ts_zero_double_stamp rv b s) =
    ap (λ t. spoof_ts_adj_rev_ts_zero_double_stamp t b s) (clone_rev_lem rv)

clone_each-append : (ret path : List Segment) → clone_each ret path ≡ ret ++ path
unfolding clone_each
clone_each-append ret [] = sym (append-nil ret)
clone_each-append ret (s ∷ path) =
    clone_each-append (ret ++ (clone s ∷ [])) path
    ∙ append_assoc ret (clone s ∷ []) path
    ∙ ap (λ t. ret ++ (t ∷ path)) (clone_lem s)

pub clone_path_lem : (rp : ReversePath) → clone_path rp ≡ rp
unfolding clone_path
clone_path_lem rp = cc (clone_each-append [] rp.path)

-- The hops of the segments, one segment after the other.
unfoldable pub all_hops : List Segment → List String
all_hops [] = []
all_hops (s ∷ path) = hops s ++ all_hops path

append_hops-append : (acc seg : List String) → append_hops acc seg ≡ acc ++ seg
unfolding append_hops
append_hops-append acc [] = sym (append-nil acc)
append_hops-append acc (h ∷ seg) =
    append_hops-append (acc ++ (h ∷ [])) seg ∙ append_assoc acc (h ∷ []) seg

append_segs-append :
    (acc : List String) (xs ys : List (List String))
    → append_segs acc (xs ++ ys) ≡ append_segs (append_segs acc xs) ys
unfolding append_segs
append_segs-append acc [] ys = refl
append_segs-append acc (x ∷ xs) ys = append_segs-append (append_hops acc x) xs ys

append_segs-segs_of :
    (acc : List String) (segs : List (List String)) (path : List Segment)
    → append_segs acc (segs_of segs path) ≡ append_segs acc segs ++ all_hops path
unfolding segs_of all_hops
append_segs-segs_of acc segs [] = sym (append-nil (append_segs acc segs))
append_segs-segs_of acc segs (p ∷ path) =
    append_segs-segs_of acc (segs ++ (hops p ∷ [])) path
    ∙ ap (λ t. t ++ all_hops path)
        (append_segs-append acc segs (hops p ∷ []) ∙ one (append_segs acc segs) (hops p))
    ∙ append_assoc (append_segs acc segs) (hops p) (all_hops path)
  where
    one : (acc seg : List String) → append_segs acc (seg ∷ []) ≡ acc ++ seg
    one acc seg = unfold append_segs in append_hops-append acc seg

-- `Hops` of a path is the concatenation of its segments' hops.
pub path_hops-all_hops : (rp : ReversePath) → path_hops rp ≡ all_hops rp.path
unfolding path_hops
path_hops-all_hops rp = append_segs-segs_of [] [] rp.path

pub all_hops-append : (xs ys : List Segment) → all_hops (xs ++ ys) ≡ all_hops xs ++ all_hops ys
unfolding all_hops
all_hops-append [] ys = refl
all_hops-append (s ∷ xs) ys =
    ap (λ t. hops s ++ t) (all_hops-append xs ys)
    ∙ sym (append_assoc (hops s) (all_hops xs) (all_hops ys))

-- Adding a segment puts its hops behind those of the path.
pub path_hops-add : (rp : ReversePath) (s : Segment) → path_hops (add rp s) ≡ path_hops rp ++ hops s
unfolding add all_hops
path_hops-add rp s =
    path_hops-all_hops (add rp s)
    ∙ all_hops-append rp.path (s ∷ [])
    ∙ ap₂ ◌++◌ (sym (path_hops-all_hops rp)) (append-nil (hops s))

pub last_of-append_end : (path : List Segment) (s : Segment) → last_of (path ++ (s ∷ [])) ≡ some s
unfolding last_of
last_of-append_end [] s = refl
last_of-append_end (p ∷ []) s = refl
last_of-append_end (p ∷ q ∷ path) s = last_of-append_end (q ∷ path) s

but_last-append_end : (path : List Segment) (s : Segment) → but_last (path ++ (s ∷ [])) ≡ path
unfolding but_last
but_last-append_end [] s = refl
but_last-append_end (p ∷ []) s = refl
but_last-append_end (p ∷ q ∷ path) s = ap (◌∷◌ p) (but_last-append_end (q ∷ path) s)

-- `Pop` takes back what `Add` put there.
pub pop-add : (rp : ReversePath) (s : Segment) → pop (add rp s) ≡ some (rp, s)
unfolding pop add last_seg
pop-add rp s = rw (last_of-append_end rp.path s, but_last-append_end rp.path s) refl

add_lengths-all_hops :
    (n : ℕ) (path : List Segment) → add_lengths n path ≡ n + length (all_hops path)
unfolding add_lengths all_hops length_of
add_lengths-all_hops n [] = omega arith
add_lengths-all_hops n (s ∷ path) =
    omega (
      arith,
      add_lengths-all_hops (n + length (hops s)) path,
      length-append (hops s) (all_hops path),
    )

-- `Length` of a path is the number of its hops.
pub path_length-length : (rp : ReversePath) → path_length rp ≡ length (path_hops rp)
unfolding path_length
path_length-length rp = rw (path_hops-all_hops rp) (add_lengths-all_hops 0 rp.path ∙ omega arith)
