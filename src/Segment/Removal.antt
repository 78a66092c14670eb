-- ===== src/Segment/Removal.antt =====
-- What `RemoveHops` of revtr/reverse_traceroute/segments.go leaves, and its error.
use reverse_traceroute_publi.Base.{
  ℕ, zero, suc, ◌<◌, ◌≡◌, ◌⊎◌, not, sym, refl, ap, ◌∙◌, inl, inr, true, false, ◌&&◌, List, [], ◌∷◌,
  String, str_eq, eq_iff, eq_refl, length, drop, ltb, ℤ, negsuc, next_index, arith, ap₂, str_cases,
  ◌≢◌, Bool-cases,
}
use reverse_traceroute_publi.StringUtil.{StringMap, in_array, union}
use reverse_traceroute_publi.StringUtil.Sets.{VisitsAll, in_array-union}
use reverse_traceroute_publi.Segment.{
  RevSegment, zero_ip, no_zeros, max_index_loop, trim_hops, remove_hops, last_or, last_hop,
}
use reverse_traceroute_publi.Segment.Loops.{
  in_array-drop, in_array-drop_more, r_index-last, max_index_loop-mem, in_array-no_zeros,
  empty_of_none, nonempty_of_mem, in_array-cut_after, cut_after-drop,
}

-- What the removal leaves is the end of the segment.
pub trim_hops-drop :
    (visit : StringMap → StringMap) (cm : String → String) (to_del seg : List String)
    → (k : ℕ) × (trim_hops visit cm to_del seg ≡ drop k seg)
unfolding trim_hops
trim_hops-drop visit cm to_del seg =
    elim (Bool-cases (ltb 0 (length (union visit seg (no_zeros to_del))))) [
      | inl e ↦ rw e (
          cut_after-drop (max_index_loop cm seg (negsuc 0) (union visit seg (no_zeros to_del))) seg)
      | inr e ↦ rw e (0, refl)
    ]

-- A hop, other than 0.0.0.0, that is in both.
abbrev pub CommonHop : List String → List String → Type 0
CommonHop seg to_del =
    (g : String) × (in_array seg g ≡ true) × (in_array to_del g ≡ true) × (str_eq g zero_ip ≡ false)

none_or_some :
    (c : List String) → (ltb 0 (length c) ≡ false) ⊎ ((g : String) × (in_array c g ≡ true))
unfolding in_array
none_or_some [] = inl refl
none_or_some (g ∷ c) = inr (g, rw (eq_refl g) refl)

module _ (visit : StringMap → StringMap) (all : VisitsAll visit) where
  -- No hop of `to_del` is left in the segment, but for unresponsive hops.
  pub in_array-trim_hops :
      (cm : String → String) (to_del seg : List String) (h : String)
      → in_array to_del h ≡ true
      → h ≢ zero_ip
      → in_array (trim_hops visit cm to_del seg) h ≡ false
  unfolding trim_hops
  in_array-trim_hops cm to_del seg h del nonzero = elim (Bool-cases (in_array common h)) [
    | inl m ↦ rw (nonempty_of_mem common h m) (
        in_array-cut_after top seg h (
          in_array-drop_more _ _ seg h (max_index_loop-mem cm seg (negsuc 0) common h m)
            (r_index-last cm seg h)))
    | inr m ↦ elim (Bool-cases (ltb 0 (length common))) [
      | inl e ↦
          rw e (in_array-cut_after top seg h (in_array-drop (next_index top) seg h (not_in_seg m)))
      | inr e ↦ rw e (not_in_seg m)
    ]
  ]
    where
      common : List String
      common = union visit seg (no_zeros to_del)

      top : ℤ
      top = max_index_loop cm seg (negsuc 0) common

      not_in_seg : in_array common h ≡ false → in_array seg h ≡ false
      not_in_seg m = ground (
        arith,
        in_array-union visit seg (no_zeros to_del) h all,
        in_array-no_zeros to_del h,
        eq_iff h zero_ip,
      )

  -- `RemoveHops` returns its error "Still a loop" exactly where an unresponsive hop is left in the
  -- segment and there is one in `to_del`.
  pub remove_hops-error :
      (cm : String → String) (to_del : List String) (rv : RevSegment)
      → (remove_hops visit cm to_del rv).1
        ≡ (in_array (remove_hops visit cm to_del rv).0.segment zero_ip && in_array to_del zero_ip)
  unfolding remove_hops
  remove_hops-error cm to_del rv =
      elim (Bool-cases (in_array rest zero_ip && in_array to_del zero_ip)) [
        | inl e ↦ rw e (nonempty_of_mem common zero_ip (in_common zero_ip ∙ e))
        | inr e ↦ rw e (rw (empty_of_none common (none_in e)) refl)
      ]
    where
      rest : List String
      rest = trim_hops visit cm to_del rv.segment

      common : List String
      common = union visit rest to_del

      in_common : (h : String) → in_array common h ≡ (in_array rest h && in_array to_del h)
      in_common h = in_array-union visit rest to_del h all

      none_in :
          (in_array rest zero_ip && in_array to_del zero_ip) ≡ false
          → (h : String) → in_array common h ≡ false
      none_in e h = elim (Bool-cases (in_array to_del h)) [
        | inr out ↦ ground (arith, in_common h)
        | inl del ↦ elim (str_cases h zero_ip) [
          | inl zero_hop ↦ rw zero_hop (in_common zero_ip ∙ e)
          | inr ne ↦ ground (
            arith,
            in_common h,
            in_array-trim_hops cm to_del rv.segment h del
                (λ z. cc (ne, ap (λ t. str_eq t zero_ip) z, eq_refl zero_ip)),
          )
        ]
      ]

  trim_hops-kept :
      (cm : String → String) (to_del seg : List String)
      → (trim_hops visit cm to_del seg ≡ seg) ⊎ CommonHop seg to_del
  unfolding trim_hops
  trim_hops-kept cm to_del seg = elim (none_or_some (union visit seg (no_zeros to_del))) [
    | inl nothing ↦ inl (rw (nothing) refl)
    | inr (g, common) ↦
        let in_both : (in_array seg g && (in_array to_del g && not (str_eq g zero_ip))) ≡ true =
          rw (sym (in_array-no_zeros to_del g))
            (sym (in_array-union visit seg (no_zeros to_del) g all) ∙ common) in
        inr (g, ground (arith, in_both), ground (arith, in_both), ground (arith, in_both))
  ]

  no_common_left :
      (cm : String → String) (to_del seg : List String) (h : String)
      → (in_array (trim_hops visit cm to_del seg) h
          && (in_array to_del h && not (str_eq h zero_ip)))
        ≡ false
  no_common_left cm to_del seg h = elim (Bool-cases (in_array to_del h && not (str_eq h zero_ip))) [
    | inr out ↦ ground (arith, out)
    | inl here ↦ ground (
      arith,
      here,
      in_array-trim_hops cm to_del seg h (ground (arith, here))
          (λ z. ground (arith, here, ap (λ t. str_eq t zero_ip) z, eq_refl zero_ip)),
    )
  ]

  -- What `RemoveHops` leaves is an end of the segment; no hop `h` of it is one of `to_del`, unless it is
  -- unresponsive; and it is the whole segment, or there is a hop, other than an unresponsive one, both
  -- in the segment and in `to_del`.
  pub remove_hops-Trims :
      (cm : String → String) (to_del : List String) (rv : RevSegment) (h : String)
      → let seg = (remove_hops visit cm to_del rv).0.segment in
        ((k : ℕ) × (seg ≡ drop k rv.segment))
        × ((in_array seg h && (in_array to_del h && not (str_eq h zero_ip))) ≡ false)
        × ((seg ≡ rv.segment) ⊎ CommonHop rv.segment to_del)
  unfolding remove_hops
  remove_hops-Trims cm to_del rv h = (
    trim_hops-drop visit cm to_del rv.segment,
    no_common_left cm to_del rv.segment h,
    trim_hops-kept cm to_del rv.segment,
  )

  -- Its error is that a hop of `to_del` is left.
  pub remove_hops-disjoint :
      (cm : String → String) (to_del : List String) (rv : RevSegment) (h : String)
      → (remove_hops visit cm to_del rv).1 ≡ false
      → in_array to_del h ≡ true
      → in_array (remove_hops visit cm to_del rv).0.segment h ≡ false
  unfolding remove_hops
  remove_hops-disjoint cm to_del rv h fine del = elim (Bool-cases (in_array rest h)) [
    | inr out ↦ out
    | inl in_rest ↦ cc (
      nonempty_of_mem (union visit rest to_del) h
          (in_array-union visit rest to_del h all ∙ ap₂ ◌&&◌ in_rest del),
      fine,
    )
  ]
    where
      rest : List String
      rest = trim_hops visit cm to_del rv.segment

last_or-drop :
    (k : ℕ) (d : String) (xs : List String)
    → 0 < length (drop k xs)
    → last_or d (drop k xs) ≡ last_or d xs
unfolding last_or
last_or-drop zero d xs h = refl
last_or-drop (suc k) d [] h = refl
last_or-drop (suc k) d (x ∷ xs) h = last_or-drop_pos k d x xs h
  where
    last_or-drop_pos :
        (k : ℕ) (d x : String) (xs : List String)
        → 0 < length (drop k xs)
        → last_or d (drop k xs) ≡ last_or x xs
    last_or-drop_pos zero d x [] h = absurd (omega arith)
    last_or-drop_pos zero d x (y ∷ xs) h = refl
    last_or-drop_pos (suc k) d x [] h = absurd (omega arith)
    last_or-drop_pos (suc k) d x (y ∷ xs) h = last_or-drop_pos k d y xs h

-- What is left of a segment ends in the same hop.
pub last_hop-trim_hops :
    (visit : StringMap → StringMap) (cm : String → String) (to_del : List String) (rv : RevSegment)
    → 0 < length (remove_hops visit cm to_del rv).0.segment
    → last_hop (remove_hops visit cm to_del rv).0 ≡ last_hop rv
unfolding remove_hops last_hop
last_hop-trim_hops visit cm to_del rv h =
    let (k, e) = trim_hops-drop visit cm to_del rv.segment in
    rw e (last_or-drop k "" rv.segment (rw e at h))
