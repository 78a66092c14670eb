-- ===== src/Revtr/Storable/Distinct.antt =====
-- The hops that `ToStorable` of revtr/reverse_traceroute/revese_traceroute.go shows.
use reverse_traceroute_publi.Base.{
  ℕ, suc, ◌≡◌, refl, sym, ap, ◌∙◌, true, false, ◌||◌, List, [], ◌∷◌, ◌++◌, map, String, str_eq,
  eq_iff, some, arith, Bool-cases, inl, inr, subst,
}
use reverse_traceroute_publi.StringUtil.{StringMap, in_array, map_has, map_set}
use reverse_traceroute_publi.StringUtil.Sets.{in_array-single, in_array-append, map_has-map_set}
use reverse_traceroute_publi.Segment.{Segment, hops}
use reverse_traceroute_publi.ReversePath.{ReversePath, path_hops}
use reverse_traceroute_publi.ReversePath.Hops.{all_hops, path_hops-all_hops}
use reverse_traceroute_publi.Addresses.{IpNet}
use reverse_traceroute_publi.Revtr.{Revtr, curr_path, revtr_failed}
use reverse_traceroute_publi.Revtr.Storable.{
  RevtrHop, HopInfo, revtr_hop, type_of_hop, store_hops, store_segments, storable_path,
}

abbrev pub names : List RevtrHop → List String
names path = map (λ h. h.name) path

abbrev pub Distinct : List String → Type 0
Distinct [] = Unit {0}
Distinct (x ∷ xs) = (in_array xs x ≡ false) × Distinct xs

-- Each hop has a type that can be shown. (Those of an intersected traceroute are in a slice.)
abbrev pub HasTypes : Segment → ℕ → List String → Type 0
HasTypes s i [] = Unit {0}
HasTypes s i (h ∷ seg) = ((ty : ℕ) × (type_of_hop s i ≡ some ty)) × HasTypes s (suc i) seg

abbrev pub AllHaveTypes : List Segment → Type 0
AllHaveTypes [] = Unit {0}
AllHaveTypes (s ∷ path) = HasTypes s 0 (hops s) × AllHaveTypes path

-- The map has the hops stored so far, each of them once.
abbrev Knows : StringMap → List RevtrHop → Type 0
Knows seen path = ((h : String) → map_has h seen ≡ in_array (names path) h) × Distinct (names path)

-- To the hops in `old` those of `seg` were added.
abbrev Adds : List RevtrHop → List String → List RevtrHop → Type 0
Adds old seg path =
    (h : String) → in_array (names path) h ≡ (in_array (names old) h || in_array seg h)

names-append_end :
    (path : List RevtrHop) (x : RevtrHop) → names (path ++ (x ∷ [])) ≡ names path ++ (x.name ∷ [])
names-append_end [] x = refl
names-append_end (y ∷ path) x = ap (◌∷◌ y.name) (names-append_end path x)

in_array-append_end :
    (path : List RevtrHop) (x : RevtrHop) (h : String)
    → in_array (names (path ++ (x ∷ []))) h ≡ (in_array (names path) h || str_eq x.name h)
in_array-append_end path x h =
    ap (λ t. in_array t h) (names-append_end path x)
    ∙ in_array-append (names path) (x.name ∷ []) h
    ∙ ap (λ t. in_array (names path) h || t) (in_array-single x.name h)

Distinct-append_end :
    (xs : List String) (x : String)
    → Distinct xs
    → in_array xs x ≡ false
    → Distinct (xs ++ (x ∷ []))
unfolding in_array
Distinct-append_end [] x d h = (refl, tt)
Distinct-append_end (y ∷ xs) x (first, d) h = (
  ground (arith, in_array-append xs (x ∷ []) y, in_array-single x y, eq_iff x y, eq_iff y x),
  Distinct-append_end xs x d (ground arith),
)

Knows-add :
    (seen : StringMap) (path : List RevtrHop) (x : RevtrHop)
    → Knows seen path
    → map_has x.name seen ≡ false
    → Knows (map_set x.name true seen) (path ++ (x ∷ []))
Knows-add seen path x (known, d) new = (
  λ h. ground (arith, in_array-append_end path x h, map_has-map_set x.name h true seen, known h),
  subst Distinct (sym (names-append_end path x))
      (Distinct-append_end (names path) x.name d (sym (known x.name) ∙ new)),
)

Adds-known :
    (old path : List RevtrHop) (hi : String) (seg : List String)
    → in_array (names old) hi ≡ true
    → Adds old seg path
    → Adds old (hi ∷ seg) path
unfolding in_array
Adds-known old path hi seg known adds h = ground (arith, adds h, eq_iff hi h)

Adds-new :
    (old path : List RevtrHop) (x : RevtrHop) (seg : List String)
    → Adds (old ++ (x ∷ [])) seg path
    → Adds old (x.name ∷ seg) path
unfolding in_array
Adds-new old path x seg adds h = ground (arith, adds h, in_array-append_end old x h)

module _ (net : IpNet) (info : HopInfo) where
  store_hops-Adds :
      (s : Segment) (i : ℕ) (seg : List String) (seen : StringMap) (path : List RevtrHop)
      → Knows seen path
      → HasTypes s i seg
      → (r : StringMap × List RevtrHop) × (store_hops net info s i seg seen path ≡ some r)
        × Knows r.0 r.1
        × Adds path seg r.1
  unfolding store_hops revtr_hop
  store_hops-Adds s i [] seen path knows types =
      ((seen, path), refl, knows, λ h. unfold in_array in ground arith)
  store_hops-Adds s i (hi ∷ seg) seen path knows ((ty, known_type), types) =
      elim (Bool-cases (map_has hi seen)) [
        | inl old ↦
            let (r, e, k, adds) = store_hops-Adds s (suc i) seg seen path knows types in
            rw old (r, e, k, Adds-known path r.1 hi seg (sym (knows.0 hi) ∙ old) adds)
        | inr new ↦
            let x = revtr_hop net info s hi ty in
            let (r, e, k, adds) =
              store_hops-Adds s (suc i) seg (map_set hi true seen) (path ++ (x ∷ []))
                (Knows-add seen path x knows new) types in
            rw (new, known_type) (r, e, k, Adds-new path r.1 x seg adds)
      ]

  store_segments-Adds :
      (segs : List Segment) (seen : StringMap) (path : List RevtrHop)
      → Knows seen path
      → AllHaveTypes segs
      → (r : List RevtrHop) × (store_segments net info segs seen path ≡ some r)
        × Distinct (names r)
        × Adds path (all_hops segs) r
  unfolding store_segments all_hops
  store_segments-Adds [] seen path knows types =
      (path, refl, knows.1, λ h. unfold in_array in ground arith)
  store_segments-Adds (s ∷ segs) seen path knows (types, more) =
      let (next, e, k, adds) = store_hops-Adds s 0 (hops s) seen path knows types in
      let (r, e', d, adds') = store_segments-Adds segs next.0 next.1 k more in
      (
        r,
        rw e e',
        d,
        λ h. ground (arith, adds h, adds' h, in_array-append (hops s) (all_hops segs) h),
      )

  -- What `ToStorable` shows of a traceroute that has neither failed nor a reason to fail are the
  -- hops of its path, all of them and no other, and each only once. It does not panic if each hop
  -- of an intersected traceroute has a known type.
  pub storable_path-Distinct :
      (now : ℕ) (rt : Revtr) (p : ReversePath)
      → (revtr_failed now rt).1 ≡ false
      → curr_path rt ≡ some p
      → AllHaveTypes p.path
      → (path : List RevtrHop) × (storable_path net info now "" rt ≡ some path)
        × Distinct (names path)
        × ((h : String) → in_array (names path) h ≡ in_array (path_hops p) h)
  unfolding storable_path
  storable_path-Distinct now rt p fine e types =
      let (path, done, d, adds) =
        store_segments-Adds p.path [] [] ((λ h. unfold map_has in_array in refl), tt) types in
      (path, rw (fine, e) done, d, λ h. adds h ∙ ground (arith, path_hops-all_hops p, nothing h))
    where
      nothing : (h : String) → in_array [] h ≡ false
      nothing h = unfold in_array in refl
