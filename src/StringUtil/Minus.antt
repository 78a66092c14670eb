-- ===== src/StringUtil/Minus.antt =====
-- `StringSliceMinus` of util/string/string_utils.go, as an operation on sets.
use reverse_traceroute_publi.Base.{
  ◌≡◌, refl, Bool, true, false, not, ◌&&◌, ◌||◌, List, [], ◌∷◌, ◌++◌, String, str_eq, eq_iff,
  if◌then◌else◌, arith, Bool-cases, inl, inr,
}
use reverse_traceroute_publi.StringUtil.{
  in_array, StringMap, map_set, map_has, map_delete, mark_all, delete_all, collect_keys,
  string_slice_minus, non_spoofed,
}
use reverse_traceroute_publi.StringUtil.Sets.{
  in_array-single, in_array-append, VisitsAll, IsMap, map_has-map_set, map_set-IsMap,
  map_has-visits, in_array-non_spoofed_first,
}

map_has-map_delete :
    (c k : String) (mm : StringMap)
    → IsMap mm
    → map_has k (map_delete c mm) ≡ (map_has k mm && not (str_eq c k))
unfolding map_has map_delete
map_has-map_delete c k [] m = refl
map_has-map_delete c k ((j, w) ∷ mm) m =
    ground (arith, eq_iff j c, eq_iff c k, eq_iff j k, map_has-map_delete c k mm m.1)

map_delete-IsMap : (c : String) (mm : StringMap) → IsMap mm → IsMap (map_delete c mm)
unfolding map_has map_delete
map_delete-IsMap c [] m = tt
map_delete-IsMap c ((j, w) ∷ mm) m =
    ground (arith, map_delete-IsMap c mm m.1, map_has-map_delete c j mm m.1)

mark_all-has :
    (mm : StringMap) (ss : List String) (k : String)
    → map_has k (mark_all mm ss) ≡ (map_has k mm || in_array ss k)
unfolding mark_all in_array
mark_all-has mm [] k = ground arith
mark_all-has mm (c ∷ ss) k =
    ground (arith, mark_all-has (map_set c true mm) ss k, map_has-map_set c k true mm)

mark_all-IsMap : (mm : StringMap) (ss : List String) → IsMap mm → IsMap (mark_all mm ss)
unfolding mark_all
mark_all-IsMap mm [] m = m
mark_all-IsMap mm (c ∷ ss) m = mark_all-IsMap (map_set c true mm) ss (map_set-IsMap c true mm m)

delete_all-has :
    (mm : StringMap) (r : List String) (k : String)
    → IsMap mm
    → map_has k (delete_all mm r) ≡ (map_has k mm && not (in_array r k))
unfolding delete_all in_array
delete_all-has mm [] k m = ground arith
delete_all-has mm (c ∷ r) k m = elim (Bool-cases (map_has c mm)) [
  | inl e ↦ rw e (
      ground (
        arith,
        delete_all-has (map_delete c mm) r k (map_delete-IsMap c mm m),
        map_has-map_delete c k mm m,
      ))
  | inr e ↦ rw e (ground (arith, delete_all-has mm r k m, eq_iff c k))
]

collect_keys-found :
    (mm : StringMap) (found : Bool) (ret : List String)
    → (collect_keys mm found ret).0 ≡ (map_has non_spoofed mm || found)
unfolding collect_keys map_has
collect_keys-found [] found ret = refl
collect_keys-found ((k, v) ∷ mm) found ret =
    let special = str_eq k non_spoofed in
    ground
      (arith, collect_keys-found mm (special || found) (if special then ret else ret ++ (k ∷ [])))

collect_keys-mem :
    (mm : StringMap) (found : Bool) (ret : List String) (h : String)
    → in_array (collect_keys mm found ret).1 h
      ≡ (in_array ret h || (map_has h mm && not (str_eq h non_spoofed)))
unfolding collect_keys map_has
collect_keys-mem [] found ret h = ground arith
collect_keys-mem ((k, v) ∷ mm) found ret h = elim (Bool-cases (str_eq k non_spoofed)) [
  | inl e ↦
      rw (e, collect_keys)
        (ground (arith, collect_keys-mem mm true ret h, eq_iff k h, eq_iff k non_spoofed))
  | inr e ↦
      rw (e, collect_keys)
        (ground (
          arith,
          collect_keys-mem mm found (ret ++ (k ∷ [])) h,
          in_array-append ret (k ∷ []) h,
          in_array-single k h,
          eq_iff k h,
        ))
]

-- `StringSliceMinus` answers the elements of the left slice that the right one lacks, in whatever
-- order `range` visits the map.
pub in_array-string_slice_minus :
    (visit : StringMap → StringMap) (l r : List String) (h : String)
    → VisitsAll visit
    → in_array (string_slice_minus visit l r) h ≡ (in_array l h && not (in_array r h))
unfolding string_slice_minus
in_array-string_slice_minus visit l r h all = ground (
  arith,
  in_array-non_spoofed_first (collect_keys (visit old) false []) h,
  collect_keys-found (visit old) false [],
  collect_keys-mem (visit old) false [] h,
  left h,
  left non_spoofed,
  eq_iff non_spoofed h,
  eq_iff h non_spoofed,
  empty h,
)
  where
    old : StringMap
    old = delete_all (mark_all [] l) r

    left : (k : String) → map_has k (visit old) ≡ (in_array l k && not (in_array r k))
    left k = ground (
      arith,
      map_has-visits k (visit old),
      map_has-visits k old,
      all old k true,
      all old k false,
      delete_all-has (mark_all [] l) r k (mark_all-IsMap [] l tt),
      mark_all-has [] l k,
      nothing k,
    )
      where
        nothing : (k : String) → map_has k [] ≡ false
        nothing k = unfold map_has in refl

    empty : (k : String) → in_array [] k ≡ false
    empty k = unfold in_array in refl
