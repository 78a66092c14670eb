-- ===== src/StringUtil/Sets.antt =====
-- The set operations of util/string/string_utils.go, `InArray` and `Union`, against
-- membership.
use reverse_traceroute_publi.Base.{
  ◌≡◌, refl, Bool, true, false, not, ◌&&◌, ◌||◌, List, [], ◌∷◌, ◌++◌, String, str_eq, eq_iff,
  if◌then◌else◌, arith, Bool-cases, inl, inr,
}
use reverse_traceroute_publi.StringUtil.{
  in_array, StringMap, map_set, map_has, visits, mark_left, mark_both, collect, union, same_bool,
  non_spoofed, non_spoofed_first,
}

pub in_array-single : (x h : String) → in_array (x ∷ []) h ≡ str_eq x h
unfolding in_array
in_array-single x h = ground arith

pub in_array-append :
    (xs ys : List String) (h : String) → in_array (xs ++ ys) h ≡ (in_array xs h || in_array ys h)
unfolding in_array
in_array-append [] ys h = refl
in_array-append (x ∷ xs) ys h = ground (arith, in_array-append xs ys h)

-- `range` visits each entry of the map, and nothing else.
abbrev pub VisitsAll : (StringMap → StringMap) → Type 0
VisitsAll visit = (mm : StringMap) (c : String) (v : Bool) → visits (visit mm) c v ≡ visits mm c v

-- One entry for each key.
abbrev pub IsMap : StringMap → Type 0
IsMap [] = Unit {0}
IsMap ((k, w) ∷ mm) = (map_has k mm ≡ false) × IsMap mm

pub map_has-map_set :
    (c k : String) (v : Bool) (mm : StringMap)
    → map_has k (map_set c v mm) ≡ (if str_eq c k then true else map_has k mm)
unfolding map_has map_set
map_has-map_set c k v [] = refl
map_has-map_set c k v ((j, w) ∷ mm) =
    ground (arith, eq_iff j c, eq_iff c k, eq_iff j k, map_has-map_set c k v mm)

pub map_set-IsMap : (c : String) (v : Bool) (mm : StringMap) → IsMap mm → IsMap (map_set c v mm)
unfolding map_has map_set
map_set-IsMap c v [] m = (refl, tt)
map_set-IsMap c v ((j, w) ∷ mm) m =
    ground (arith, eq_iff j c, eq_iff c j, map_set-IsMap c v mm m.1, map_has-map_set c j v mm)

not-visits : (k : String) (w : Bool) (mm : StringMap) → map_has k mm ≡ false → visits mm k w ≡ false
unfolding map_has visits
not-visits k w [] h = refl
not-visits k w ((j, u) ∷ mm) h = ground (arith, not-visits k w mm)

visits-map_set :
    (c k : String) (v w : Bool) (mm : StringMap)
    → IsMap mm
    → visits (map_set c v mm) k w ≡ (if str_eq c k then same_bool v w else visits mm k w)
unfolding map_has map_set visits
visits-map_set c k v w [] m = ground arith
visits-map_set c k v w ((j, u) ∷ mm) m =
    ground
      (arith, eq_iff j c, eq_iff c k, eq_iff j k, visits-map_set c k v w mm m.1, not-visits k w mm)

pub map_has-visits :
    (k : String) (mm : StringMap) → map_has k mm ≡ (visits mm k true || visits mm k false)
unfolding map_has visits
map_has-visits k [] = refl
map_has-visits k ((j, w) ∷ mm) = ground (arith, map_has-visits k mm)

-- Every key of the left slice is in the map, with `false`.
mark_left-has :
    (mm : StringMap) (ss : List String) (k : String)
    → map_has k (mark_left mm ss) ≡ (map_has k mm || in_array ss k)
unfolding mark_left in_array
mark_left-has mm [] k = ground arith
mark_left-has mm (c ∷ ss) k =
    ground (arith, mark_left-has (map_set c false mm) ss k, map_has-map_set c k false mm)

mark_left-IsMap : (mm : StringMap) (ss : List String) → IsMap mm → IsMap (mark_left mm ss)
unfolding mark_left
mark_left-IsMap mm [] m = m
mark_left-IsMap mm (c ∷ ss) m = mark_left-IsMap (map_set c false mm) ss (map_set-IsMap c false mm m)

mark_left-unmarked :
    (mm : StringMap) (ss : List String) (k : String)
    → IsMap mm
    → visits mm k true ≡ false
    → visits (mark_left mm ss) k true ≡ false
unfolding mark_left
mark_left-unmarked mm [] k m h = h
mark_left-unmarked mm (c ∷ ss) k m h =
    mark_left-unmarked (map_set c false mm) ss k (map_set-IsMap c false mm m)
      (ground (arith, visits-map_set c k false true mm m))

-- The second loop marks the keys that are in the map already.
mark_both-visits :
    (mm : StringMap) (s : List String) (k : String)
    → IsMap mm
    → visits (mark_both mm s) k true ≡ (visits mm k true || (map_has k mm && in_array s k))
unfolding mark_both in_array
mark_both-visits mm [] k m = ground arith
mark_both-visits mm (c ∷ s) k m = elim (Bool-cases (map_has c mm)) [
  | inl e ↦ rw e (
      ground (
        arith,
        mark_both-visits (map_set c true mm) s k (map_set-IsMap c true mm m),
        visits-map_set c k true true mm m,
        map_has-map_set c k true mm,
        eq_iff c k,
      ))
  | inr e ↦ rw e (ground (arith, mark_both-visits mm s k m, eq_iff c k))
]

collect-found :
    (mm : StringMap) (found : Bool) (ret : List String)
    → (collect mm found ret).0 ≡ (visits mm non_spoofed true || found)
unfolding collect visits
collect-found [] found ret = refl
collect-found ((k, true) ∷ mm) found ret = ground (
  arith,
  collect-found mm (str_eq k non_spoofed || found)
      (if str_eq k non_spoofed then ret else ret ++ (k ∷ [])),
)
collect-found ((k, false) ∷ mm) found ret = ground (arith, collect-found mm found ret)

collect-mem :
    (mm : StringMap) (found : Bool) (ret : List String) (h : String)
    → in_array (collect mm found ret).1 h
      ≡ (in_array ret h || (visits mm h true && not (str_eq h non_spoofed)))
unfolding collect visits
collect-mem [] found ret h = ground arith
collect-mem ((k, false) ∷ mm) found ret h = ground (arith, collect-mem mm found ret h)
collect-mem ((k, true) ∷ mm) found ret h = elim (Bool-cases (str_eq k non_spoofed)) [
  | inl e ↦
      rw (e, collect) (ground (arith, collect-mem mm true ret h, eq_iff k h, eq_iff k non_spoofed))
  | inr e ↦
      rw (e, collect)
        (ground (
          arith,
          collect-mem mm found (ret ++ (k ∷ [])) h,
          in_array-append ret (k ∷ []) h,
          in_array-single k h,
          eq_iff k h,
        ))
]

pub in_array-non_spoofed_first :
    (r : Bool × List String) (h : String)
    → in_array (non_spoofed_first r) h ≡ ((str_eq non_spoofed h && r.0) || in_array r.1 h)
unfolding in_array
in_array-non_spoofed_first (true, ret) h = ground arith
in_array-non_spoofed_first (false, ret) h = ground arith

-- `Union` answers the elements that the two slices have in common, in whatever order `range`
-- visits the map: every one of them, and no other.
pub in_array-union :
    (visit : StringMap → StringMap) (ss s : List String) (h : String)
    → VisitsAll visit
    → in_array (union visit ss s) h ≡ (in_array ss h && in_array s h)
unfolding union
in_array-union visit ss s h all = ground (
  arith,
  in_array-non_spoofed_first (collect (visit mm) false []) h,
  collect-found (visit mm) false [],
  collect-mem (visit mm) false [] h,
  all mm h true,
  all mm non_spoofed true,
  eq_iff non_spoofed h,
  eq_iff h non_spoofed,
  marked h,
  marked non_spoofed,
  empty h,
)
  where
    mm : StringMap
    mm = mark_both (mark_left [] ss) s

    marked : (k : String) → visits mm k true ≡ (in_array ss k && in_array s k)
    marked k = ground (
      arith,
      mark_both-visits (mark_left [] ss) s k (mark_left-IsMap [] ss tt),
      mark_left-unmarked [] ss k tt none_yet,
      mark_left-has [] ss k,
      nothing k,
    )
      where
        none_yet : visits [] k true ≡ false
        none_yet = unfold visits in refl

        nothing : (k : String) → map_has k [] ≡ false
        nothing k = unfold map_has in refl

    empty : (k : String) → in_array [] k ≡ false
    empty k = unfold in_array in refl
