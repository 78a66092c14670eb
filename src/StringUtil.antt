-- ===== src/StringUtil.antt =====
-- util/string/string_utils.go: the string slices and string sets that the reverse traceroute
-- engine works with. A Go slice is a list, a `map[string]bool` an association list with one entry
-- for each key. The order in which `range` visits a map is the argument `visit`.
pub mod Sets
pub mod Minus
pub mod Compare
pub mod Slices
use reverse_traceroute_publi.Base.{
  ℕ, zero, suc, ◌-◌, ◌+◌, ◌≡◌, Bool, true, false, not, ◌&&◌, ◌||◌, List, [], ◌∷◌, ◌++◌, String,
  compare_text, Ordering, str_eq, length, set, replicate, ltb, ◌==◌, if◌then◌else◌, ℤ, pos, negsuc,
}

abbrev pub non_spoofed : String
non_spoofed = "non_spoofed"

-- `InArray`.
unfoldable pub in_array : List String → String → Bool
in_array [] s = false
in_array (ss ∷ arr) s = if str_eq ss s then true else in_array arr s

-- `StringSliceReverse`: `ret[len(ss)-i-1] = s` for each index `i`.
reverse_fill : ℕ → ℕ → List String → List String → List String
reverse_fill n i ret [] = ret
reverse_fill n i ret (s ∷ ss) = reverse_fill n (suc i) (set ret (n - i - 1) s) ss

unfoldable pub string_slice_reverse : List String → List String
unfolding reverse_fill
string_slice_reverse ss = reverse_fill (length ss) 0 (replicate (length ss) "") ss

-- A `map[string]bool`.
abbrev pub StringMap : Type 0
StringMap = List (String × Bool)

-- `mm[c] = v`.
unfoldable pub map_set : String → Bool → StringMap → StringMap
map_set c v [] = (c, v) ∷ []
map_set c v ((k, w) ∷ mm) = if str_eq k c then (c, v) ∷ mm else (k, w) ∷ map_set c v mm

-- `_, ok := mm[c]`.
unfoldable pub map_has : String → StringMap → Bool
map_has c [] = false
map_has c ((k, w) ∷ mm) = if str_eq k c then true else map_has c mm

-- `delete(mm, c)`.
unfoldable pub map_delete : String → StringMap → StringMap
map_delete c [] = []
map_delete c ((k, w) ∷ mm) = if str_eq k c then mm else (k, w) ∷ map_delete c mm

abbrev pub same_bool : Bool → Bool → Bool
same_bool true b = b
same_bool false b = not b

-- Whether a `range` over these entries comes by the key `c` with the value `v`.
unfoldable pub visits : StringMap → String → Bool → Bool
visits [] c v = false
visits ((k, w) ∷ mm) c v = (str_eq k c && same_bool w v) || visits mm c v

-- The two loops of `Union` that fill the map, and the one that reads it.
unfoldable pub mark_left : StringMap → List String → StringMap
mark_left mm [] = mm
mark_left mm (c ∷ ss) = mark_left (map_set c false mm) ss

unfoldable pub mark_both : StringMap → List String → StringMap
mark_both mm [] = mm
mark_both mm (c ∷ s) = mark_both (if map_has c mm then map_set c true mm else mm) s

unfoldable pub collect : StringMap → Bool → List String → Bool × List String
collect [] found ret = (found, ret)
collect ((k, v) ∷ mm) found ret =
    let special = str_eq k non_spoofed && v in
    collect mm (special || found) (if special then ret else if v then ret ++ (k ∷ []) else ret)

abbrev pub non_spoofed_first : Bool × List String → List String
non_spoofed_first (true, ret) = non_spoofed ∷ ret
non_spoofed_first (false, ret) = ret

-- `StringSet.Union`, which is the intersection of the two slices.
unfoldable pub union : (StringMap → StringMap) → List String → List String → List String
unfolding mark_left mark_both collect
union visit ss s = non_spoofed_first (collect (visit (mark_both (mark_left [] ss) s)) false [])

-- `StringSliceMinus`.
unfoldable pub mark_all : StringMap → List String → StringMap
mark_all old [] = old
mark_all old (s ∷ l) = mark_all (map_set s true old) l

unfoldable pub delete_all : StringMap → List String → StringMap
delete_all old [] = old
delete_all old (s ∷ r) = delete_all (if map_has s old then map_delete s old else old) r

unfoldable pub collect_keys : StringMap → Bool → List String → Bool × List String
collect_keys [] found ret = (found, ret)
collect_keys ((k, v) ∷ old) found ret =
    let special = str_eq k non_spoofed in
    collect_keys old (special || found) (if special then ret else ret ++ (k ∷ []))

unfoldable pub string_slice_minus :
    (StringMap → StringMap) → List String → List String → List String
unfolding mark_all delete_all collect_keys
string_slice_minus visit l r =
    non_spoofed_first (collect_keys (visit (delete_all (mark_all [] l) r)) false [])

-- `StringArrayEquals`: the lengths first, then element by element.
unfoldable pub equal_elements : List String → List String → Bool
equal_elements [] right = true
equal_elements (l ∷ left) [] = true
equal_elements (l ∷ left) (r ∷ right) = if str_eq l r then equal_elements left right else false

unfoldable pub string_array_equals : List String → List String → Bool
unfolding equal_elements
string_array_equals left right =
    if length left == length right then equal_elements left right else false

-- The answer of `strings.Compare`.
abbrev pub compare_answer : Ordering → ℤ
compare_answer Ordering.lt = negsuc 0
compare_answer Ordering.eq = pos 0
compare_answer Ordering.gt = pos 1

-- `OrderStringArray`: the longer slice is the greater, then the first difference decides.
abbrev or_else : Ordering → ℤ → ℤ
or_else Ordering.lt rest = negsuc 0
or_else Ordering.eq rest = rest
or_else Ordering.gt rest = pos 1

unfoldable pub order_elements : List String → List String → ℤ
order_elements [] right = pos 0
order_elements (l ∷ left) [] = pos 0
order_elements (l ∷ left) (r ∷ right) = or_else (compare_text l r) (order_elements left right)

unfoldable pub order_string_array : List String → List String → ℤ
unfolding order_elements
order_string_array left right =
    if ltb (length right) (length left)
    then pos 1
    else if ltb (length left) (length right)
    then negsuc 0
    else order_elements left right

-- `StringSliceIndex`.
unfoldable pub index_from : ℕ → List String → String → ℤ
index_from i [] seg = negsuc 0
index_from i (s ∷ segs) seg = if str_eq s seg then pos i else index_from (suc i) segs seg

unfoldable pub string_slice_index : List String → String → ℤ
unfolding index_from
string_slice_index segs seg = index_from 0 segs seg

-- `CloneStringSlice`: `ret = append(ret, s)` for each element.
unfoldable pub append_each : List String → List String → List String
append_each ret [] = ret
append_each ret (s ∷ ss) = append_each (ret ++ (s ∷ [])) ss

unfoldable pub clone_string_slice : List String → List String
unfolding append_each
clone_string_slice ss = append_each [] ss
