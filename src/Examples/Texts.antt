-- ===== src/Examples/Texts.antt =====
-- The theorems on slices of strings at concrete inputs.
use reverse_traceroute_publi.Base.{◌≡◌, not, ◌&&◌, List, [], ◌∷◌, String}
use reverse_traceroute_publi.StringUtil.{non_spoofed, in_array, union, string_slice_minus}
use reverse_traceroute_publi.StringUtil.Sets.{in_array-union}
use reverse_traceroute_publi.StringUtil.Minus.{in_array-string_slice_minus}
use reverse_traceroute_publi.Examples.Sample.{own_order, own_order-VisitsAll}

abbrev xs : List String
xs = "a" ∷ "b" ∷ non_spoofed ∷ []

abbrev ys : List String
ys = "b" ∷ "c" ∷ non_spoofed ∷ []

in_array-union_example :
    in_array (union own_order xs ys) non_spoofed
    ≡ (in_array xs non_spoofed && in_array ys non_spoofed)
in_array-union_example = in_array-union own_order xs ys non_spoofed own_order-VisitsAll

in_array-string_slice_minus_example :
    in_array (string_slice_minus own_order xs ys) "a" ≡ (in_array xs "a" && not (in_array ys "a"))
in_array-string_slice_minus_example =
    in_array-string_slice_minus own_order xs ys "a" own_order-VisitsAll
