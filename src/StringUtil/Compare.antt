-- ===== src/StringUtil/Compare.antt =====
-- `StringArrayEquals` and `OrderStringArray` of util/string/string_utils.go.
use reverse_traceroute_publi.Base.{
  ◌≡◌, refl, ◌↔◌, true, List, [], ◌∷◌, String, eq_iff, eq_refl, length, negate, flip-compare_text,
  arith,
}
use reverse_traceroute_publi.StringUtil.{
  equal_elements, string_array_equals, order_elements, order_string_array,
}

equal_elements→eq :
    (left right : List String)
    → length left ≡ length right
    → equal_elements left right ≡ true
    → left ≡ right
unfolding equal_elements
equal_elements→eq [] [] n h = refl
equal_elements→eq [] (r ∷ right) n h = absurd (omega arith)
equal_elements→eq (l ∷ left) [] n h = absurd (omega arith)
equal_elements→eq (l ∷ left) (r ∷ right) n h =
    ground (arith, eq_iff l r, equal_elements→eq left right)

equal_elements_self : (left : List String) → equal_elements left left ≡ true
unfolding equal_elements
equal_elements_self [] = refl
equal_elements_self (l ∷ left) = ground (arith, eq_refl l, equal_elements_self left)

-- `StringArrayEquals` decides equality.
pub string_array_equals_iff :
    (left right : List String) → (string_array_equals left right ≡ true) ↔ (left ≡ right)
unfolding string_array_equals
string_array_equals_iff left right = (
  λ h. equal_elements→eq left right (ground arith) (ground arith),
  λ e. rw e (ground (arith, equal_elements_self right)),
)

order_elements-flip :
    (left right : List String)
    → length left ≡ length right
    → order_elements right left ≡ negate (order_elements left right)
unfolding order_elements
order_elements-flip [] [] n = refl
order_elements-flip [] (r ∷ right) n = absurd (omega arith)
order_elements-flip (l ∷ left) [] n = absurd (omega arith)
order_elements-flip (l ∷ left) (r ∷ right) n =
    ground (arith, order_elements-flip left right, flip-compare_text l r)

-- Swapping the slices turns the answer of `OrderStringArray` round.
pub order_string_array-flip :
    (left right : List String)
    → order_string_array right left ≡ negate (order_string_array left right)
unfolding order_string_array
order_string_array-flip left right = ground (arith, order_elements-flip left right)
