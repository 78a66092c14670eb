-- ===== src/StringUtil/Slices.antt =====
-- `StringSliceReverse`, `StringSliceIndex` and `CloneStringSlice` of util/string/string_utils.go
-- against the list functions that they compute.
use reverse_traceroute_publi.Base.{
  ℕ, zero, suc, ◌+◌, ◌-◌, ◌≡◌, refl, sym, ap, ◌∙◌, ◌⊎◌, inl, inr, false, List, [], ◌∷◌, ◌++◌,
  String, length, set, replicate, reverse, append_assoc, append-nil, arith, pos, negsuc, get_elem?,
  some, take, str_cases, eq_refl,
}
use reverse_traceroute_publi.StringUtil.{
  in_array, reverse_fill, string_slice_reverse, index_from, string_slice_index, append_each,
  clone_string_slice,
}
use mathlib.Core.List.{reverse-cons}

pub append_each-append : (ret ss : List String) → append_each ret ss ≡ ret ++ ss
unfolding append_each
append_each-append ret [] = sym (append-nil ret)
append_each-append ret (s ∷ ss) =
    append_each-append (ret ++ (s ∷ [])) ss ∙ append_assoc ret (s ∷ []) ss

-- `CloneStringSlice` copies the slice.
pub clone_string_slice_lem : (ss : List String) → clone_string_slice ss ≡ ss
unfolding clone_string_slice
clone_string_slice_lem ss = append_each-append [] ss

set_last_blank :
    (m : ℕ) (b s : String) (acc : List String)
    → set (replicate (suc m) b ++ acc) m s ≡ replicate m b ++ (s ∷ acc)
set_last_blank zero b s acc = refl
set_last_blank (suc m) b s acc = ap (◌∷◌ b) (set_last_blank m b s acc)

reverse_fill-reverse :
    (n i : ℕ) (acc ss : List String)
    → n ≡ i + length ss
    → reverse_fill n i (replicate (length ss) "" ++ acc) ss ≡ reverse ss ++ acc
unfolding reverse_fill
reverse_fill-reverse n i acc [] e = refl
reverse_fill-reverse n i acc (s ∷ ss) e =
    let m : n - i - 1 ≡ length ss = omega arith in
    rw (m, set_last_blank (length ss) "" s acc)
      (reverse_fill-reverse n (suc i) (s ∷ acc) ss (omega arith)
        ∙ sym (append_assoc (reverse ss) (s ∷ []) acc)
        ∙ ap (λ t. t ++ acc) (sym (reverse-cons s ss)))

-- `StringSliceReverse` reverses the slice.
pub string_slice_reverse_lem : (ss : List String) → string_slice_reverse ss ≡ reverse ss
unfolding string_slice_reverse
string_slice_reverse_lem ss =
    ap (λ t. reverse_fill (length ss) 0 t ss) (sym (append-nil (replicate (length ss) "")))
    ∙ reverse_fill-reverse (length ss) 0 [] ss (omega arith)
    ∙ append-nil (reverse ss)

index_from_cases :
    (i : ℕ) (segs : List String) (seg : String)
    → (in_array segs seg ≡ false) × (index_from i segs seg ≡ negsuc 0)
      ⊎ ((k : ℕ) × (index_from i segs seg ≡ pos (i + k))
          × (get_elem? segs k ≡ some seg)
          × (in_array (take k segs) seg ≡ false))
unfolding index_from in_array
index_from_cases i [] seg = inl (refl, refl)
index_from_cases i (s ∷ segs) seg = elim (str_cases s seg) [
  | inl e ↦ inr (0, ground (arith, eq_refl seg), ap some e, refl)
  | inr ne ↦ elim (index_from_cases (suc i) segs seg) [
    | inl (out, none_found) ↦ inl (rw ne out, rw ne none_found)
    | inr (k, found, at, first) ↦ inr (suc k, rw ne (found ∙ ap pos (omega arith)), at, rw ne first)
  ]
]

-- `StringSliceIndex` answers the first index of the element, or -1 where the slice lacks it.
pub string_slice_index_cases :
    (segs : List String) (seg : String)
    → (in_array segs seg ≡ false) × (string_slice_index segs seg ≡ negsuc 0)
      ⊎ ((k : ℕ) × (string_slice_index segs seg ≡ pos k)
          × (get_elem? segs k ≡ some seg)
          × (in_array (take k segs) seg ≡ false))
unfolding string_slice_index
string_slice_index_cases segs seg = elim (index_from_cases 0 segs seg) [
  | inl p ↦ inl p
  | inr (k, found, at, first) ↦ inr (k, found ∙ ap pos (omega arith), at, first)
]
