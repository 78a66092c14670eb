-- ===== src/Adjacency/Candidates.antt =====
-- Which candidates `getAdjacenciesForIPToSrc` of revtr/reverse_traceroute/revese_traceroute.go
-- answers.
use reverse_traceroute_publi.Base.{
  ℕ, zero, suc, ◌≡◌, ◌≤◌, refl, sym, ap, ◌∙◌, not, ◌&&◌, List, [], ◌∷◌, ◌++◌, String, str_eq,
  length, length-take, take, take-length, ltb, arith, Bool-cases, inl, inr,
}
use reverse_traceroute_publi.StringUtil.{StringMap, in_array, string_slice_minus}
use reverse_traceroute_publi.StringUtil.Sets.{in_array-single, VisitsAll}
use reverse_traceroute_publi.StringUtil.Minus.{in_array-string_slice_minus}
use reverse_traceroute_publi.Adjacency.{at_most_30, candidates}

take_all : (xs : List String) (n : ℕ) → length xs ≤ n → take n xs ≡ xs
take_all [] zero h = refl
take_all [] (suc n) h = refl
take_all (x ∷ xs) zero h = absurd (omega arith)
take_all (x ∷ xs) (suc n) h = ap (◌∷◌ x) (take_all xs n (omega arith))

at_most_30-take : (ret : List String) → at_most_30 ret ≡ take 30 ret
at_most_30-take ret = elim (Bool-cases (ltb (length ret) 30)) [
  | inl few ↦ rw few (take-length ret ∙ sym (take_all ret 30 (ground arith)))
  | inr many ↦ rw many refl
]

-- The candidates are at most thirty: first the neighbours seen on the way to the source, and behind
-- them every other neighbour that is none of these and not the hop itself, and nothing else.
pub candidates_lem :
    (visit : StringMap → StringMap) (ip : String) (atjs combined_ips : List String)
    → VisitsAll visit
    → (length (candidates visit ip atjs combined_ips) ≤ 30)
      × ((rest : List String) × (candidates visit ip atjs combined_ips ≡ take 30 (atjs ++ rest))
          × ((h : String)
              → in_array rest h
                ≡ ((in_array combined_ips h && not (in_array atjs h)) && not (str_eq ip h))))
unfolding candidates
candidates_lem visit ip atjs combined_ips all =
    let rest = string_slice_minus visit (string_slice_minus visit combined_ips atjs) (ip ∷ []) in
    let cut = at_most_30-take (atjs ++ rest) in
    (
      rw cut (omega (arith, length-take 30 (atjs ++ rest))),
      (
        rest,
        cut,
        λ h. ground (
          arith,
          in_array-string_slice_minus visit (string_slice_minus visit combined_ips atjs) (ip ∷ []) h
              all,
          in_array-string_slice_minus visit combined_ips atjs h all,
          in_array-single ip h,
        ),
      ),
    )
